-- ===== src/Observer/Tracking.antt =====
-- What the list of assigned addresses is after any sequence of requests: the effect, on a set of
-- addresses, of the requests that succeeded.
use plenuslb.Base.{
  Bool, not, ◌&&◌, ◌||◌, Option, none, some, List, [], ◌∷◌, String, ◌==◌, ◌≡◌, ◌≤◌, inl, inr, arith,
  any, any-append, keep, count, count-append, count-keep, any-count, eq_iff,
}
use plenuslb.Base.{Option-cases}
use plenuslb.Errors.{Err}
use plenuslb.Observer.{
  Netlink, Agent, contains_address_info, add_address, remove_address, cleanup,
  process_address_update, add_address_to_network, delete_address,
}
use plenuslb.World.{AddressInfo}

-- What reaches the observer: the requests of the server, and the updates of the kernel.
pub data Request : Type 0 where
  add_request : AddressInfo → Request
  remove_request : AddressInfo → Request
  cleanup_request : List AddressInfo → Request
  address_update : Request

abbrev pub is_same : String → String → AddressInfo → Bool
is_same interface_name address n = address == n.address && n.interface_name == interface_name

-- The effect of a request on whether an address is in the set.
abbrev pub effect : Request → String → String → Bool → Bool
effect (add_request info) i a before = before || is_same i a info
effect (remove_request info) i a before = before && not (is_same i a info)
effect (cleanup_request keep_these) i a before = contains_address_info keep_these i a
effect address_update i a before = before

abbrev pub replay : List Request → String → String → Bool → Bool
replay [] i a before = before
replay (r ∷ rs) i a before = replay rs i a (effect r i a before)

any_same-keep :
    (i a : String) (info : AddressInfo) (l : List AddressInfo)
    → any (is_same i a) (
        keep
          (λ c. not (c.address == info.address) || not (c.interface_name == info.interface_name))
          l)
      ≡ (any (is_same i a) l && not (is_same i a info))
any_same-keep i a info [] = ground arith
any_same-keep i a info (c ∷ l) = ground (
  arith,
  any_same-keep i a info l,
  eq_iff c.address info.address,
  eq_iff a c.address,
  eq_iff a info.address,
  eq_iff c.interface_name info.interface_name,
  eq_iff c.interface_name i,
  eq_iff info.interface_name i,
)

module _ {N : Type 0} (netlink : Netlink N) where
  unfoldable pub serve : Request → Agent N → Option Err × Agent N
  serve (add_request info) s = add_address netlink info s
  serve (remove_request info) s = remove_address netlink info s
  serve (cleanup_request keep_these) s = cleanup netlink keep_these s
  serve address_update s = (none, process_address_update netlink s)

  abbrev pub tracks : Agent N → String → String → Bool
  tracks s i a = contains_address_info s.assigned i a

  -- A request that fails leaves the list as it is, and one that succeeds has its effect.
  pub serve-tracks :
      (r : Request) (s : Agent N) (i a : String)
      → tracks (serve r s).1 i a
        ≡ (elim (serve r s).0 [ none ↦ effect r i a (tracks s i a) | some _ ↦ tracks s i a ])
  unfolding serve add_address remove_address cleanup process_address_update contains_address_info
  serve-tracks (add_request info) s i a =
      elim (Option-cases
        (add_address_to_network netlink info.interface_name info.address s.net).0) [
          | inl added ↦ ground (
            arith,
            any-append (is_same i a) s.assigned (info ∷ []),
            eq_iff a info.address,
            eq_iff info.interface_name i,
          )
          | inr (x, failed) ↦ ground arith
        ]
  serve-tracks (remove_request info) s i a =
      elim (Option-cases (delete_address netlink info.interface_name info.address s.net).0) [
        | inl removed ↦ ground (arith, any_same-keep i a info s.assigned)
        | inr (x, failed) ↦ ground arith
      ]
  serve-tracks (cleanup_request keep_these) s i a = ground arith
  serve-tracks address_update s i a = ground arith

  unfoldable pub serve_all : List Request → Agent N → Agent N
  unfolding serve
  serve_all [] s = s
  serve_all (r ∷ rs) s = serve_all rs (serve r s).1

  -- The requests of a sequence that succeed.
  unfoldable pub succeeded : List Request → Agent N → List Request
  unfolding serve
  succeeded [] s = []
  succeeded (r ∷ rs) s =
      let rest = succeeded rs (serve r s).1 in
      elim (serve r s).0 [ none ↦ r ∷ rest | some _ ↦ rest ]

  -- After any sequence of requests, whatever netlink answers, the list has an address on an interface
  -- exactly where it is in the set that the requests that succeeded leave, one after the other.
  pub serve_all-tracks :
      (rs : List Request) (s : Agent N) (i a : String)
      → tracks (serve_all rs s) i a ≡ replay (succeeded rs s) i a (tracks s i a)
  unfolding serve_all succeeded
  serve_all-tracks [] s i a = ground arith
  serve_all-tracks (r ∷ rs) s i a = elim (Option-cases (serve r s).0) [
    | inl done ↦ ground (arith, serve-tracks r s i a, serve_all-tracks rs (serve r s).1 i a)
    | inr (x, failed) ↦ ground (arith, serve-tracks r s i a, serve_all-tracks rs (serve r s).1 i a)
  ]

  -- Each address is in the list at most once.
  abbrev pub IsDistinct : List AddressInfo → Type 0
  IsDistinct l = (i a : String) → count (is_same i a) l ≤ 1

  -- The lists that cleanups bring have no address twice.
  abbrev pub AllDistinct : List Request → Type 0
  AllDistinct [] = Unit {0}
  AllDistinct (cleanup_request keep_these ∷ rs) = IsDistinct keep_these × AllDistinct rs
  AllDistinct (_ ∷ rs) = AllDistinct rs

  add_address-IsDistinct :
      (info : AddressInfo) (s : Agent N)
      → IsDistinct s.assigned
      → IsDistinct (add_address netlink info s).1.assigned
  unfolding add_address contains_address_info
  add_address-IsDistinct info s d i a =
      elim (Option-cases
        (add_address_to_network netlink info.interface_name info.address s.net).0) [
          | inl added ↦ ground (
            arith,
            d i a,
            count-append (is_same i a) s.assigned (info ∷ []),
            any-count (is_same i a) s.assigned,
            eq_iff a info.address,
            eq_iff info.interface_name i,
          )
          | inr (x, failed) ↦ ground (arith, d i a)
        ]

  remove_address-IsDistinct :
      (info : AddressInfo) (s : Agent N)
      → IsDistinct s.assigned
      → IsDistinct (remove_address netlink info s).1.assigned
  unfolding remove_address
  remove_address-IsDistinct info s d i a =
      let other : AddressInfo → Bool =
        λ c. not (c.address == info.address) || not (c.interface_name == info.interface_name) in
      elim (Option-cases (delete_address netlink info.interface_name info.address s.net).0) [
        | inl removed ↦ ground (arith, d i a, count-keep other (is_same i a) s.assigned)
        | inr (x, failed) ↦ ground (arith, d i a)
      ]

  cleanup-IsDistinct :
      (keep_these : List AddressInfo) (s : Agent N)
      → IsDistinct keep_these
      → IsDistinct s.assigned
      → IsDistinct (cleanup netlink keep_these s).1.assigned
  unfolding cleanup
  cleanup-IsDistinct keep_these s k d i a = ground (arith, d i a, k i a)

  -- If the list has no address twice, and no cleanup brings one twice, then the list has none twice
  -- after any sequence of requests.
  pub serve_all-IsDistinct :
      (rs : List Request) (s : Agent N)
      → AllDistinct rs
      → IsDistinct s.assigned
      → (i a : String) → count (is_same i a) (serve_all rs s).assigned ≤ 1
  unfolding serve_all serve add_address remove_address cleanup process_address_update
  serve_all-IsDistinct [] s ok d = d
  serve_all-IsDistinct (add_request info ∷ rs) s ok d =
      serve_all-IsDistinct rs (serve (add_request info) s).1 ok (add_address-IsDistinct info s d)
  serve_all-IsDistinct (remove_request info ∷ rs) s ok d =
      serve_all-IsDistinct rs (serve (remove_request info) s).1 ok
        (remove_address-IsDistinct info s d)
  serve_all-IsDistinct (cleanup_request keep_these ∷ rs) s ok d =
      serve_all-IsDistinct rs (serve (cleanup_request keep_these) s).1 ok.1
        (cleanup-IsDistinct keep_these s ok.0 d)
  serve_all-IsDistinct (address_update ∷ rs) s ok d =
      serve_all-IsDistinct rs (serve address_update s).1 ok d
