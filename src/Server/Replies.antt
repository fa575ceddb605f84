-- ===== src/Server/Replies.antt =====
-- What a caller of pkg/operator/server/server.go knows of the operator's addresses from the replies.
use plenuslb.Base.{Bool, List, [], ◌∷◌, String, ◌≡◌, refl, inl, inr, arith}
use plenuslb.Base.{Option-cases}
use plenuslb.Observer.{Netlink, Agent, add_address, remove_address, cleanup}
use plenuslb.Observer.Tracking.{
  add_request, remove_request, cleanup_request, effect, serve, tracks, serve-tracks,
}
use plenuslb.Server.{
  Call, add_address_call, remove_address_call, cleanup_call, health_probe_call, Reply, result,
  add_address_reply, remove_address_reply, cleanup_reply, health_probe, answer,
}

-- What a caller that got a reply takes a call to have done to the set of addresses.
abbrev pub believes : Call → Reply → String → String → Bool → Bool
believes (add_address_call info) (result done m) i a before = effect (add_request info) i a before
believes (remove_address_call info) (result done m) i a before =
    effect (remove_request info) i a before
believes (cleanup_call keep_these) (result done m) i a before =
    effect (cleanup_request keep_these) i a before
believes _ _ i a before = before

module _ {N : Type 0} (netlink : Netlink N) (my_node_name : String) where
  unfoldable pub answer_all : List Call → Agent N → List Reply × Agent N
  answer_all [] s = ([], s)
  answer_all (c ∷ cs) s =
      let (r, s') = answer netlink my_node_name c s in
      let (rs, s'') = answer_all cs s' in (r ∷ rs, s'')

  abbrev pub believe_all : List Call → List Reply → String → String → Bool → Bool
  believe_all (c ∷ cs) (r ∷ rs) i a before = believe_all cs rs i a (believes c r i a before)
  believe_all _ _ i a before = before

  answer-tracks :
      (c : Call) (s : Agent N) (i a : String)
      → tracks netlink (answer netlink my_node_name c s).1 i a
        ≡ believes c (answer netlink my_node_name c s).0 i a (tracks netlink s i a)
  unfolding answer add_address_reply remove_address_reply cleanup_reply health_probe serve
  answer-tracks (add_address_call info) s i a = elim (Option-cases (add_address netlink info s).0) [
    | inl done ↦ ground (arith, serve-tracks netlink (add_request info) s i a)
    | inr (x, failed) ↦ ground (arith, serve-tracks netlink (add_request info) s i a)
  ]
  answer-tracks (remove_address_call info) s i a =
      elim (Option-cases (remove_address netlink info s).0) [
        | inl done ↦ ground (arith, serve-tracks netlink (remove_request info) s i a)
        | inr (x, failed) ↦ ground (arith, serve-tracks netlink (remove_request info) s i a)
      ]
  answer-tracks (cleanup_call keep_these) s i a =
      elim (Option-cases (cleanup netlink keep_these s).0) [
        | inl done ↦ ground (arith, serve-tracks netlink (cleanup_request keep_these) s i a)
        | inr (x, failed) ↦ ground (arith, serve-tracks netlink (cleanup_request keep_these) s i a)
      ]
  answer-tracks (health_probe_call message) s i a = refl

  -- After any sequence of calls, whatever netlink answers, the operator keeps an address on an interface
  -- exactly where a caller expects it from the replies: a result has the effect of its call on the
  -- set, and an error has none.
  pub answer_all-tracks :
      (cs : List Call) (s : Agent N) (i a : String)
      → tracks netlink (answer_all cs s).1 i a
        ≡ believe_all cs (answer_all cs s).0 i a (tracks netlink s i a)
  unfolding answer_all
  answer_all-tracks [] s i a = refl
  answer_all-tracks (c ∷ cs) s i a =
      ground
        (arith, answer-tracks c s i a, answer_all-tracks cs (answer netlink my_node_name c s).1 i a)
