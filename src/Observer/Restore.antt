-- ===== src/Observer/Restore.antt =====
-- What `observer.Cleanup` achieves on a node whose interfaces answer: every address that the operator
-- has to keep is back on its interface.
use plenuslb.Base.{
  Bool, true, false, ◌&&◌, none, List, [], ◌∷◌, String, ◌==◌, ◌≡◌, inl, inr, arith, any, all,
  eq_iff,
}
use plenuslb.Base.{Option-cases}
use plenuslb.Errors.{ok, err}
use plenuslb.Observer.{
  Link, Addr, Netlink, Agent, unless_exists, compose_link_label, add_address_to_network,
  is_address_on_interface, restore, cleanup, cleanup_network,
}
use plenuslb.World.{AddressInfo}

module _ {N : Type 0} (netlink : Netlink N) where
  -- Whether an interface has an address, for an answer of netlink.
  abbrev pub has_ip : Link → String → N → Bool
  has_ip link ip net = elim (netlink.addr_list link net) [
    | err e ↦ false
    | ok addresses ↦ any (λ a. ip == a.ip) addresses
  ]

  -- What netlink documents of interfaces that exist all the time: they are found under their name,
  -- their addresses are listed, an addition that succeeds, or fails since the address is there,
  -- leaves the address listed, and no addition takes one away. `exists_now` tells those interfaces.
  pub record Answers (exists_now : String → Bool) : Type 0 where
    pub found :
        (name : String)
        → exists_now name ≡ true
        → (link : Link) × ((net : N) → netlink.link_by_name name net ≡ ok link)
    pub lists :
        (link : Link) (net : N)
        → (addresses : List Addr) × (netlink.addr_list link net ≡ ok addresses)
    pub added :
        (link : Link) (a : Addr) (net : N)
        → unless_exists netlink (netlink.addr_add link a net).0 ≡ none
        → has_ip link a.ip (netlink.addr_add link a net).1 ≡ true
    pub kept :
        (link other : Link) (a : Addr) (ip : String) (net : N)
        → has_ip link ip net ≡ true
        → has_ip link ip (netlink.addr_add other a net).1 ≡ true

  -- The address is written the way that an IP is printed, and its interface exists.
  abbrev pub is_proper : (String → Bool) → AddressInfo → Bool
  is_proper exists_now info =
      netlink.ip_text info.address == info.address && exists_now info.interface_name

  -- The address is on its interface.
  abbrev pub is_present : N → AddressInfo → Bool
  is_present net info = elim (is_address_on_interface netlink info net) [ err e ↦ false | ok b ↦ b ]

  module _ (exists_now : String → Bool) (answers : Answers exists_now) where
    pub present-has_ip :
        (info : AddressInfo)
        → is_proper exists_now info ≡ true
        → (link : Link) × ((net : N) → netlink.link_by_name info.interface_name net ≡ ok link)
          × ((net : N) → is_present net info ≡ has_ip link info.address net)
    unfolding is_address_on_interface
    present-has_ip info p =
        let (link, named) = answers.found info.interface_name (ground arith) in
        (
          link,
          named,
          λ net. let (addresses, listed) = answers.lists link net in ground (arith, named net),
        )

    pub add-kept :
        (info other : AddressInfo) (net : N)
        → is_proper exists_now info ≡ true
        → is_proper exists_now other ≡ true
        → is_present net info ≡ true
        → is_present (add_address_to_network netlink other.interface_name other.address net).1 info
          ≡ true
    unfolding add_address_to_network
    add-kept info other net p q h =
        let (link, _, present) = present-has_ip info p in
        let (other_link, named, _) = present-has_ip other q in
        let a : Addr = record {
          ip = netlink.ip_text other.address;
          label = compose_link_label other_link;
        } in
        ground (
          arith,
          present net,
          named net,
          present (netlink.addr_add other_link a net).1,
          answers.kept link other_link a info.address net,
        )

    pub add-added :
        (info : AddressInfo) (net : N)
        → is_proper exists_now info ≡ true
        → (add_address_to_network netlink info.interface_name info.address net).0 ≡ none
        → is_present (add_address_to_network netlink info.interface_name info.address net).1 info
          ≡ true
    unfolding add_address_to_network
    add-added info net p h =
        let (link, named, present) = present-has_ip info p in
        let a : Addr = record {
          ip = netlink.ip_text info.address;
          label = compose_link_label link;
        } in
        ground (
          arith,
          named net,
          present (netlink.addr_add link a net).1,
          answers.added link a net,
          eq_iff (netlink.ip_text info.address) info.address,
        )

    restore-kept :
        (l : List AddressInfo) (info : AddressInfo) (net : N)
        → all (is_proper exists_now) l ≡ true
        → is_proper exists_now info ≡ true
        → is_present net info ≡ true
        → is_present (restore netlink l net).1 info ≡ true
    unfolding restore
    restore-kept [] info net ps p h = h
    restore-kept (o ∷ l) info net ps p h =
        let added = add_address_to_network netlink o.interface_name o.address net in
        let here = add-kept info o net p (ground arith) h in
        elim (Option-cases added.0) [
          | inl done ↦ ground (arith, here, restore-kept l info added.1 (ground arith) p here)
          | inr (x, failed) ↦ ground (arith, here)
        ]

    restore-present :
        (l : List AddressInfo) (net : N)
        → all (is_proper exists_now) l ≡ true
        → (restore netlink l net).0 ≡ none
        → all (is_present (restore netlink l net).1) l ≡ true
    unfolding restore
    restore-present [] net ps h = ground arith
    restore-present (o ∷ l) net ps h =
        let added = add_address_to_network netlink o.interface_name o.address net in
        elim (Option-cases added.0) [
          | inl done ↦
              let here = add-added o net (ground arith) done in
              ground (
                arith,
                restore-kept l o added.1 (ground arith) (ground arith) here,
                restore-present l added.1 (ground arith),
              )
          | inr (x, failed) ↦ absurd (ground arith)
        ]

    -- Suppose that the addresses of a cleanup request are written the way that an IP is printed and
    -- that their interfaces exist. If `observer.Cleanup` returns no error, then each of them is on
    -- its interface, and they are the list of assigned addresses.
    pub cleanup-present :
        (keep_these : List AddressInfo) (s : Agent N)
        → all (is_proper exists_now) keep_these ≡ true
        → (cleanup netlink keep_these s).0 ≡ none
        → (all (is_present (cleanup netlink keep_these s).1.net) keep_these ≡ true)
          × ((cleanup netlink keep_these s).1.assigned ≡ keep_these)
    unfolding cleanup
    cleanup-present keep_these s ps h =
        elim (Option-cases (cleanup_network netlink keep_these s.net).0) [
          | inr (x, failed) ↦ absurd (ground arith)
          | inl cleaned ↦
              let net = (cleanup_network netlink keep_these s.net).1 in
              elim (Option-cases (restore netlink keep_these net).0) [
                | inr (x, failed) ↦ absurd (ground arith)
                | inl done ↦ (ground (arith, restore-present keep_these net ps done), ground arith)
              ]
        ]
