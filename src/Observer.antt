-- ===== src/Observer.antt =====
-- The operator that runs on each node: pkg/operator/network/network.go, the addresses of the node's
-- interfaces, pkg/operator/observer/observer.go, the list of the addresses that the operator has to
-- keep, and the requests of pkg/operator/server/server.go.
--
-- The package netlink is the parameter `Netlink`, over a state `N` of the kernel's tables. Every
-- function of the observer holds the mutex from its first to its last line, so that each is one step
-- on the state.
pub mod Tracking
pub mod Restore
pub mod Update
use plenuslb.Base.{
  Bool, true, false, not, ◌&&◌, ◌||◌, Option, none, some, List, [], ◌∷◌, ◌++◌, String, ◌==◌,
}
use plenuslb.Base.{if◌then◌else◌, any, keep}
use plenuslb.Base.Text.{sprint}
use plenuslb.Errors.{Err, Result, ok, err, error_text}
use plenuslb.World.{AddressInfo}

-- `netlink.Link`, of which only the name is read, and `netlink.Addr`: the text of its IP, and the
-- label.
pub record Link : Type 0 where
  pub name : String

pub record Addr : Type 0 where
  pub ip : String
  pub label : String

pub record Netlink (N : Type 0) : Type 0 where
  pub link_by_name : String → N → Result Link
  pub link_list : N → Result (List Link)
  pub addr_list : Link → N → Result (List Addr)
  pub addr_add : Link → Addr → N → Option Err × N
  pub addr_del : Link → Addr → N → Option Err × N
  -- `net.ParseIP(s).String()`
  pub ip_text : String → String

-- The state of the process: `assignedAddressesList`, and the kernel's tables.
pub record Agent (N : Type 0) : Type 0 where
  pub assigned : List AddressInfo
  pub net : N

-- `ContainsAddressInfo`
unfoldable pub contains_address_info : List AddressInfo → String → String → Bool
contains_address_info a interface_name address =
    any (λ n. address == n.address && n.interface_name == interface_name) a

-- `composeLinkLabel`
unfoldable pub compose_link_label : Link → String
compose_link_label link = sprint (link.name ∷ ":" ∷ "pllb" ∷ [])

module _ {N : Type 0} (netlink : Netlink N) where
  -- The inner loop of `network.Cleanup`; the error of a removal is only logged.
  unfoldable pub cleanup_link : List AddressInfo → Link → List Addr → N → N
  unfolding contains_address_info compose_link_label
  cleanup_link keep_these link [] net = net
  cleanup_link keep_these link (a ∷ l) net =
      let ours =
        a.label == compose_link_label link
        && not (contains_address_info keep_these link.name a.ip) in
      cleanup_link keep_these link l (if ours then (netlink.addr_del link a net).1 else net)

  -- The outer loop of `network.Cleanup`.
  unfoldable pub cleanup_links : List AddressInfo → List Link → N → Option Err × N
  unfolding cleanup_link
  cleanup_links keep_these [] net = (none, net)
  cleanup_links keep_these (link ∷ links) net = elim (netlink.addr_list link net) [
    | err e ↦ (some e, net)
    | ok addresses ↦ cleanup_links keep_these links (cleanup_link keep_these link addresses net)
  ]

  -- `network.Cleanup`
  unfoldable pub cleanup_network : List AddressInfo → N → Option Err × N
  unfolding cleanup_links
  cleanup_network keep_these net = elim (netlink.link_list net) [
    | err e ↦ (some e, net)
    | ok links ↦ cleanup_links keep_these links net
  ]

  abbrev pub first_with : String → List Addr → Option Addr
  first_with address [] = none
  first_with address (a ∷ l) = if a.ip == address then some a else first_with address l

  -- `network.DeleteAddress`
  unfoldable pub delete_address : String → String → N → Option Err × N
  delete_address interface_name address net = elim (netlink.link_by_name interface_name net) [
    | err e ↦ (some e, net)
    | ok link ↦ elim (netlink.addr_list link net) [
      | err e ↦ (some e, net)
      | ok addresses ↦ elim (first_with address addresses) [
        | none ↦ (none, net)
        | some a ↦ netlink.addr_del link a net
      ]
    ]
  ]

  -- An error that says that the address is there already is none.
  abbrev pub unless_exists : Option Err → Option Err
  unless_exists none = none
  unless_exists (some e) = if error_text e == "file exists" then none else some e

  -- `network.AddAddress`
  unfoldable pub add_address_to_network : String → String → N → Option Err × N
  unfolding compose_link_label
  add_address_to_network interface_name address net =
      elim (netlink.link_by_name interface_name net) [
        | err e ↦ (some e, net)
        | ok link ↦
            let (e, net') =
              netlink.addr_add link
                (record { ip = netlink.ip_text address; label = compose_link_label link }) net in
            (unless_exists e, net')
      ]

  -- `IsAddressOnInterface`
  unfoldable pub is_address_on_interface : AddressInfo → N → Result Bool
  is_address_on_interface info net = elim (netlink.link_by_name info.interface_name net) [
    | err e ↦ err e
    | ok link ↦ elim (netlink.addr_list link net) [
      | err e ↦ err e
      | ok addresses ↦ ok (any (λ a. info.address == a.ip) addresses)
    ]
  ]

  -- `observer.AddAddress`
  unfoldable pub add_address : AddressInfo → Agent N → Option Err × Agent N
  unfolding add_address_to_network contains_address_info
  add_address info s =
      let (e, net) = add_address_to_network info.interface_name info.address s.net in
      elim e [
        | some x ↦ (some x, record s { net = net })
        | none ↦ (
          none,
          record {
            assigned =
                if contains_address_info s.assigned info.interface_name info.address
                then s.assigned
                else s.assigned ++ info ∷ [];
            net = net;
          },
        )
      ]

  -- `observer.RemoveAddress`
  unfoldable pub remove_address : AddressInfo → Agent N → Option Err × Agent N
  unfolding delete_address
  remove_address info s =
      let (e, net) = delete_address info.interface_name info.address s.net in
      elim e [
        | some x ↦ (some x, record s { net = net })
        | none ↦ (
          none,
          record {
            assigned =
                keep
                  (λ c.
                    not (c.address == info.address)
                    || not (c.interface_name == info.interface_name))
                  s.assigned;
            net = net;
          },
        )
      ]

  -- The loop of `observer.Cleanup` that restores the missing addresses.
  unfoldable pub restore : List AddressInfo → N → Option Err × N
  unfolding add_address_to_network
  restore [] net = (none, net)
  restore (info ∷ l) net =
      let (e, net') = add_address_to_network info.interface_name info.address net in
      let others = restore l net' in elim e [ some x ↦ (some x, net') | none ↦ others ]

  -- `observer.Cleanup`
  unfoldable pub cleanup : List AddressInfo → Agent N → Option Err × Agent N
  unfolding cleanup_network restore
  cleanup keep_these s =
      let (e, net) = cleanup_network keep_these s.net in
      elim e [
        | some x ↦ (some x, record s { net = net })
        | none ↦
            let (e', net') = restore keep_these net in
            elim e' [
              | some x ↦ (some x, record s { net = net' })
              | none ↦ (none, record { assigned = keep_these; net = net' })
            ]
      ]

  -- The loop of `processAddressUpdate`, which ends within the deadline of five seconds or with the
  -- process; errors are only logged.
  unfoldable pub restore_missing : List AddressInfo → N → N
  unfolding is_address_on_interface add_address_to_network
  restore_missing [] net = net
  restore_missing (info ∷ l) net = restore_missing l (elim (is_address_on_interface info net) [
    | err e ↦ net
    | ok true ↦ net
    | ok false ↦ (add_address_to_network info.interface_name info.address net).1
  ])

  -- `processAddressUpdate`
  unfoldable pub process_address_update : Agent N → Agent N
  unfolding restore_missing
  process_address_update s = record s { net = restore_missing s.assigned s.net }
