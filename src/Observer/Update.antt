-- ===== src/Observer/Update.antt =====
-- What `processAddressUpdate` achieves on a node whose interfaces answer and take every address: no
-- assigned address stays lost.
use plenuslb.Base.{Bool, none, String, ◌≡◌}
use plenuslb.Base.{if◌then◌else◌}
use plenuslb.Observer.{Link, Addr, Netlink, unless_exists, add_address_to_network}
use plenuslb.Observer.Restore.{Answers, is_present}
use plenuslb.World.{AddressInfo}

module _ {N : Type 0} (netlink : Netlink N) (exists_now : String → Bool)
    (answers : Answers netlink exists_now)
    (never_fails : (link : Link) (a : Addr) (net : N)
      → unless_exists netlink (netlink.addr_add link a net).0 ≡ none) where
  -- The node after one round of `processAddressUpdate`.
  abbrev after : AddressInfo → N → N
  after o net =
      if is_present netlink net o
      then net
      else (add_address_to_network netlink o.interface_name o.address net).1
