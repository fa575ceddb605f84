-- ===== src/Tests/Agents.antt =====
-- The theorems on the operator of a node, with a netlink of one table of addresses.
use plenuslb.Base.{
  Bool, true, false, not, ◌&&◌, none, some, List, [], ◌∷◌, String, ◌==◌, ◌≡◌, refl, ◌+◌, ◌≤◌, bit,
  count, arith, any, all, eq_iff, keep,
}
use plenuslb.Base.{if◌then◌else◌}
use plenuslb.Base.Text.{eq_refl}
use plenuslb.Errors.{ok, foreign}
use plenuslb.Observer.{
  Addr, Netlink, Agent, cleanup, cleanup_network, cleanup_links, cleanup_link, restore,
  compose_link_label, add_address_to_network, contains_address_info,
}
use plenuslb.Observer.Restore.{Answers, is_present, cleanup-present}
use plenuslb.Observer.Tracking.{
  Request, add_request, remove_request, cleanup_request, address_update, serve_all, is_same,
  IsDistinct, serve_all-IsDistinct,
}
use plenuslb.World.{AddressInfo}

-- A kernel with every interface, whose table has the interface and the address of each entry.
abbrev Table : Type 0
Table = List (String × Addr)

abbrev addresses_of : String → Table → List Addr
addresses_of name [] = []
addresses_of name ((n, a) ∷ t) = if n == name then a ∷ addresses_of name t else addresses_of name t

abbrev is_there : String → String → Table → Bool
is_there name ip t = any (λ a. ip == a.ip) (addresses_of name t)

abbrev kernel : Netlink Table
kernel = record {
  link_by_name = λ name t. ok (record { name = name });
  link_list = λ t. ok (record { name = "eth0" } ∷ []);
  addr_list = λ link t. ok (addresses_of link.name t);
  addr_add = λ link a t.
      if is_there link.name a.ip t
      then (some (foreign "file exists"), t)
      else (none, (link.name, a) ∷ t);
  addr_del = λ link a t. (none, keep (λ x. not (x.0 == link.name && x.1.ip == a.ip)) t);
  ip_text = λ s. s;
}

abbrev every : String → Bool
every name = true

kernel-Answers : Answers kernel every
kernel-Answers = record {
  found = λ name h. (record { name = name }, λ t. refl);
  lists = λ link t. (addresses_of link.name t, refl);
  added = λ link a t h. ground (arith, eq_refl link.name, eq_refl a.ip);
  kept = λ link other a ip t h. ground arith;
}

abbrev first_address : AddressInfo
first_address = record { interface_name = "eth0"; address = "10.0.0.1" }

abbrev second_address : AddressInfo
second_address = record { interface_name = "eth0"; address = "10.0.0.2" }

-- The second address was lost.
abbrev agent : Agent Table
agent = record {
  assigned = first_address ∷ second_address ∷ [];
  net = ("eth0", record { ip = "10.0.0.1"; label = "eth0:pllb" }) ∷ [];
}

cleanup-present_example :
    (all
        (is_present kernel (cleanup kernel (second_address ∷ []) agent).1.net)
        (second_address ∷ [])
      ≡ true)
    × ((cleanup kernel (second_address ∷ []) agent).1.assigned ≡ second_address ∷ [])
unfolding cleanup cleanup_network restore add_address_to_network cleanup_links cleanup_link
    contains_address_info compose_link_label
cleanup-present_example =
    cleanup-present kernel every kernel-Answers (second_address ∷ []) agent refl refl

abbrev requests : List Request
requests =
    remove_request first_address
    ∷ address_update
    ∷ cleanup_request (first_address ∷ [])
    ∷ add_request second_address
    ∷ []

two_infos :
    (x y i a : String)
    → (x == y) ≡ false
    → bit (a == x && "eth0" == i) + (bit (a == y && "eth0" == i) + 0) ≤ 1
two_infos x y i a ne = ground (arith, eq_iff a x, eq_iff a y, eq_iff x y)

agent-IsDistinct : IsDistinct kernel agent.assigned
agent-IsDistinct i a = two_infos "10.0.0.1" "10.0.0.2" i a refl

serve_all-IsDistinct_example :
    count (is_same "eth0" "10.0.0.1") (serve_all kernel requests agent).assigned ≤ 1
serve_all-IsDistinct_example =
    serve_all-IsDistinct kernel requests agent ((λ i a. ground arith), tt) agent-IsDistinct "eth0"
      "10.0.0.1"
