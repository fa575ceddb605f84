-- ===== src/Crd/Json.antt =====
-- The allocations that the controller writes, as JSON, against their schema.
--
-- `encode_allocation` follows the JSON tags of pkg/apis/loadbalancing/v1alpha1/IPAllocation_types.go, without the
-- metadata: a field with `omitempty` is left out where it is the empty text. `fits` says what a
-- schema describes: every member of an object is a property, and every required name is there.
use plenuslb.Base.{
  Bool, true, false, not, ◌&&◌, ◌||◌, none, some, List, [], ◌∷◌, String, ◌==◌, ◌≡◌, refl, arith,
}
use plenuslb.Base.{if◌then◌else◌, all, any, is_empty}
use plenuslb.Api.{
  IpType, ephemeral_ip, persistent_ip, unknown_type, AllocationStatus, unset, success, error,
  failed, node_error, pending, addr_deleted, unknown_status, AddressAllocation, IpAllocation,
}
use plenuslb.Crd.{Schema, Properties, text, boolean, array, object, no_properties, property, lookup}
use plenuslb.Crd.Schemas.{entry_schema, allocation_schema, type_names, state_names}

mutual
  pub data Json : Type 0 where
    text_value : String → Json
    flag : Bool → Json
    list_of : Items → Json
    members_of : Members → Json

  pub data Items : Type 0 where
    no_items : Items
    item : Json → Items → Items

  pub data Members : Type 0 where
    no_members : Members
    member : String → Json → Members → Members

abbrev has_member : String → Members → Bool
has_member name no_members = false
has_member name (member other v rest) = other == name || has_member name rest

abbrev pub contains_text : List String → String → Bool
contains_text names s = any (λ n. n == s) names

unfoldable mutual
  pub fits : Schema → Json → Bool
  fits (text names) (text_value s) = is_empty names || contains_text names s
  fits boolean (flag b) = true
  fits (array least closed schema) (list_of items) = fit_items schema items
  fits (object required one_of known) (members_of members) =
      all (λ r. has_member r members) required
      && (is_empty one_of || any (λ names. all (λ r. has_member r members) names) one_of)
      && fit_members known members
  fits _ _ = false

  pub fit_items : Schema → Items → Bool
  fit_items schema no_items = true
  fit_items schema (item v rest) = fits schema v && fit_items schema rest

  pub fit_members : Properties → Members → Bool
  fit_members known no_members = true
  fit_members known (member name v rest) =
      (elim (lookup name known) [ none ↦ false | some schema ↦ fits schema v ])
      && fit_members known rest

abbrev pub type_text : IpType → String
type_text ephemeral_ip = "ephemeral"
type_text persistent_ip = "persistent"
type_text (unknown_type s) = s

abbrev pub status_text : AllocationStatus → String
status_text unset = ""
status_text success = "success"
status_text error = "error"
status_text failed = "failed"
status_text node_error = "node_error"
status_text pending = "pending"
status_text addr_deleted = "address_deleted_from_pool"
status_text (unknown_status s) = s

-- A field with `omitempty`.
abbrev omit_empty : String → String → Members → Members
omit_empty name s rest = if s == "" then rest else member name (text_value s) rest

unfoldable pub encode_entry : AddressAllocation → Json
encode_entry a = members_of (
    member "address" (text_value a.address) (
      omit_empty "networkInterface" a.network_interface (
        omit_empty "nodeName" a.node_name
          (omit_empty "cloudProvider" a.cloud_provider (omit_empty "pool" a.pool no_members)))))

abbrev pub encode_entries : List AddressAllocation → Items
encode_entries [] = no_items
encode_entries (a ∷ l) = item (encode_entry a) (encode_entries l)

unfoldable pub encode_allocation : IpAllocation → Json
encode_allocation a = members_of (
    member "spec"
      (members_of (
        member "type" (text_value (type_text a.ip_type))
          (member "allocations" (list_of (encode_entries a.allocations)) no_members)))
      (member "status"
        (members_of
          (omit_empty "state" (status_text a.state) (omit_empty "message" a.message no_members)))
        no_members))

abbrev pub has_pool : AddressAllocation → Bool
has_pool a = not (a.pool == "")

fits-encode_entry : (a : AddressAllocation) → fits entry_schema (encode_entry a) ≡ has_pool a
unfolding fits encode_entry
fits-encode_entry a = ground arith

fit_items-encode_entries :
    (l : List AddressAllocation) → fit_items entry_schema (encode_entries l) ≡ all has_pool l
unfolding fits
fit_items-encode_entries [] = refl
fit_items-encode_entries (a ∷ l) = ground (arith, fits-encode_entry a, fit_items-encode_entries l)

fit_members-state :
    (names : List String) (s m : String)
    → is_empty names ≡ false
    → fit_members
        (property "state" (text names) (property "message" (text []) no_properties))
        (omit_empty "state" s (omit_empty "message" m no_members))
      ≡ (s == "" || contains_text names s)
unfolding fits
fit_members-state names s m some_names = ground arith

and_swap : (x p s : Bool) → (x && (p && true) && (s && true)) ≡ (x && s && p)
and_swap x p s = ground arith

-- The type is one of the two that the controller knows, by its constructor or by its text.
abbrev pub is_known_type : IpType → Bool
is_known_type (unknown_type s) = "ephemeral" == s || "persistent" == s
is_known_type _ = true

-- The state is not set, or is one of the six, by its constructor or by its text.
abbrev pub is_known_status : AllocationStatus → Bool
is_known_status (unknown_status s) =
    s == ""
    || "success" == s
    || "error" == s
    || "failed" == s
    || "node_error" == s
    || "pending" == s
    || "address_deleted_from_pool" == s
is_known_status _ = true

contains_text-type_names : (t : IpType) → contains_text type_names (type_text t) ≡ is_known_type t
contains_text-type_names ephemeral_ip = refl
contains_text-type_names persistent_ip = refl
contains_text-type_names (unknown_type s) = ground arith

contains_text-state_names :
    (t : AllocationStatus)
    → (status_text t == "" || contains_text state_names (status_text t)) ≡ is_known_status t
contains_text-state_names unset = refl
contains_text-state_names success = refl
contains_text-state_names error = refl
contains_text-state_names failed = refl
contains_text-state_names node_error = refl
contains_text-state_names pending = refl
contains_text-state_names addr_deleted = refl
contains_text-state_names (unknown_status s) = ground arith

-- An allocation, written as JSON, fits the schema of its definition exactly if its type is one of the two
-- types, its state is not set or one of the six states, and every entry names a pool.
pub fits-encode_allocation :
    (a : IpAllocation)
    → fits allocation_schema (encode_allocation a)
      ≡ (is_known_type a.ip_type && is_known_status a.state && all has_pool a.allocations)
unfolding fits encode_allocation allocation_schema
fits-encode_allocation a =
    rw
      (
        fit_items-encode_entries a.allocations,
        fit_members-state state_names (status_text a.state) a.message refl,
        contains_text-type_names a.ip_type,
        contains_text-state_names a.state,
      )
      (and_swap (is_known_type a.ip_type) (all has_pool a.allocations) (is_known_status a.state))
