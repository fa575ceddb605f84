-- ===== src/Placement.antt =====
-- What pkg/controller/persistentips/allocator.go and pkg/controller/ephemeralips/allocator.go do
-- alike with the options of a pool: the choice of a node, and the calls that put an address on a
-- node and on the cloud. The two files write these lines out once each, for their own type of pool.
use plenuslb.Base.{Option, none, some, List, [], ◌∷◌, String}
use plenuslb.Base.{if◌then◌else◌, length, get_elem?}
use plenuslb.Api.{
  PoolOptions, CloudIntegrations, AddressAllocation, host_network, cloud_option, interface_name,
}
use plenuslb.Errors.{Err, Result, ok, err}
use plenuslb.World.{Operator, Api, M, pure, panic, ◌>>=◌, call}
use plenuslb.Operators.{get_random_operator_node, ensure_ip_allocation_on_node}

-- The error assigned last, where a nil error assigns nothing.
abbrev pub later : Option Err → Option Err → Option Err
later e none = e
later e (some x) = some x

abbrev pub error_of {ℓ} : {A : Type ℓ} → Result A → Option Err
error_of (ok a) = none
error_of (err e) = some e

-- The node of a chosen operator or of the cluster, or the given one if none could be chosen.
abbrev pub node_or {ℓ} : {A : Type ℓ} → (A → String) → Result A → String → String
node_or f (ok a) node = f a
node_or f (err e) node = node

module _ {E : Type 0} (api : Api E) where
  -- `r.Intn(len(nodeList.Items))` and the index: both panic on an empty list.
  abbrev pub pick : List String → M E (Result String)
  pick [] = panic
  pick (n ∷ nodes) = do
    i ← call (api.intn (length (n ∷ nodes)))
    elim (get_elem? (n ∷ nodes) i) [ none ↦ panic | some node ↦ pure (ok node) ]

  -- `getRandomNode` with `getNetworkNodesList`
  unfoldable pub get_random_node : M E (Result String)
  get_random_node = do
    listed ← call api.list_nodes
    elim listed [ err e ↦ pure (err e) | ok nodes ↦ pick nodes ]

  -- The choice of `ChangeAllocationNode`: the interface, the node (empty if none could be chosen),
  -- and the error.
  unfoldable pub choose_node :
      Option PoolOptions → Option CloudIntegrations → M E (String × String × Option Err)
  choose_node options cloud =
      if host_network options
      then (do
        op ← get_random_operator_node api
        pure (interface_name options, node_or Operator.node_name op "", error_of op))
      else (if (cloud_option cloud).0
          then (do node ← get_random_node; pure ("", node_or (λ n. n) node "", error_of node))
          else pure ("", "", none))

  -- `allocateAddressOnCloud`
  unfoldable pub allocate_address_on_cloud :
      Option CloudIntegrations → String → String → M E (Option Err)
  allocate_address_on_cloud none address node_name = pure none
  allocate_address_on_cloud (some c) address node_name =
      if api.cloud_known c then call (api.assign_ip_to_server c address node_name) else pure none

  -- The part of `AllocateAddress` below the search of the pool.
  unfoldable pub allocate_with :
      Option PoolOptions → Option CloudIntegrations → AddressAllocation → M E (Option Err)
  allocate_with options cloud a = do
    on_node ←
        (if host_network options
          then ensure_ip_allocation_on_node api a.node_name (interface_name options) a.address
          else pure none)
    elim on_node [
      | some e ↦ pure (some e)
      | none ↦
          if (cloud_option cloud).0
          then allocate_address_on_cloud cloud a.address a.node_name
          else pure none
    ]
