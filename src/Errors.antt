-- ===== src/Errors.antt =====
-- The errors of the controller: the package's `Err…` values, those that `fmt.Errorf` makes, and
-- those that code outside the repository returns (the API server, gRPC, the cloud's client).
use plenuslb.Base.{String, ◌≡◌, refl, ◌⊎◌, inl, inr}

pub data Err : Type 0 where
  no_operator_node_available failed_to_dial_with_operator operator_not_ready : Err
  no_ip_available pool_not_found more_than_one_ephemeral_ip object_locked : Err
  allocation_not_found service_not_found wait_timeout addr_not_found server_not_found : Err
  errorf : String → Err
  foreign : String → Err

-- `err.Error()`
abbrev pub error_text : Err → String
error_text no_operator_node_available = "No operator node available"
error_text failed_to_dial_with_operator = "Failed to dial with operator"
error_text operator_not_ready = "Operator not ready"
error_text no_ip_available = "No ip available"
error_text pool_not_found = "No pool available"
error_text more_than_one_ephemeral_ip = "Ephemeral allocation can contains at most one address"
error_text object_locked = "Allocation object is locked, some operation is still in progress"
error_text allocation_not_found = "Allocation not found"
error_text service_not_found = "Service not found"
error_text wait_timeout = "timed out waiting for the condition"
error_text addr_not_found = "Floating IP not found"
error_text server_not_found = "Hetzner cloud node not found"
error_text (errorf s) = s
error_text (foreign s) = s

-- `(*IPAllocation, error)` and the like: a value, or an error with no value.
pub data Result {ℓ} (A : Type ℓ) : Type ℓ where
  ok : A → Result A
  err : Err → Result A

pub Result-cases {ℓ} :
    {A : Type ℓ} (r : Result A) → ((a : A) × (r ≡ ok a)) ⊎ ((x : Err) × (r ≡ err x))
Result-cases (ok a) = inl (a, refl)
Result-cases (err x) = inr (x, refl)
