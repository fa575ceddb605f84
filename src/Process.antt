-- ===== src/Process.antt =====
-- The two processes: the start of pkg/cmd/controller/main.go, and the probes that
-- pkg/utils/k8shealth/k8sHealth.go answers in both.
--
-- Left out are the flags, the signals and the clients; what the start hands to other parts is the
-- result.
pub mod Probes
use plenuslb.Base.{Bool, true, false, Option, none, some, ℕ, String, ◌==◌, if◌then◌else◌}
use plenuslb.Base.Int.{decimal_ℤ}
use plenuslb.Base.Text.{sprint}
use plenuslb.Base.{[], ◌∷◌}
use plenuslb.Daemonset.{health_port}
use plenuslb.Election
use plenuslb.Election.{Election}

-- The package variables `IsHealth` and `IsReady`.
pub record Health : Type 0 where
  pub is_health : Bool
  pub is_ready : Bool

abbrev pub initial_health : Health
initial_health = record { is_health = true; is_ready = false }

-- The handlers that `HealthHandlers` gives the server: the status and the body for a path, or `none`
-- for a path without a handler.
unfoldable pub probe_response : Health → String → Option (ℕ × String)
probe_response h path =
    if path == "/health"
    then (if h.is_health then some (200, "ok") else some (500, "dead"))
    else (if path == "/ready"
        then (if h.is_ready then some (200, "ok") else some (423, "not-ready"))
        else none)

-- The address that `HealthHandlers` listens on, of the text of `HEALTH_PORT`; `none` is the end of the
-- process.
unfoldable pub probe_address : String → Option String
probe_address custom = elim (health_port custom) [
  | none ↦ none
  | some port ↦ some (sprint (":" ∷ decimal_ℤ port ∷ []))
]

-- `main` of the controller, of the name and the namespace of its pod: the election that it starts, and
-- the health after it; `none` is the end of the process.
unfoldable pub start_controller : String → String → Election → Health → Option (Election × Health)
unfolding Election.init
start_controller id namespace lead h =
    if id == ""
    then none
    else (if namespace == ""
        then none
        else some (Election.init namespace id lead, record h { is_ready = true }))
