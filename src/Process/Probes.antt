-- ===== src/Process/Probes.antt =====
-- What the operator makes of the environment and the probes that the daemon set gives it.
use plenuslb.Base.{
  true, Option, none, some, [], ◌∷◌, String, ◌==◌, ◌≡◌, refl, inl, inr, arith, find,
}
use plenuslb.Base.{Option-cases}
use plenuslb.Base.Int.{ℤ, decimal_ℤ}
use plenuslb.Base.Decimal.{
  fits_int32, parse_int32-decimal_ℤ, parse_int32-fits_int32, decimal_ℤ-nonempty,
}
use plenuslb.Daemonset.{
  Config, Container, DaemonSet, EnvVar, value, field_path, Port, Probe, health_port,
  get_daemonset_definition, operator_container,
}
use plenuslb.Process.{initial_health, probe_response}

-- The value that a container's environment gives a name.
abbrev pub env_text : String → Container → Option String
env_text name c = elim (find (λ (v : EnvVar). v.name == name) c.env) [
  | none ↦ none
  | some v ↦ elim v.source [ value s ↦ some s | field_path s ↦ none ]
]

-- The number of the port that a probe names.
abbrev pub probe_port : Probe → Container → Option ℤ
probe_port probe c = elim (find (λ (p : Port). p.name == probe.port_name) c.ports) [
  | none ↦ none
  | some p ↦ some p.number
]

health_port-fits_int32 :
    (custom : String) (z : ℤ) → health_port custom ≡ some z → fits_int32 z ≡ true
unfolding health_port
health_port-fits_int32 custom z h = ground (arith, parse_int32-fits_int32 custom)

-- What is printed of a health port is read as that health port.
health_port-decimal_ℤ : (z : ℤ) → fits_int32 z ≡ true → health_port (decimal_ℤ z) ≡ some z
unfolding health_port
health_port-decimal_ℤ z room = ground (arith, parse_int32-decimal_ℤ z room, decimal_ℤ-nonempty z)

-- In the daemon set that `getDaemonsetSetDefinition` returns, the one container gets a `HEALTH_PORT`
-- that `HealthPort` reads as the port that both its probes name, and the handlers answer the paths of
-- both probes with 200 while `IsReady` still has its first value, which is false.
pub get_daemonset_definition-probes :
    (config : Config) (d : DaemonSet)
    → get_daemonset_definition config ≡ some d
    → (c : Container) × (text : String) × (d.containers ≡ c ∷ [])
      × (env_text "HEALTH_PORT" c ≡ some text)
      × (health_port text ≡ probe_port c.liveness c)
      × (health_port text ≡ probe_port c.readiness c)
      × (probe_response initial_health c.liveness.path ≡ some (200, "ok"))
      × (probe_response initial_health c.readiness.path ≡ some (200, "ok"))
unfolding get_daemonset_definition probe_response
get_daemonset_definition-probes config d h = elim (Option-cases (health_port config.health_port)) [
  | inl n ↦ absurd (ground arith)
  | inr (z, e) ↦
      let same = health_port-decimal_ℤ z (health_port-fits_int32 config.health_port z e) in
      (operator_container config z, decimal_ℤ z, ground arith, refl, same, same, refl, refl)
]
