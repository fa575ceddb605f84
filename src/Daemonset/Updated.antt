-- ===== src/Daemonset/Updated.antt =====
-- What pkg/controller/operator/daemonset.go makes of the daemon set that it finds.
use mathlib.Core.Option.{some-injective}
use plenuslb.Base.{
  sym, Bool, true, ◌&&◌, Option, none, some, String, ◌==◌, ◌≡◌, refl, inl, inr, arith, all, any,
  eq_refl,
}
use plenuslb.Base.{Option-cases}
use plenuslb.Base.Int.{ℤ}
use plenuslb.Daemonset.{
  Config, Container, DaemonSet, health_port, definition, get_daemonset_definition,
  check_if_operator_is_updated, merge_operators_definitions, operator_name,
}
use plenuslb.Daemonset.Calls.{Kube}
use plenuslb.Errors.{Err, ok, err}
use plenuslb.Wait.{Labels}

definition_updated :
    (config : Config) (port : ℤ) (version : String)
    → check_if_operator_is_updated config
        (record (definition config port) { resource_version = version })
      ≡ some true
unfolding check_if_operator_is_updated
definition_updated config port version = rw (eq_refl config.image) refl

-- If the health port can be read, the definition that an update merges into an old daemon set is one
-- that counts as updated, and it has the resource version of the old one.
pub check_if_operator_is_updated-merge_operators_definitions :
    (config : Config) (old new : DaemonSet)
    → merge_operators_definitions config old ≡ some new
    → (check_if_operator_is_updated config new ≡ some true)
      × (new.resource_version ≡ old.resource_version)
unfolding merge_operators_definitions get_daemonset_definition check_if_operator_is_updated
check_if_operator_is_updated-merge_operators_definitions config old new h =
    elim (Option-cases (health_port config.health_port)) [
      | inl n ↦ absurd (ground arith)
      | inr (port, p) ↦
          let updated = definition_updated config port old.resource_version in
          let same : record (definition config port) { resource_version = old.resource_version }
              ≡ new =
            some-injective _ _
              (rw (merge_operators_definitions, get_daemonset_definition, p) at h) in
          rw (sym same) (updated, refl)
    ]

abbrev pub has_label : Labels → String × String → Bool
has_label labels l = any (λ (m : String × String). (m.0 == l.0) && (m.1 == l.1)) labels

abbrev pub probes_a_port : Container → Bool
probes_a_port c =
    any (λ port. port.name == c.liveness.port_name) c.ports
    && any (λ port. port.name == c.readiness.port_name) c.ports

-- The selector takes the pods of the template, and each probe goes to a port of its container.
abbrev is_consistent : DaemonSet → Bool
is_consistent d = all (has_label d.template_labels) d.match_labels && all probes_a_port d.containers

-- Whatever the environment says, the daemon set that is built selects the pods of its own template, and
-- the probes of its containers go to ports that the containers have.
get_daemonset_definition-is_consistent :
    (config : Config) (d : DaemonSet)
    → get_daemonset_definition config ≡ some d
    → is_consistent d ≡ true
unfolding get_daemonset_definition
get_daemonset_definition-is_consistent config d h =
    elim (Option-cases (health_port config.health_port)) [
      | inl n ↦ absurd (ground arith)
      | inr (port, p) ↦
          let consistent : is_consistent (definition config port) ≡ true = refl in ground arith
    ]

-- What is relied on of the API server, of which `stored` says what it holds under the operators' name:
-- a look finds what is held, an update without an error replaces it, but for the version that the
-- server gives, and a retry without an error ended with an attempt without an error.
pub record KeepsObject {K : Type 0} (kube : Kube K) (stored : K → Option DaemonSet) : Type 0 where
  pub finds :
      (k k' : K) (d : DaemonSet) → kube.get operator_name k ≡ (ok d, k') → stored k' ≡ some d
  pub misses :
      (k k' : K) (e : Err)
      → kube.get operator_name k ≡ (err e, k')
      → kube.is_not_found e ≡ true
      → stored k' ≡ none
  pub replaces :
      (new : DaemonSet) (k k' : K)
      → kube.update new k ≡ (none, k')
      → (v : String) × (stored k' ≡ some (record new { resource_version = v }))
  pub last_attempt :
      (attempt : K → Option (Option Err × K)) (k k' : K)
      → kube.retry_on_conflict attempt k ≡ some (none, k')
      → (k0 : K) × (attempt k0 ≡ some (none, k'))
