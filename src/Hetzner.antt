-- ===== src/Hetzner.antt =====
-- The cloud API of Hetzner: pkg/clouds/hetzner/hetzner.go, and its choice in pkg/clouds/clouds.go.
--
-- The client library's calls are the parameter `Client`, over a state `E` of the cloud: each takes the
-- state and returns it changed. `none` is a panic. The time limit of a call is the client's affair.
pub mod Rate
pub mod Calls
use plenuslb.Base.{
  Bool, not, ◌&&◌, Option, none, some, List, ◌∷◌, [], ℕ, String, find, if◌then◌else◌, nat_eq,
}
use plenuslb.Api.{CloudIntegrations}
use plenuslb.Base.Int.{ℤ, times, quotient, ltb_ℤ, parse_int, decimal}
use plenuslb.Base.Text.{sprint}
use plenuslb.Errors.{Err, addr_not_found, server_not_found, errorf, error_text, Result, ok, err}
use text.Mathlib.Text.{◌==◌}

pub record Server : Type 0 where
  pub id : ℕ
  pub name : String

-- `ip` is the text that `IP.String()` prints.
pub record FloatingIp : Type 0 where
  pub id : ℕ
  pub ip : String

-- `body` is what reading it to its end gives.
pub record Response : Type 0 where
  pub status_code : ℕ
  pub body : Result String
  pub limit : String
  pub remaining : String
  pub reset : String

-- The options of a new address; `kind` is the library's constant for IPv4.
pub record CreateOpts : Type 0 where
  pub kind : String
  pub server : Server
  pub labels : List (String × String)
  pub name : String

pub record Client (E : Type 0) : Type 0 where
  pub ipv4 : String
  pub servers : String → E → Result (List Server) × E
  pub floating_ips : E → Result (List FloatingIp) × E
  pub assign : FloatingIp → Server → E → Result Response × E
  pub unassign : FloatingIp → E → Result Response × E
  pub create : CreateOpts → E → Result (String × Response) × E
  pub delete : FloatingIp → E → Result Response × E

pub data Level : Type 0 where
  error_level warning_level info_level : Level

abbrev pub level : ℤ → Level
level percentage =
    if ltb_ℤ percentage 20
    then error_level
    else (if ltb_ℤ percentage 50 then warning_level else info_level)

-- `printRateLimit`: the level at which it logs its message, if it gets there.
unfoldable pub print_rate_limit : Response → Option (Option Level)
print_rate_limit res =
    let int_limit = (parse_int res.limit).0 in
    let int_remaining = (parse_int res.limit).0 in
    if (parse_int res.reset).1
    then some none
    else (elim (quotient (times int_remaining 100) int_limit) [
      | none ↦ none
      | some percentage ↦ some (some (level percentage))
    ])

-- The error of a status that was not asked for, after what was being done.
abbrev pub refusal : List String → Response → Err
refusal doing res = elim res.body [
  | err x ↦ errorf (
      sprint (
        "Something went wrong "
        ∷ sprint doing
        ∷ ", status code: "
        ∷ decimal res.status_code
        ∷ ", cannot decode body "
        ∷ error_text x
        ∷ []))
  | ok text ↦ errorf (
      sprint (
        "Something went wrong "
        ∷ sprint doing
        ∷ ", status code: "
        ∷ decimal res.status_code
        ∷ ", response body is: "
        ∷ text
        ∷ []))
]

-- The end of a call: an answer with another status is an error, and the rate limit is logged.
abbrev pub conclude {ℓ} : {A : Type ℓ} → Bool → List String → Response → A → Option (Result A)
conclude accepted doing res a =
    if not accepted
    then some (err (refusal doing res))
    else (elim (print_rate_limit res) [ none ↦ none | some logged ↦ some (ok a) ])

abbrev pub is_ok_or_created : Response → Bool
is_ok_or_created res = not (not (nat_eq res.status_code 200) && not (nat_eq res.status_code 201))

-- The answer with the state.
abbrev pub with_state {ℓ κ} : {A : Type ℓ} {E : Type κ} → Option A → E → Option (A × E)
with_state none e = none
with_state (some a) e = some (a, e)

-- `GetCloudAPI` of pkg/clouds/clouds.go: the token of the client, where the pool has the options of
-- this cloud.
unfoldable pub get_cloud_api : CloudIntegrations → Option String
get_cloud_api options = elim options.hetzner [ none ↦ none | some h ↦ some h.token ]

module _ {E : Type 0} (client : Client E) where
  -- `getServerByName`
  unfoldable pub get_server_by_name : String → E → Result Server × E
  get_server_by_name name e =
      let (r, e') = client.servers name e in
      elim r [
        | err x ↦ (err x, e')
        | ok servers ↦ elim (find (λ (s : Server). s.name == name) servers) [
          | none ↦ (err server_not_found, e')
          | some server ↦ (ok server, e')
        ]
      ]

  -- `getIPByAddress`
  unfoldable pub get_ip_by_address : String → E → Result FloatingIp × E
  get_ip_by_address address e =
      let (r, e') = client.floating_ips e in
      elim r [
        | err x ↦ (err x, e')
        | ok ips ↦ elim (find (λ (i : FloatingIp). i.ip == address) ips) [
          | none ↦ (err addr_not_found, e')
          | some ip ↦ (ok ip, e')
        ]
      ]

  -- `AssignIPToServer`
  unfoldable pub assign_ip_to_server : String → String → E → Option (Result (Unit {0}) × E)
  assign_ip_to_server address server_name e =
      let (r, e1) = get_ip_by_address address e in
      elim r [
        | err x ↦ some (err x, e1)
        | ok ip ↦
            let (r', e2) = get_server_by_name server_name e1 in
            elim r' [
              | err x ↦ some (err x, e2)
              | ok server ↦
                  let (answer, e3) = client.assign ip server e2 in
                  elim answer [
                    | err x ↦ some (err x, e3)
                    | ok res ↦
                        with_state
                          (conclude (is_ok_or_created res)
                            ("assigning ip " ∷ address ∷ " to server " ∷ server_name ∷ []) res tt)
                          e3
                  ]
            ]
      ]

  -- `UnassignIP`
  unfoldable pub unassign_ip : String → E → Option (Result (Unit {0}) × E)
  unassign_ip address e =
      let (r, e1) = get_ip_by_address address e in
      elim r [
        | err x ↦ some (err x, e1)
        | ok ip ↦
            let (answer, e2) = client.unassign ip e1 in
            elim answer [
              | err x ↦ some (err x, e2)
              | ok res ↦
                  with_state
                    (conclude (is_ok_or_created res) ("unassigning ip " ∷ address ∷ []) res tt) e2
            ]
      ]

  -- `GetAndAssignNewAddress`
  unfoldable pub get_and_assign_new_address : String → String → E → Option (Result String × E)
  get_and_assign_new_address server_name ip_name e =
      let (r, e1) = get_server_by_name server_name e in
      elim r [
        | err x ↦ some (err x, e1)
        | ok server ↦
            let opts : CreateOpts = record {
              kind = client.ipv4;
              server = server;
              labels = ("managed-by", "plenuslb") ∷ [];
              name = ip_name;
            } in
            let (answer, e2) = client.create opts e1 in
            elim answer [
              | err x ↦ some (err x, e2)
              | ok created ↦
                  with_state
                    (conclude (is_ok_or_created created.1) ("getting new ip" ∷ []) created.1
                      created.0)
                    e2
            ]
      ]

  -- `DeleteAddress`
  unfoldable pub delete_address : String → E → Option (Result (Unit {0}) × E)
  delete_address address e =
      let (r, e1) = get_ip_by_address address e in
      elim r [
        | err x ↦ some (err x, e1)
        | ok ip ↦
            let (answer, e2) = client.delete ip e1 in
            elim answer [
              | err x ↦ some (err x, e2)
              | ok res ↦
                  with_state
                    (conclude (nat_eq res.status_code 204) ("deleting ip " ∷ address ∷ []) res tt)
                    e2
            ]
      ]
