-- ===== src/Hetzner/Calls.antt =====
-- What the calls of pkg/clouds/hetzner/hetzner.go do to the cloud, and when they return.
use plenuslb.Base.{
  Bool, true, false, none, some, List, String, ◌≡◌, ◌⊎◌, inl, inr, ◌<◌, ◌≢◌, arith, eq_iff, [], ◌∷◌,
  nat_eq,
}
use plenuslb.Base.{Bool-cases, Option-cases, find, find_pass}
use plenuslb.Base.Int.{magnitude, parse_int}
use plenuslb.Errors.{addr_not_found, ok, err, Result-cases}
use plenuslb.Hetzner.{
  Server, FloatingIp, Response, Client, get_server_by_name, get_ip_by_address, conclude,
  is_ok_or_created, with_state, assign_ip_to_server, unassign_ip, delete_address, print_rate_limit,
}
use plenuslb.Hetzner.Rate.{print_rate_limit_total, print_rate_limit_panics}
use text.Mathlib.Text.{◌==◌}

-- A call that ended well has accepted the answer, and left the state that came with it.
concluded :
    {A E : Type 0} (accepted : Bool) (doing : List String) (res : Response) (a b : A) (e e' : E)
    → with_state (conclude accepted doing res a) e ≡ some (ok b, e')
    → (accepted ≡ true) × (e ≡ e')
concluded accepted doing res a b e e' h = elim (Bool-cases accepted) [
  | inl c ↦ elim (Option-cases (print_rate_limit res)) [
    | inl n ↦ absurd (ground arith)
    | inr (l, n) ↦ (c, ground arith)
  ]
  | inr c ↦ absurd (ground arith)
]

-- Where the answer's limit is not zero, the end of a call returns.
conclude_total :
    {A E : Type 0} (accepted : Bool) (doing : List String) (res : Response) (a : A) (e : E)
    → 0 < magnitude (parse_int res.limit).0
    → with_state (conclude accepted doing res a) e ≢ none
conclude_total accepted doing res a e h returns_none =
    let (l, n) = print_rate_limit_total res h in
    elim (Bool-cases accepted) [ inl c ↦ absurd (ground arith) | inr c ↦ absurd (ground arith) ]

module _ {E : Type 0} (client : Client E) where
  get_ip_by_address_ok :
      (address : String) (e : E) (ip : FloatingIp)
      → (get_ip_by_address client address e).0 ≡ ok ip
      → ip.ip ≡ address
  unfolding get_ip_by_address
  get_ip_by_address_ok address e ip h = elim (Result-cases (client.floating_ips e).0) [
    | inl (ips, r) ↦ elim (Option-cases (find (λ (i : FloatingIp). i.ip == address) ips)) [
      | inl n ↦ absurd (ground arith)
      | inr (i, found) ↦
          ground (arith, find_pass (λ (i : FloatingIp). i.ip == address) ips i, eq_iff i.ip address)
    ]
    | inr (x, r) ↦ absurd (ground arith)
  ]

  get_server_by_name_ok :
      (name : String) (e : E) (server : Server)
      → (get_server_by_name client name e).0 ≡ ok server
      → server.name ≡ name
  unfolding get_server_by_name
  get_server_by_name_ok name e server h = elim (Result-cases (client.servers name e).0) [
    | inl (servers, r) ↦ elim (Option-cases (find (λ (s : Server). s.name == name) servers)) [
      | inl n ↦ absurd (ground arith)
      | inr (s, found) ↦
          ground (arith, find_pass (λ (s : Server). s.name == name) servers s, eq_iff s.name name)
    ]
    | inr (x, r) ↦ absurd (ground arith)
  ]

  get_ip_by_address_state :
      (address : String) (e : E)
      → (get_ip_by_address client address e).1 ≡ (client.floating_ips e).1
  unfolding get_ip_by_address
  get_ip_by_address_state address e = elim (Result-cases (client.floating_ips e).0) [
    | inl (ips, r) ↦ elim (Option-cases (find (λ (i : FloatingIp). i.ip == address) ips)) [
      | inl n ↦ ground arith
      | inr (i, found) ↦ ground arith
    ]
    | inr (x, r) ↦ ground arith
  ]

  get_server_by_name_state :
      (name : String) (e : E) → (get_server_by_name client name e).1 ≡ (client.servers name e).1
  unfolding get_server_by_name
  get_server_by_name_state name e = elim (Result-cases (client.servers name e).0) [
    | inl (servers, r) ↦ elim (Option-cases (find (λ (s : Server). s.name == name) servers)) [
      | inl n ↦ ground arith
      | inr (s, found) ↦ ground arith
    ]
    | inr (x, r) ↦ ground arith
  ]

  -- If DeleteAddress returns no error, the cloud has deleted an address that prints as the one asked
  -- for, has answered with status 204, and has not changed since.
  pub delete_address_ok :
      (address : String) (e e' : E)
      → delete_address client address e ≡ some (ok tt, e')
      → (ip : FloatingIp) × (res : Response) × (ip.ip ≡ address)
        × (client.delete ip (client.floating_ips e).1 ≡ (ok res, e'))
        × (res.status_code ≡ 204)
  unfolding delete_address
  delete_address_ok address e e' h =
      let e1 = (get_ip_by_address client address e).1 in
      let at_list = get_ip_by_address_state address e in
      elim (Result-cases (get_ip_by_address client address e).0) [
        | inl (ip, r) ↦ elim (Result-cases (client.delete ip e1).0) [
          | inl (res, s) ↦
              let (accepted, same) =
                concluded (nat_eq res.status_code 204) ("deleting ip " ∷ address ∷ []) res tt tt
                  (client.delete ip e1).1 e' (ground arith) in
              (ip, res, get_ip_by_address_ok address e ip r, ground arith, ground arith)
          | inr (x, s) ↦ absurd (ground arith)
        ]
        | inr (x, r) ↦ absurd (ground arith)
      ]

  -- If AssignIPToServer returns no error, the cloud has assigned an address that prints as the one
  -- asked for to a server of the name asked for, and has answered with status 200 or 201.
  pub assign_ip_to_server_ok :
      (address server_name : String) (e e' : E)
      → assign_ip_to_server client address server_name e ≡ some (ok tt, e')
      → (ip : FloatingIp) × (server : Server) × (res : Response) × (ip.ip ≡ address)
        × (server.name ≡ server_name)
        × (client.assign ip server (client.servers server_name (client.floating_ips e).1).1
            ≡ (ok res, e'))
        × ((res.status_code ≡ 200) ⊎ (res.status_code ≡ 201))
  unfolding assign_ip_to_server
  assign_ip_to_server_ok address server_name e e' h =
      let e1 = (get_ip_by_address client address e).1 in
      let e2 = (get_server_by_name client server_name e1).1 in
      let at_list = get_ip_by_address_state address e in
      let at_servers = get_server_by_name_state server_name e1 in
      elim (Result-cases (get_ip_by_address client address e).0) [
        | inl (ip, r) ↦ elim (Result-cases (get_server_by_name client server_name e1).0) [
          | inl (server, q) ↦ elim (Result-cases (client.assign ip server e2).0) [
            | inl (res, s) ↦
                let (accepted, same) =
                  concluded (is_ok_or_created res)
                    ("assigning ip " ∷ address ∷ " to server " ∷ server_name ∷ []) res tt tt
                    (client.assign ip server e2).1 e' (ground arith) in
                (
                  ip,
                  server,
                  res,
                  get_ip_by_address_ok address e ip r,
                  get_server_by_name_ok server_name e1 server q,
                  ground arith,
                  ground arith,
                )
            | inr (x, s) ↦ absurd (ground arith)
          ]
          | inr (x, q) ↦ absurd (ground arith)
        ]
        | inr (x, r) ↦ absurd (ground arith)
      ]

  -- An address that no floating IP has is neither assigned, unassigned nor deleted: the calls return
  -- that it was not found, after the list of floating IPs and nothing else.
  pub unknown_address :
      (address server_name : String) (e e1 : E) (ips : List FloatingIp)
      → client.floating_ips e ≡ (ok ips, e1)
      → find (λ (i : FloatingIp). i.ip == address) ips ≡ none
      → (assign_ip_to_server client address server_name e ≡ some (err addr_not_found, e1))
        × (unassign_ip client address e ≡ some (err addr_not_found, e1))
        × (delete_address client address e ≡ some (err addr_not_found, e1))
  unfolding assign_ip_to_server unassign_ip delete_address get_ip_by_address
  unknown_address address server_name e e1 ips h n = (ground arith, ground arith, ground arith)

  -- If every answer of the cloud to a deletion has a limit other than zero, DeleteAddress returns.
  pub delete_address_total :
      (address : String) (e : E)
      → ((ip : FloatingIp) (e1 : E) (res : Response)
          → (client.delete ip e1).0 ≡ ok res
          → 0 < magnitude (parse_int res.limit).0)
      → delete_address client address e ≢ none
  unfolding delete_address
  delete_address_total address e limited returns_none =
      let e1 = (get_ip_by_address client address e).1 in
      elim (Result-cases (get_ip_by_address client address e).0) [
        | inl (ip, r) ↦ elim (Result-cases (client.delete ip e1).0) [
          | inl (res, s) ↦
              conclude_total (nat_eq res.status_code 204) ("deleting ip " ∷ address ∷ []) res tt
                (client.delete ip e1).1 (limited ip e1 res s) (ground arith)
          | inr (x, s) ↦ absurd (ground arith)
        ]
        | inr (x, r) ↦ absurd (ground arith)
      ]

  -- If the cloud has deleted the address, with status 204 and an answer whose reset is a number and
  -- whose limit is missing, zero or no number, DeleteAddress panics.
  pub delete_address_panics :
      (address : String) (e e1 e2 : E) (ip : FloatingIp) (res : Response)
      → get_ip_by_address client address e ≡ (ok ip, e1)
      → client.delete ip e1 ≡ (ok res, e2)
      → res.status_code ≡ 204
      → (parse_int res.reset).1 ≡ false
      → magnitude (parse_int res.limit).0 ≡ 0
      → delete_address client address e ≡ none
  unfolding delete_address
  delete_address_panics address e e1 e2 ip res found deleted no_content reset no_limit =
      ground (arith, print_rate_limit_panics res)
