-- ===== src/Crd/Deploy.antt =====
-- The deployment of a definition: pkg/controller/CRDDeployer/deployer.go.
--
-- `Server` has the calls of the API server, over a state `K`; the version's minor number is a text.
use plenuslb.Base.{Bool, true, not, Option, none, some, String, ◌≡◌, ◌⊎◌, inl, inr, arith}
use plenuslb.Base.{if◌then◌else◌, any}
use plenuslb.Base.Int.{ltb_ℤ, parse_int}
use plenuslb.Crd.{Definition}
use plenuslb.Errors.{Err, errorf, Result, ok, err, Result-cases}
use plenuslb.Wait
use plenuslb.Wait.{DeployedCrd, ends_wait, for_crd}
use plenuslb.Wait.Ready.{EndsWithDone, for_crd_ready}

pub record Server (K : Type 0) : Type 0 where
  pub wait : Wait.Cluster K
  pub server_version : K → Result String × K
  pub get : String → K → Result DeployedCrd × K
  pub create : Definition → K → Result DeployedCrd × K
  pub update : Definition → K → Result DeployedCrd × K
  pub is_not_found : Err → Bool

-- The error of `Atoi`, whose text is the library's.
abbrev pub atoi_error : String → Err
atoi_error s = errorf s

module _ {K : Type 0} (server : Server K) where
  -- The end of `createCRDV1` and of `updateCRDV1`: the wait of two minutes.
  abbrev pub wait_for : Result DeployedCrd × K → Option Err × K
  wait_for (r, k) = elim r [
    | err e ↦ (some e, k)
    | ok deployed ↦ for_crd server.wait 120 deployed k
  ]

  -- `createCRDV1`
  unfoldable pub create_crd : Definition → K → Option Err × K
  create_crd crd k = wait_for (server.create crd k)

  -- `updateCRDV1`
  unfoldable pub update_crd : DeployedCrd → Definition → K → Option Err × K
  update_crd existing crd k =
      wait_for (server.update (record crd { resource_version = existing.resource_version }) k)

  -- `CreateOrUpdateCRD`
  unfoldable pub create_or_update_crd : String → Definition → K → Option Err × K
  create_or_update_crd name crd k =
      let (version, k1) = server.server_version k in
      let (existing, k2) = server.get name k1 in
      elim version [
        | err e ↦ (some e, k1)
        | ok minor ↦ elim existing [
          | ok found ↦ update_crd found crd k2
          | err e ↦
              if not (server.is_not_found e)
              then (some e, k2)
              else (if (parse_int minor).1
                  then (some (atoi_error minor), k2)
                  else (if ltb_ℤ (parse_int minor).0 16
                      then (some (errorf "Cluster version ot supported"), k2)
                      else create_crd crd k2))
        ]
      ]

  -- A wait that ends well waited for an object that the server had given back.
  wait_for_ready :
      (r : Result DeployedCrd × K) (k' : K)
      → EndsWithDone server.wait
      → wait_for r ≡ (none, k')
      → (written : DeployedCrd) × (r.0 ≡ ok written)
        × (k0 : K) × (found : DeployedCrd) × (server.wait.get_crd written.name k0 ≡ (ok found, k'))
        × (any ends_wait found.conditions ≡ true)
  wait_for_ready r k' polled h = elim (Result-cases r.0) [
    | inl (written, e) ↦
        let (k0, found, got, ready) =
          for_crd_ready server.wait 120 written r.1 k' polled (ground arith) in
        (written, e, k0, found, got, ready)
    | inr (x, e) ↦ absurd (ground arith)
  ]

  -- If wait.Poll returns no error only after its condition held, and CreateOrUpdateCRD returns no error,
  -- then the definition was written, with the resource version of an object that was there or as
  -- a new one, and an object of the name that the server gave back for it was then found
  -- established, or with its names refused.
  pub create_or_update_crd_ready :
      (name : String) (crd : Definition) (k k' : K)
      → EndsWithDone server.wait
      → create_or_update_crd name crd k ≡ (none, k')
      → (written : DeployedCrd) × (k2 : K) × (((server.create crd k2).0 ≡ ok written)
          ⊎ ((existing : DeployedCrd) × ((server.update
                  (record crd { resource_version = existing.resource_version })
                  k2).0
                ≡ ok written)))
        × (k0 : K) × (found : DeployedCrd) × (server.wait.get_crd written.name k0 ≡ (ok found, k'))
        × (any ends_wait found.conditions ≡ true)
  unfolding create_or_update_crd create_crd update_crd
  create_or_update_crd_ready name crd k k' polled h =
      let k1 = (server.server_version k).1 in
      let k2 = (server.get name k1).1 in
      elim (Result-cases (server.server_version k).0) [
        | inl (minor, v) ↦ elim (Result-cases (server.get name k1).0) [
          | inl (existing, g) ↦
              let new = record crd { resource_version = existing.resource_version } in
              let (written, e, k0, found, got, ready) =
                wait_for_ready (server.update new k2) k' polled (ground arith) in
              (written, k2, inr (existing, e), k0, found, got, ready)
          | inr (x, g) ↦
              let (written, e, k0, found, got, ready) =
                wait_for_ready (server.create crd k2) k' polled (ground arith) in
              (written, k2, inl e, k0, found, got, ready)
        ]
        | inr (x, v) ↦ absurd (ground arith)
      ]
