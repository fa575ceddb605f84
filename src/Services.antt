-- ===== src/Services.antt =====
-- The controller's access to services: `FindService` of pkg/controller/servicewatcher and
-- pkg/controller/servicesupdater/updater.go.
use plenuslb.Base.{◌&&◌, Option, none, some, List, [], String, ◌==◌, find}
use plenuslb.Base.{if◌then◌else◌}
use plenuslb.Api.{Service}
use plenuslb.Errors.{Err, Result, ok, err, service_not_found}
use plenuslb.World.{Api, M, pure, ◌>>=◌, call}

module _ {E : Type 0} (api : Api E) where
  -- The search in the informer's store.
  abbrev pub stored_service : Option Service → Result Service
  stored_service none = err service_not_found
  stored_service (some s) = ok s

  -- `FindService`: in the informer's store once it has synced, on the API server until then.
  unfoldable pub find_service : String → String → M E (Result Service)
  find_service namespace name w =
      if w.services_synced
      then some (
        stored_service (find (λ s. s.namespace == namespace && s.name == name) w.service_store),
        w,
      )
      else ((do
        found ← call (api.get_service namespace name)
        elim found [
          | ok s ↦ pure (ok s)
          | err e ↦ if api.is_not_found e then pure (err service_not_found) else pure (err e)
        ])
          w)

  -- `UpdateServiceIngressWithIps`
  unfoldable pub update_service_ingress_with_ips : String → String → List String → M E (Option Err)
  update_service_ingress_with_ips namespace name ips = do
    found ← call (api.get_service namespace name)
    elim found [
      | err e ↦ pure (some e)
      | ok s ↦ call (api.update_service_status (record s { ingress = ips }))
    ]

  -- `RemoveServiceIngressIPs`
  unfoldable pub remove_service_ingress_ips : String → String → M E (Option Err)
  remove_service_ingress_ips namespace name = do
    found ← call (api.get_service namespace name)
    elim found [
      | err e ↦ pure (some e)
      | ok s ↦ call (api.update_service_status (record s { ingress = [] }))
    ]
