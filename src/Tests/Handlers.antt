-- ===== src/Tests/Handlers.antt =====
-- The theorems on the handlers of events.
use plenuslb.Base.{
  false, ℕ, zero, suc, ◌⊎◌, Option, none, some, List, [], ◌∷◌, ◌==◌, ◌≡◌, ◌≢◌, refl, arith,
}
use plenuslb.Base.{if◌then◌else◌}
use plenuslb.Api.{
  IpAllocation, Service, persistent_ip, ephemeral_ip, success, pending, error,
  service_is_load_balancer, service_has_external_ips, pool_has_address,
}
use plenuslb.Errors.{Err, object_locked}
use plenuslb.Lock.{is_locked, try_lock, remove_from_lock, add_to_lock}
use plenuslb.Manager.{delete_allocation_by_name}
use plenuslb.Pools.{
  free_pool, check_if_ip_is_allocated, process_ip_availability, add_or_replace_availability_pool,
  search_availability_pool_by_name,
}
use plenuslb.Pools.Process.{free}
use plenuslb.Pools.Spec.{offers}
use plenuslb.Reconciler.{expected_allocation_type}
use plenuslb.Services.{find_service}
use plenuslb.Tests.Fixtures.{
  Outside, server, pools, pools-IsValid, pool_a, pool_b, entry, allocation, service, world, outside,
}
use plenuslb.Watcher.{
  acquire, on_pending, find_allocation_by_name, error_body, pending_body,
  process_allocation_status_pending,
}
use plenuslb.Watcher.Events.{
  persistent_pool_removed, persistent_pool_modified, deallocate_deleted_addresses, remove_entries,
}
use plenuslb.Watcher.Nodes.{persistent_pool_removed-offers, persistent_pool_modified-offers}
use plenuslb.Watcher.Status.{
  of_status, waited, StaysLocked, work, work_refused, work_releases, error_body_panics,
}
use plenuslb.World.{World, Api}

abbrev waiting : IpAllocation
waiting = allocation persistent_ip pending (entry "a" "10.0.0.1" "n1" ∷ [])

abbrev no_error : Option Err
no_error = none

-- Another handler holds the allocation.
abbrev busy : World Outside
busy = record (world pools (waiting ∷ []) []) { locks = ("web/shop", "other") ∷ [] }

busy_locked : is_locked waiting busy.locks ≢ none
unfolding is_locked
busy_locked h = ground arith

-- The holder keeps the allocation, while others touch the services.
abbrev busy_server : Api Outside
busy_server = record server { others = λ w. record w { services_synced = false } }

abbrev busy_later : World Outside
busy_later = record busy { services_synced = false }

later_stays : (n : ℕ) → StaysLocked busy_server waiting n busy_later
later_stays zero = busy_locked
later_stays (suc n) = (busy_locked, later_stays n)

busy_stays : StaysLocked busy_server waiting 9 busy
busy_stays = (busy_locked, later_stays 8)

work_refused_example :
    work busy_server waiting (of_status on_pending) busy ≡ some (some object_locked, busy_later)
work_refused_example =
    work_refused busy_server waiting (of_status on_pending) busy (λ h. ground arith) busy_stays

-- The stored allocation is in order: nothing is left to do for an event that said pending.
abbrev done : IpAllocation
done = record waiting { state = success }

abbrev quiet : World Outside
quiet = world pools (done ∷ []) []

-- The holder of the allocation gives it back while the handler sleeps.
abbrev patient_server : Api Outside
patient_server = record server { others = λ w. record w { locks = [] } }

abbrev held : World Outside
held = record quiet { locks = ("web/shop", "other") ∷ [] }

work_releases_example :
    (is_locked waiting quiet.locks ≡ none)
    ⊎ (StaysLocked patient_server waiting 9 held
        × (no_error ≡ some object_locked)
        × (quiet ≡ waited patient_server waiting 9 held))
unfolding work process_allocation_status_pending pending_body find_allocation_by_name is_locked
    try_lock remove_from_lock add_to_lock acquire
work_releases_example =
    work_releases patient_server waiting (of_status on_pending) held quiet no_error
      (λ h. ground arith) refl

-- An allocation in error of a service that now lists external addresses.
abbrev broken : IpAllocation
broken = allocation ephemeral_ip error (entry "cloud" "1.1.1.1" "n1" ∷ [])

abbrev listed : Service
listed = service ("10.0.0.1" ∷ []) []

abbrev in_error : World Outside
in_error = world pools (broken ∷ []) (listed ∷ [])

error_body_panics_example : error_body server broken in_error ≡ none
unfolding find_allocation_by_name find_service service_is_load_balancer expected_allocation_type
    service_has_external_ips delete_allocation_by_name
error_body_panics_example =
    error_body_panics server broken broken listed in_error in_error in_error
      (record in_error { ext = outside [] (listed ∷ []) }) refl refl refl refl refl refl

abbrev stored : List IpAllocation
stored = done ∷ []

persistent_pool_removed-offers_example :
    offers "b" "10.1.0.1" quiet.avail ≡ offers "b" "10.1.0.1" pools
unfolding persistent_pool_removed deallocate_deleted_addresses remove_entries
persistent_pool_removed-offers_example =
    persistent_pool_removed-offers server pool_b "b" "10.1.0.1" quiet quiet refl

abbrev modified : World Outside
modified = record quiet { avail = record pool_a { addresses = "10.0.0.2" ∷ [] } ∷ pool_b ∷ [] }

persistent_pool_modified-offers_example :
    offers "a" "10.0.0.1" modified.avail
    ≡ (if "a" == "a" then free pool_a stored "10.0.0.1" else offers "a" "10.0.0.1" pools)
unfolding persistent_pool_modified process_ip_availability add_or_replace_availability_pool
    free_pool check_if_ip_is_allocated remove_entries pool_has_address
    search_availability_pool_by_name
persistent_pool_modified-offers_example =
    persistent_pool_modified-offers server pool_a "a" "10.0.0.1" quiet modified pools-IsValid refl
      refl
