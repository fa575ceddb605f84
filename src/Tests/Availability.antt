-- ===== src/Tests/Availability.antt =====
-- The theorems on the available pools, at two pools of three addresses.
use plenuslb.Base.{
  true, false, not, ◌&&◌, ◌||◌, List, [], ◌∷◌, String, ◌==◌, ◌≡◌, ◌≢◌, ◌⊎◌, ◌≤◌, refl, arith, count,
}
use plenuslb.Api.{IpAllocation, PersistentPool, allows, persistent_ip, success, pool_has_address}
use plenuslb.Pools.{
  with_addresses, without, used, refused, no_ip_available, use_ip, release_ip,
  ensure_address_is_not_available, named, warmup_ip_availability, get_pool_of_address, free_pool,
  check_if_ip_is_allocated,
}
use plenuslb.Pools.Process.{warmup_offers_used}
use plenuslb.Pools.Release.{BelongsTo, release_ip-offers, release_ip-use_ip, release_ip_duplicates}
use plenuslb.Pools.Spec.{IsValid, offers}
use plenuslb.Pools.Trace.{Call, take, withdraw, give_back, step, run, run-IsValid, no_double_use}
use plenuslb.Pools.Choice.{Among, IsFor, use_ip_exactly}
use plenuslb.Pools.Race.{ensure_reads, ensure_writes, use_ip_undone}
use plenuslb.Pools.Use.{use_ip-offers, ensure_address_is_not_available-offers}
use plenuslb.Tests.Fixtures.{
  pool_a, pool_b, pools, pools-IsValid, two_names, three_names, entry, allocation,
}

abbrev rest_a : PersistentPool
rest_a = record pool_a { addresses = "10.0.0.2" ∷ [] }

used_first : (use_ip "web" "10.0.0.1" pools).0 ≡ used rest_a
unfolding use_ip
used_first = refl

use_ip-offers_example :
    (allows [] "web" ≡ true)
    × (offers "a" "10.0.0.1" pools ≡ true)
    × ((n a : String)
        → offers n a (use_ip "web" "10.0.0.1" pools).1
          ≡ (offers n a pools && not ("a" == n && a == "10.0.0.1")))
use_ip-offers_example = use_ip-offers "web" "10.0.0.1" pools rest_a pools-IsValid used_first

use_ip_exactly_example :
    ((pool : PersistentPool) × Among pool pools
      × IsFor "web" pool
      × Among "10.0.0.9" pool.addresses
      × ((use_ip "web" "10.0.0.9" pools).0
          ≡ used (with_addresses pool (without "10.0.0.9" pool.addresses))))
    ⊎ (((pool : PersistentPool)
          → Among pool pools
          → IsFor "web" pool
          → Among "10.0.0.9" pool.addresses
          → ⊥)
        × (use_ip "web" "10.0.0.9" pools ≡ (refused no_ip_available, pools)))
use_ip_exactly_example = use_ip_exactly "web" "10.0.0.9" pools

abbrev rest_second : PersistentPool
rest_second = record pool_a { addresses = "10.0.0.1" ∷ [] }

-- What is written in the end has the second address, which was taken in between.
use_ip_undone_example :
    (offers "a" "10.0.0.2" (use_ip "web" "10.0.0.2" pools).1 ≡ false)
    × (offers "a" "10.0.0.2" (ensure_writes "a" rest_a (use_ip "web" "10.0.0.2" pools).1) ≡ true)
unfolding use_ip ensure_reads
use_ip_undone_example =
    use_ip_undone "a" "10.0.0.1" "web" "10.0.0.2" pools rest_a rest_second pools-IsValid refl refl
      refl refl refl

ensure_address_is_not_available-offers_example :
    offers "b" "10.1.0.1" (ensure_address_is_not_available "b" "10.1.0.1" pools)
    ≡ (offers "b" "10.1.0.1" pools && not ("b" == "b" && "10.1.0.1" == "10.1.0.1"))
ensure_address_is_not_available-offers_example =
    ensure_address_is_not_available-offers "b" "10.1.0.1" "b" "10.1.0.1" pools pools-IsValid

in_store : BelongsTo pools "a" "web" "10.0.0.1"
unfolding get_pool_of_address
in_store = (pool_a, refl, refl)

abbrev after_use : List PersistentPool
after_use = rest_a ∷ pool_b ∷ []

after_use-IsValid : IsValid after_use
after_use-IsValid = record {
  distinct = λ name. two_names "a" "b" name refl;
  inhabited = ground arith;
}

release_ip-offers_example :
    offers "a" "10.0.0.1" (release_ip pools "a" "web" "10.0.0.1" after_use)
    ≡ (offers "a" "10.0.0.1" after_use || ("a" == "a" && "10.0.0.1" == "10.0.0.1"))
release_ip-offers_example =
    release_ip-offers pools "a" "web" "10.0.0.1" "a" "10.0.0.1" after_use in_store after_use-IsValid

release_ip-use_ip_example :
    offers "a" "10.0.0.2" (release_ip pools "a" "web" "10.0.0.1" (use_ip "web" "10.0.0.1" pools).1)
    ≡ offers "a" "10.0.0.2" pools
release_ip-use_ip_example =
    release_ip-use_ip pools pools "web" "10.0.0.1" "a" "10.0.0.2" rest_a pools-IsValid used_first
      in_store

abbrev renamed : List PersistentPool
renamed = pool_a ∷ []

release_ip_duplicates_example :
    2 ≤ count (named "a") (release_ip pools "old" "web" "10.0.0.1" renamed)
unfolding get_pool_of_address
release_ip_duplicates_example =
    release_ip_duplicates pools "old" "web" "10.0.0.1" renamed pool_a refl refl refl

abbrev some_calls : List Call
some_calls = take "web" "10.1.0.1" ∷ withdraw "b" "10.1.0.1" ∷ give_back "a" "web" "10.0.0.2" ∷ []

in_store_too : BelongsTo pools "a" "web" "10.0.0.2"
unfolding get_pool_of_address
in_store_too = (pool_a, refl, refl)

run-IsValid_example : IsValid (run pools some_calls pools)
run-IsValid_example =
    run-IsValid pools some_calls pools (tt, (tt, (in_store_too, tt))) pools-IsValid

-- The address is also in a pool `c`, which serves the second request for it.
abbrev pool_c : PersistentPool
pool_c = record pool_a { name = "c" }

abbrev three : List PersistentPool
three = pool_a ∷ pool_b ∷ pool_c ∷ []

three-IsValid : IsValid three
three-IsValid = record {
  distinct = λ name. three_names "a" "b" "c" name refl refl refl;
  inhabited = ground arith;
}

no_double_use_example : (pool_c.name ≢ pool_a.name)
unfolding run step use_ip ensure_address_is_not_available release_ip get_pool_of_address
no_double_use_example =
    no_double_use pools three "web" "web" "10.0.0.1" some_calls rest_a
      (record pool_c { addresses = "10.0.0.2" ∷ [] }) three-IsValid (tt, (tt, (in_store_too, tt)))
      refl refl refl

abbrev holders : List IpAllocation
holders = allocation persistent_ip success (entry "a" "10.0.0.1" "n1" ∷ []) ∷ []

abbrev all_held : List IpAllocation
all_held = allocation persistent_ip success (entry "b" "10.1.0.1" "n1" ∷ []) ∷ []

warmup_offers_used_example :
    offers "b" "10.1.0.1" (warmup_ip_availability (pool_b ∷ []) all_held [])
    ≡ pool_has_address pool_b "10.1.0.1"
unfolding free_pool check_if_ip_is_allocated
warmup_offers_used_example =
    warmup_offers_used pool_b all_held "10.1.0.1" [] refl refl
      (record { distinct = λ name. ground arith; inhabited = refl })
