-- ===== src/Tests/Resources.antt =====
-- The theorem on the schema of allocations, with an allocation of one entry.
use plenuslb.Base.{◌&&◌, ◌≡◌, [], ◌∷◌, all}
use plenuslb.Api.{IpAllocation, persistent_ip, pending}
use plenuslb.Crd.Json.{
  fits, is_known_type, is_known_status, encode_allocation, has_pool, fits-encode_allocation,
}
use plenuslb.Crd.Schemas.{allocation_schema}
use plenuslb.Tests.Fixtures.{allocation, entry}

abbrev shop : IpAllocation
shop = allocation persistent_ip pending (entry "a" "10.0.0.1" "n1" ∷ [])

fits-encode_allocation_example :
    fits allocation_schema (encode_allocation shop)
    ≡ (is_known_type shop.ip_type && is_known_status shop.state && all has_pool shop.allocations)
fits-encode_allocation_example = fits-encode_allocation shop
