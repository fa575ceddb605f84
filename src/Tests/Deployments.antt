-- ===== src/Tests/Deployments.antt =====
-- The theorems on the deployment of the operators, with a cluster that counts its calls.
use plenuslb.Base.{true, false, String, Option, none, some, List, [], ◌∷◌, ◌≡◌, ◌≢◌, ℕ, ◌+◌, refl}
use plenuslb.Api.{PersistentPool}
use plenuslb.Deployment.{
  no_channel, open_channel, Cluster, Daemon, watch, deployed_first, deploy_or_die, pool_modified,
  at_least_one_pool_has_host_network_option,
}
use plenuslb.Deployment.Required.{pool_modified_panics}
use plenuslb.Errors.{Err, ok}
use plenuslb.Tests.Fixtures.{pool_a, Outside, world}
use plenuslb.World.{World}

abbrev counting : Cluster String ℕ
counting = record {
  create = λ n. some (ok "daemonset", n + 1);
  wait_for_resources = λ daemonset n. (none, n);
  delete = λ n. (none, n + 1);
}

abbrev absent : Daemon ℕ
absent = record {
  deployed = false;
  stop_watch = no_channel;
  channels = 0;
  informers = [];
  cluster = 0;
}

abbrev running : Daemon ℕ
running = record {
  deployed = true;
  stop_watch = open_channel 0;
  channels = 1;
  informers = 0 ∷ [];
  cluster = 1;
}

abbrev on_host : PersistentPool
on_host = record pool_a {
  options = some (record {
    host_network_interface =
        some (record { add_addresses_to_interface = true; interface_name = "eth0" });
  });
}

abbrev no_error : Option Err
no_error = none

abbrev before : World Outside
before = record (world [] [] []) { persistent_store = on_host ∷ [] }

abbrev after : World Outside
after = record before { avail = on_host ∷ [] }

abbrev no_pool : List PersistentPool
no_pool = []

pool_modified_panics_example :
    (pool_modified counting [] no_pool (deployed_first 1 absent) ≡ none)
    × (pool_modified counting [] no_pool running ≢ none)
unfolding deploy_or_die deployed_first watch at_least_one_pool_has_host_network_option
pool_modified_panics_example =
    pool_modified_panics counting [] no_pool absent running 2 refl refl refl refl refl
