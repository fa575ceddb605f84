-- ===== src/Tests/Systems.antt =====
-- The theorem on the informers, the channels and the listeners together.
use plenuslb.Base.{true, false, Option, none, some, [], List, ◌∷◌, ◌≡◌, refl}
use plenuslb.Api.{is_pod_ready, persistent_pool_has_host_network_option, pool_has_address}
use plenuslb.Daemonset.{
  DaemonSet, health_port, check_config, get_daemonset_definition, check_if_operator_is_updated,
  merge_operators_definitions,
}
use plenuslb.Daemonset.Calls.{
  cluster, update_attempt, update_operator, check_if_operator_is_deployed, warmup_pods,
  warmup_controller_nodes_cache, init, check_if_operator_is_still_required,
}
use plenuslb.Daemonset.Nodes.{pod_deleted, events_of, loses_node, handle_pod}
use plenuslb.Deployment.{
  Daemon, closed_channel, watch, delete, deploy_or_delete, deploy_or_die, pool_modified,
  at_least_one_pool_has_host_network_option,
}
use plenuslb.Deployment.Required.{is_watched}
use plenuslb.Events
use plenuslb.Events.{
  Bus, register_on_persistent_pool_modified, register_on_persistent_pool_deleted,
  register_on_ephemeral_pool_modified, register_on_ephemeral_pool_deleted,
  register_on_operator_node_lost, register_on_new_operator_node,
}
use plenuslb.Pools.{
  add_pool, process_ip_availability, add_or_replace_availability_pool, free_pool,
  check_if_ip_is_allocated, search_availability_pool_by_name,
}
use plenuslb.Tests.Cluster.{kube, config, current, outdated, started, pod_a}
use plenuslb.Tests.Fixtures.{pool_a, Outside, server, world}
use plenuslb.Wait.{get_pods_from_daemonset}
use plenuslb.Watcher.Events.{persistent_pool_modified, remove_entries}
use plenuslb.Wiring.{watcher_init, pools_init, Controller}
use plenuslb.Wiring.Pools as Wired
use plenuslb.Wiring.System as System
use plenuslb.Wiring.System.{
  Action, pod_changed, pool_added, hears_modified, act, act_all, add_persistent_pool, send_all,
}
use plenuslb.Wiring.Watched.{system_watched}
use plenuslb.World.{World}

-- The last pod is lost, a pool is added and changed, and the listener hears of the change; then no
-- pool of the store wants the operators.
abbrev actions : List Action
actions =
    pod_changed (pod_deleted pod_a)
    ∷ pool_added pool_a
    ∷ System.pool_modified pool_a
    ∷ hears_modified
    ∷ []

abbrev no_set : Option DaemonSet
no_set = none

abbrev stopped : Daemon (Option DaemonSet)
stopped = record {
  deployed = false;
  stop_watch = closed_channel 0;
  channels = 1;
  informers = [];
  cluster = no_set;
}

abbrev before : World Outside
before = world [] [] []

abbrev after : World Outside
after = record before { avail = pool_a ∷ [] }

abbrev bus_before : Bus (Controller Outside (Option DaemonSet))
bus_before = Wired.started server (cluster kube config)

abbrev bus_after : Bus (Controller Outside (Option DaemonSet))
bus_after = record bus_before {
  lost_nodes = record (bus_before.lost_nodes) { queue = "node-a" ∷ [] };
}

system_watched_example : is_watched stopped ≡ true
unfolding init check_config check_if_operator_is_deployed check_if_operator_is_updated
    update_operator update_attempt merge_operators_definitions get_daemonset_definition health_port
    warmup_controller_nodes_cache warmup_pods get_pods_from_daemonset watch handle_pod events_of
    loses_node check_if_operator_is_still_required pool_modified deploy_or_delete delete
    at_least_one_pool_has_host_network_option is_pod_ready act add_persistent_pool send_all
    Events.persistent_pool_modified Events.operator_node_lost add_pool deploy_or_die
    persistent_pool_has_host_network_option persistent_pool_modified process_ip_availability
    add_or_replace_availability_pool free_pool check_if_ip_is_allocated remove_entries
    pool_has_address search_availability_pool_by_name pools_init watcher_init
    register_on_persistent_pool_modified register_on_persistent_pool_deleted
    register_on_ephemeral_pool_modified register_on_ephemeral_pool_deleted
    register_on_operator_node_lost register_on_new_operator_node
system_watched_example =
    system_watched server kube config actions (some outdated) before after (started (some current))
      stopped bus_after refl refl
