-- ===== src/Collector/Pods.antt =====
-- `getNodePods` of collector/collector.go.
use egressd.Prelude.{
  ◌≡◌, refl, Bool, not, ◌&&◌, List, [], ◌∷◌, arith, String, ◌==◌, nat_comparable, string_comparable,
  keep, contains,
}
use egressd.Collector.Collect.{Pod, get_node_pods}

-- A pod with an address of its own, outside the excluded namespaces.
pub is_tracked : List String → Pod → Bool
is_tracked exclude_ns_map pod =
    not (pod.pod_ip == "") && (not pod.host_network && not (contains pod.namespace exclude_ns_map))

-- The collector follows the pods that have an address, are not on the host's network and are in no
-- excluded namespace, all of them and in the watcher's order.
get_node_pods-keep :
    (ns : List String) (pods : List Pod) → get_node_pods ns pods ≡ keep (is_tracked ns) pods
unfolding get_node_pods is_tracked
get_node_pods-keep ns [] = refl
get_node_pods-keep ns (pod ∷ pods) = ground (arith, get_node_pods-keep ns pods)
