-- ===== src/Pipeline/Watcher.antt =====
-- `kubeWatcher` of cmd/exporter/main.go: the exporter over the caches of kube/podbyipcache.go and
-- kube/watcher.go.
use egressd.Prelude.{
  ◌≡◌, ◌⊎◌, Option, List, [], ◌∷◌, String, nat_comparable, string_comparable, keep,
}
use egressd.Kube.{Node, Object, other_error, Result, err}
use egressd.Kube.ByIp.{Indexer, PodByIpCache, get}
use egressd.Kube.Nodes.{
  node_name_index, has_key, Indexes, Got, got, type_assertion_panic, get_by_name, get_by_ip,
}
use egressd.Exporter.{KubeWatcher}
use egressd.Exporter.Build.{get_node_zone}

-- The panic of a `Get` of a node needs a store that holds something else, and there is none.
unfoldable pub node_result : Got → Result Node
node_result (got r) = r
node_result type_assertion_panic = err other_error

abbrev pub kube_watcher :
    (ix : Indexer) (by_name by_ip : String → Option (List Object)) → KubeWatcher
kube_watcher ix by_name by_ip = record {
  State = PodByIpCache ix.Store;
  get_pod_by_ip = λ ip c. get ix ip c;
  get_node_by_name = λ name c. node_result (get_by_name by_name name);
  get_node_by_ip = λ ip c. node_result (get_by_ip by_ip ip);
}

module _ (ix : Indexer) (by_name by_ip : String → Option (List Object)) (nodes : List Node)
    (lists : Indexes node_name_index nodes by_name) where
  open ix use {Store}

  -- The zone of a metric against the nodes that have the name.
  abbrev pub SourceZone : String → String → Type 0
  SourceZone name zone =
      let matching = keep (has_key node_name_index name) nodes in
      ((matching ≡ []) × (zone ≡ ""))
      ⊎ ((n : Node) × (matching ≡ n ∷ []) × (n.name ≡ name) × (zone ≡ get_node_zone n))
