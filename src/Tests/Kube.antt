-- ===== src/Tests/Kube.antt =====
-- The theorems on the caches of Kubernetes objects at concrete pods and nodes, with an indexer that
-- is a list of pods.
use egressd.Prelude.{
  ◌≡◌, false, not, ◌&&◌, Option, none, some, List, [], ◌∷◌, map, String, ◌==◌, nat_comparable,
  string_comparable, keep,
}
use egressd.Prelude.Table.{lookup}
use egressd.Kube.{
  running, succeeded, Pod, Node, Object, pod, node, added, updated, internal_ip, other_address,
}
use egressd.Kube.Running.{is_running, new_running_pods_cache, handle_all}
use egressd.Kube.RunningLaws.{latest, is_report_of, handle_all-latest}
use egressd.Kube.Nodes.{has_key}
use egressd.Kube.ByIp.{Indexer, PodByIpCache, cleanup_expired}
use egressd.Kube.Cleanup.{Cleaned, cleanup_expired-Cleaned}

abbrev pub web : Pod
web = record {
  uid = "u1";
  name = "web";
  namespace = "default";
  managed_fields = [];
  labels = [];
  annotations = [];
  creation_timestamp = 10;
  deletion_timestamp = none;
  node_name = "n1";
  host_network = false;
  containers = [];
  pod_ip = "10.0.0.7";
  phase = running;
  conditions = [];
  pod_ips = [];
}

abbrev finished_web : Pod
finished_web = record web { phase = succeeded; deletion_timestamp = some 1000 }

handle_all-latest_example :
    lookup "u1"
      (handle_all
        (added (pod web) ∷ updated (pod web) (pod finished_web) ∷ [])
        new_running_pods_cache).pods
    ≡ some web
unfolding latest is_report_of is_running
handle_all-latest_example =
    handle_all-latest "u1" (added (pod web) ∷ updated (pod web) (pod finished_web) ∷ [])
      new_running_pods_cache

abbrev pub first_node : Node
first_node = record {
  name = "n1";
  managed_fields = [];
  labels = [];
  addresses = (other_address, "host") ∷ (internal_ip, "10.1.0.1") ∷ [];
  unschedulable = false;
  capacity = [];
}

abbrev nodes_at : (Object → Option (List String)) → String → Option (List Object)
nodes_at index key = some (map node (keep (has_key index key) (first_node ∷ [])))

abbrev others : Pod → List Pod → List Pod
others t = keep (λ u. not (u.namespace == t.namespace && u.name == t.name))

abbrev pub pod_list : Indexer
pod_list = record {
  Store = List Pod;
  by_index = λ key s. some (map pod (keep (λ t. t.pod_ip == key) s));
  add = λ t s. some (t ∷ others t s);
  delete = λ t s. some (others t s);
}

abbrev two_pods : PodByIpCache (List Pod)
two_pods = record {
  indexer = record web { name = "new"; uid = "u2"; creation_timestamp = 20 } ∷ finished_web ∷ [];
  deleted_pods = [];
}

abbrev noted : PodByIpCache (List Pod)
noted = record {
  indexer = finished_web ∷ [];
  deleted_pods =
      ("u1", finished_web)
      ∷ ("u3", record web { uid = "u3"; deletion_timestamp = some 200000000000 })
      ∷ [];
}

cleanup_expired-Cleaned_example :
    Cleaned pod_list 200000000000 noted (cleanup_expired pod_list 200000000000 noted)
cleanup_expired-Cleaned_example = cleanup_expired-Cleaned pod_list 200000000000 noted
