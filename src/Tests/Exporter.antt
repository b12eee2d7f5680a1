-- ===== src/Tests/Exporter.antt =====
-- The theorems on the exporter at a concrete cluster of one pod and one node.
use egressd.Prelude.{
  ℕ, ◌+◌, ◌≡◌, refl, ap, ◌↔◌, [], ◌∷◌, arith, if◌then◌else◌, ◌==◌, nat_comparable,
  string_comparable,
}
use egressd.Prelude.Table.{lookup}
use egressd.Net.{ip_from_int32, to_ip_int32}
use egressd.Collector.{RawNetworkMetric}
use egressd.Kube.{Pod, Node, not_found, ok, err}
use egressd.Dns.Resolutions.{storage_lookup}
use egressd.Exporter.{PodNetworkMetric, KubeWatcher}
use egressd.Exporter.Build.{
  get_node_zone, with_src_node, metric_of, with_destination, from_src_node, from_src_pod,
  build_pod_network_metric,
}
use egressd.Exporter.BuildLaws.{Source, Destination, build_ok}
use egressd.Exporter.BuildErrors.{build-not_found}
use egressd.Tests.Net.{test_net}
use egressd.Tests.Dns.{ips, names}
use egressd.Tests.Kube.{web, first_node}

abbrev zoned_node : Node
zoned_node = record first_node { labels = ("topology.kubernetes.io/zone", "zone-a") ∷ [] }

abbrev pub watcher : KubeWatcher
watcher = record {
  State = ℕ;
  get_pod_by_ip = λ ip s. (s + 1, if ip == "10.0.0.1" then ok web else err not_found);
  get_node_by_name = λ name s. if name == "n1" then ok zoned_node else err not_found;
  get_node_by_ip = λ ip s. err not_found;
}

-- From 10.0.0.7 to 8.8.4.4, and from 8.8.4.4.
abbrev pub to_public : RawNetworkMetric
to_public = record {
  src_ip = 167772167;
  dst_ip = 134743044;
  tx_bytes = 60;
  tx_packets = 1;
  rx_bytes = 200;
  rx_packets = 1;
  proto = 17;
  lifetime = 0;
}

abbrev from_public : RawNetworkMetric
from_public = record to_public { src_ip = 134743044; dst_ip = 167772167 }

abbrev pub storage : ips.Store
storage = (134743044, "dns.example", 100) ∷ []

abbrev metric : PodNetworkMetric
metric = record (metric_of test_net ips names watcher to_public web) {
  src_zone = "zone-a";
  dst_dns_name = "dns.example";
}

built : build_pod_network_metric test_net ips names watcher 50 storage to_public 0 ≡ (1, ok metric)
unfolding build_pod_network_metric from_src_pod from_src_node with_src_node with_destination
    get_node_zone storage_lookup ip_from_int32 to_ip_int32 lookup
built = refl

build_ok_example :
    (p : Pod) × ((watcher.get_pod_by_ip (test_net.to_string (ip_from_int32 test_net 167772167)) 0).1
      ≡ ok p)
    × (Source test_net ips names watcher to_public p 1 metric
        × Destination test_net ips names watcher 50 storage 134743044 1 metric)
build_ok_example =
    build_ok test_net ips names watcher 50 storage to_public 0 metric (omega arith)
      (ap (λ r. r.1) built)

build-not_found_example :
    ((build_pod_network_metric test_net ips names watcher 50 storage from_public 0).1
      ≡ err not_found)
    ↔ ((watcher.get_pod_by_ip (test_net.to_string (ip_from_int32 test_net 134743044)) 0).1
        ≡ err not_found)
build-not_found_example = build-not_found test_net ips names watcher 50 storage from_public 0

abbrev pub collector_pod : Pod
collector_pod = record web {
  containers =
      record { name = "a"; ports = ("metrics", 9090) ∷ [] }
      ∷ record { name = "b"; ports = ("http-server", 8008) ∷ [] }
      ∷ [];
}
