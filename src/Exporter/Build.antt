-- ===== src/Exporter/Build.antt =====
-- `buildPodNetworkMetric`, `getNodeZone` and `emptyMetrics` of exporter/exporter.go.
use egressd.Prelude.{ℕ, Bool, ◌&&◌, String, if◌then◌else◌, ◌==◌, nat_comparable, string_comparable}
use egressd.Prelude.Table.{lookup}
use egressd.Net.{NetAddr, to_ip_int32, ip_from_int32}
use egressd.Collector.{RawNetworkMetric}
use egressd.Kube.{Pod, Node, not_found, to_many_objects, other_error, Result, ok, err}
use egressd.Dns.{Cache}
use egressd.Dns.Resolutions.{storage_lookup, or_name}
use egressd.Exporter.{PodNetworkMetric, KubeWatcher}

unfoldable pub get_node_zone : Node → String
get_node_zone n = or_name "" (lookup "topology.kubernetes.io/zone" n.labels)

unfoldable pub empty_metrics : RawNetworkMetric → Bool
empty_metrics metrics =
    metrics.tx_bytes == 0
    && metrics.rx_bytes == 0
    && metrics.tx_packets == 0
    && metrics.rx_packets == 0

-- A node that is not found is no error.
unfoldable pub with_src_node : Result Node → PodNetworkMetric → Result PodNetworkMetric
with_src_node (ok n) metric = ok (record metric { src_zone = get_node_zone n })
with_src_node (err not_found) metric = ok metric
with_src_node (err to_many_objects) metric = err to_many_objects
with_src_node (err other_error) metric = err other_error

unfoldable pub with_dst_node : Result Node → PodNetworkMetric → Result PodNetworkMetric
with_dst_node (ok n) metric = ok (record metric { dst_node = n.name; dst_zone = get_node_zone n })
with_dst_node (err not_found) metric = ok metric
with_dst_node (err to_many_objects) metric = err to_many_objects
with_dst_node (err other_error) metric = err other_error

module _ (net : NetAddr) (ips : Cache ℕ String) (names : Cache String String)
    (kube : KubeWatcher) where
  open kube use {State}

  -- The metric of the source pod, before its node is looked up.
  abbrev pub metric_of : RawNetworkMetric → Pod → PodNetworkMetric
  metric_of conn pod = record {
    src_ip = net.to_string (ip_from_int32 net conn.src_ip);
    src_pod = pod.name;
    src_namespace = pod.namespace;
    src_node = pod.node_name;
    src_zone = "";
    dst_ip = net.to_string (ip_from_int32 net conn.dst_ip);
    dst_pod = "";
    dst_namespace = "";
    dst_node = "";
    dst_zone = "";
    dst_dns_name = "";
    tx_bytes = conn.tx_bytes;
    tx_packets = conn.tx_packets;
    rx_bytes = conn.rx_bytes;
    rx_packets = conn.rx_packets;
    proto = conn.proto;
  }

  -- What the lookup of the destination pod leads to.
  unfoldable pub with_dst_pod :
      String → Result Pod → State → PodNetworkMetric → Result PodNetworkMetric
  with_dst_pod dst (ok pod) s metric =
      with_dst_node (kube.get_node_by_name pod.node_name s)
        (record metric { dst_pod = pod.name; dst_namespace = pod.namespace })
  with_dst_pod dst (err not_found) s metric = with_dst_node (kube.get_node_by_ip dst s) metric
  with_dst_pod dst (err to_many_objects) s metric = with_dst_node (kube.get_node_by_ip dst s) metric
  with_dst_pod dst (err other_error) s metric = err other_error

  unfoldable pub with_destination :
      ℕ → ips.Store → net.IP → PodNetworkMetric → State → State × Result PodNetworkMetric
  with_destination now storage dst_ip metric s =
      if net.is_private dst_ip
      then (let found = kube.get_pod_by_ip (net.to_string dst_ip) s in
          (found.0, with_dst_pod (net.to_string dst_ip) found.1 found.0 metric))
      else (
        s,
        ok (record metric {
          dst_dns_name = storage_lookup net ips names now (to_ip_int32 net dst_ip) storage;
        }),
      )

  unfoldable pub from_src_node :
      ℕ → ips.Store → net.IP → Result PodNetworkMetric → State → State × Result PodNetworkMetric
  from_src_node now storage dst_ip (err e) s = (s, err e)
  from_src_node now storage dst_ip (ok metric) s = with_destination now storage dst_ip metric s

  unfoldable pub from_src_pod :
      ℕ → ips.Store → RawNetworkMetric → State × Result Pod → State × Result PodNetworkMetric
  from_src_pod now storage conn (s, err e) = (s, err e)
  from_src_pod now storage conn (s, ok pod) =
      from_src_node now storage (ip_from_int32 net conn.dst_ip)
        (with_src_node (kube.get_node_by_name pod.node_name s) (metric_of conn pod)) s

  unfoldable pub build_pod_network_metric :
      ℕ → ips.Store → RawNetworkMetric → State → State × Result PodNetworkMetric
  build_pod_network_metric now storage conn s =
      from_src_pod now storage conn
        (kube.get_pod_by_ip (net.to_string (ip_from_int32 net conn.src_ip)) s)
