-- ===== src/Exporter/BuildErrors.antt =====
-- Which failures the build of a metric in exporter/exporter.go reports as a missing pod.
use egressd.Prelude.{
  ℕ, ◌≡◌, ◌≢◌, ◌↔◌, inl, inr, arith, String, nat_comparable, string_comparable, Bool-cases,
}
use egressd.Net.{NetAddr, ip_from_int32}
use egressd.Collector.{RawNetworkMetric}
use egressd.Kube.{Pod, Node, not_found, to_many_objects, other_error, Result, ok, err}
use egressd.Dns.{Cache}
use egressd.Exporter.{PodNetworkMetric, KubeWatcher}
use egressd.Exporter.Build.{
  with_src_node, with_dst_node, with_dst_pod, with_destination, from_src_node, from_src_pod,
  build_pod_network_metric,
}

module _ (net : NetAddr) (ips : Cache ℕ String) (names : Cache String String)
    (kube : KubeWatcher) where
  open kube use {State}

  src_node_found : (r : Result Node) (a : PodNetworkMetric) → with_src_node r a ≢ err not_found
  unfolding with_src_node
  src_node_found (ok n) a e = cc
  src_node_found (err not_found) a e = cc
  src_node_found (err to_many_objects) a e = cc
  src_node_found (err other_error) a e = cc

  dst_node_found : (r : Result Node) (a : PodNetworkMetric) → with_dst_node r a ≢ err not_found
  unfolding with_dst_node
  dst_node_found (ok n) a e = cc
  dst_node_found (err not_found) a e = cc
  dst_node_found (err to_many_objects) a e = cc
  dst_node_found (err other_error) a e = cc

  dst_pod_found :
      (ip : String) (r : Result Pod) (s : State) (a : PodNetworkMetric)
      → with_dst_pod net ips names kube ip r s a ≢ err not_found
  unfolding with_dst_pod
  dst_pod_found ip (ok p) s a e = dst_node_found _ _ e
  dst_pod_found ip (err not_found) s a e = dst_node_found _ _ e
  dst_pod_found ip (err to_many_objects) s a e = dst_node_found _ _ e
  dst_pod_found ip (err other_error) s a e = cc

  destination_found :
      (now : ℕ) (storage : ips.Store) (ip : net.IP) (a : PodNetworkMetric) (s : State)
      → (with_destination net ips names kube now storage ip a s).1 ≢ err not_found
  unfolding with_destination
  destination_found now storage ip a s e = elim (Bool-cases (net.is_private ip)) [
    | inl private ↦
        let found = kube.get_pod_by_ip (net.to_string ip) s in
        dst_pod_found (net.to_string ip) found.1 found.0 a (ground arith)
    | inr public ↦ ground arith
  ]

  found_from_src_node :
      (now : ℕ) (storage : ips.Store) (ip : net.IP) (r : Result PodNetworkMetric) (s : State)
      → r ≢ err not_found
      → (from_src_node net ips names kube now storage ip r s).1 ≢ err not_found
  unfolding from_src_node
  found_from_src_node now storage ip (ok a) s h e = destination_found now storage ip a s e
  found_from_src_node now storage ip (err x) s h e = h e

  from_src_pod-not_found :
      (now : ℕ) (storage : ips.Store) (conn : RawNetworkMetric) (found : State × Result Pod)
      → ((from_src_pod net ips names kube now storage conn found).1 ≡ err not_found)
        ↔ (found.1 ≡ err not_found)
  unfolding from_src_pod
  from_src_pod-not_found now storage conn (s, err x) = (λ e. ground arith, λ e. ground arith)
  from_src_pod-not_found now storage conn (s, ok p) =
      (λ e. absurd (found_from_src_node _ _ _ _ _ (src_node_found _ _) e), λ e. cc)

  -- Building fails with ErrNotFound exactly where the source pod is not found: no other missing
  -- object, of the source node or of the destination, drops a metric.
  pub build-not_found :
      (now : ℕ) (storage : ips.Store) (conn : RawNetworkMetric) (s : State)
      → ((build_pod_network_metric net ips names kube now storage conn s).1 ≡ err not_found)
        ↔ ((kube.get_pod_by_ip (net.to_string (ip_from_int32 net conn.src_ip)) s).1 ≡ err not_found)
  unfolding build_pod_network_metric
  build-not_found now storage conn s = from_src_pod-not_found now storage conn _
