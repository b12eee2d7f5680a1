-- ===== src/Exporter.antt =====
-- exporter/exporter.go: the messages that the exporter builds, and what it asks of the rest: the
-- `kubeWatcher` interface (kube/*.go implements it, and its lookup of pods changes the cache) and
-- the storage of names of exporter/ip2dns.go.
pub mod Fetch
pub mod Build
pub mod Config
pub mod ConfigLaws
pub mod NodeLaws
pub mod BuildLaws
pub mod BuildErrors
pub mod Export
pub mod ExportLaws
pub mod Returns
use egressd.Prelude.{ℕ, String}
use egressd.Kube.{Pod, Node, Result}

pub record PodNetworkMetric : Type 0 where
  pub src_ip : String
  pub src_pod : String
  pub src_namespace : String
  pub src_node : String
  pub src_zone : String
  pub dst_ip : String
  pub dst_pod : String
  pub dst_namespace : String
  pub dst_node : String
  pub dst_zone : String
  pub dst_dns_name : String
  pub tx_bytes : ℕ
  pub tx_packets : ℕ
  pub rx_bytes : ℕ
  pub rx_packets : ℕ
  pub proto : ℕ

pub record KubeWatcher : Type 1 where
  pub State : Type 0
  pub get_pod_by_ip : String → State → State × Result Pod
  pub get_node_by_name : String → State → Result Node
  pub get_node_by_ip : String → State → Result Node
