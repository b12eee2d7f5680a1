-- ===== src/Tests.antt =====
-- The theorems at concrete inputs, and runs of the definitions.
pub mod Net
pub mod Conntrack
pub mod Ebpf
pub mod Headers
pub mod Collector
pub mod Dns
pub mod Kube
pub mod Exporter
pub mod Sinks
pub mod Pipeline
pub mod Export
