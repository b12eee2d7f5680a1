-- ===== src/Conntrack.antt =====
-- conntrack/conntrack.go: the entry that both conntrack clients produce, and its filters, and
-- `ProtoString`. A time is in nanoseconds since Go's zero Time, so an unset Lifetime is 0.
use egressd.Prelude.{
  ℕ, ◌^◌, ◌<◌, Bool, true, List, any, nat_comparable, Option, none, some, [], ◌∷◌, String,
}
use egressd.Prelude.Table.{lookup}
use egressd.Net.{NetAddr, IpPort}
pub mod Netfilter
pub mod NetfilterLaws
pub mod NetfilterList
pub mod KernelHz
pub mod Nearest
pub mod Cilium
pub mod CiliumLaws

abbrev pub u64_mod : ℕ
u64_mod = 2 ^ 64

pub record Entry (IP : Type 0) : Type 0 where
  pub src : IpPort IP
  pub dst : IpPort IP
  pub tx_bytes : ℕ
  pub tx_packets : ℕ
  pub rx_bytes : ℕ
  pub rx_packets : ℕ
  pub lifetime : ℕ
  pub proto : ℕ

-- The ranges of the fields' machine types.
pub record IsEntry {IP : Type 0} (e : Entry IP) : Type 0 where
  pub src_port : e.src.port < 2 ^ 16
  pub dst_port : e.dst.port < 2 ^ 16
  pub tx_bytes : e.tx_bytes < u64_mod
  pub tx_packets : e.tx_packets < u64_mod
  pub rx_bytes : e.rx_bytes < u64_mod
  pub rx_packets : e.rx_packets < u64_mod
  pub proto : e.proto < 2 ^ 8

-- The four counters of an entry, to state one law for all of them.
pub data Counter : Type 0 where
  tx_bytes tx_packets rx_bytes rx_packets : Counter

abbrev pub read : {IP : Type 0} → Counter → Entry IP → ℕ
read tx_bytes e = e.tx_bytes
read tx_packets e = e.tx_packets
read rx_bytes e = e.rx_bytes
read rx_packets e = e.rx_packets

abbrev pub EntriesFilter : Type 0 → Type 0
EntriesFilter IP = Entry IP → Bool

unfoldable pub all_entries : {IP : Type 0} → EntriesFilter IP
all_entries e = true

-- The set of addresses is a list; only membership is asked of it.
unfoldable pub filter_by_src_ip : (net : NetAddr) → List net.IP → EntriesFilter net.IP
filter_by_src_ip net ips e = any (λ ip. net.ip_eq.same ip e.src.ip) ips

abbrev pub proto_names : List (ℕ × String)
proto_names = (0, "ANY") ∷ (1, "ICMP") ∷ (6, "TCP") ∷ (17, "UDP") ∷ (58, "ICMPv6") ∷ []

-- `itoa` is `strconv.Itoa`.
unfoldable pub proto_string : (itoa : ℕ → String) → ℕ → String
proto_string itoa p = elim (lookup p proto_names) [ none ↦ itoa p | some name ↦ name ]
