-- ===== src/Collector.antt =====
-- collector/collector.go: the collector's configuration, state, constructor and map keys.
-- The maps are tables whose order is the order in which one `range` visits them. `hash` stands
-- for the keyed hash of hash/maphash over the bytes written to it.
pub mod Collect
pub mod Handler
pub mod Traffic
pub mod Climb
pub mod Keys
pub mod Ledger
pub mod Pods
pub mod Invariant
use egressd.Prelude.{
  nat_comparable, string_comparable, ℕ, ◌/◌, ◌%◌, Bool, false, not, ◌||◌, List, [], ◌∷◌, ◌++◌,
  String, if◌then◌else◌, ◌==◌,
}
use egressd.Net.{NetAddr, Quad}
use egressd.Conntrack.{Entry}

pub record Config : Type 0 where
  pub read_interval : ℕ
  pub cleanup_interval : ℕ
  pub node_name : String
  pub exclude_namespaces : String
  pub group_public_ips : Bool
  pub send_traffic_delta : Bool
  pub log_entries : Bool

-- `rawNetworkMetric`: the fields of `pb.RawNetworkMetric`, each the bit pattern of its signed
-- integer, and the lifetime beside them.
pub record RawNetworkMetric : Type 0 where
  pub src_ip : ℕ
  pub dst_ip : ℕ
  pub tx_bytes : ℕ
  pub tx_packets : ℕ
  pub rx_bytes : ℕ
  pub rx_packets : ℕ
  pub proto : ℕ
  pub lifetime : ℕ

pub record Collector (IP : Type 0) : Type 0 where
  pub cfg : Config
  pub entries_cache : List (ℕ × Entry IP)
  pub pod_metrics : List (ℕ × RawNetworkMetric)
  pub exclude_ns_map : List String
  pub first_collect_done : Bool

pub data NewError : Type 0 where
  read_interval_not_set cleanup_interval_not_set : NewError

pub data NewResult (A : Type 0) : Type 0 where
  ok : A → NewResult A
  panic : NewError → NewResult A

-- `strings.Split(s, ",")`, over a text given by its characters.
unfoldable pub new :
    {IP : Type 0} → (split : String → List String) → Config → NewResult (Collector IP)
new split cfg =
    let exclude_ns_map =
      if not (cfg.exclude_namespaces == "") then split cfg.exclude_namespaces else [] in
    if cfg.read_interval == 0
    then panic read_interval_not_set
    else if cfg.cleanup_interval == 0
    then panic cleanup_interval_not_set
    else ok (record {
      cfg = cfg;
      entries_cache = [];
      pod_metrics = [];
      exclude_ns_map = exclude_ns_map;
      first_collect_done = false;
    })

-- The bytes of an address, and of `binary.LittleEndian.PutUint16`.
abbrev pub quad_bytes : Quad → List ℕ
quad_bytes q = q.b0 ∷ q.b1 ∷ q.b2 ∷ q.b3 ∷ []

abbrev pub put_uint16 : ℕ → List ℕ
put_uint16 v = v % 256 ∷ v / 256 % 256 ∷ []

module _ (net : NetAddr) (hash : List ℕ → ℕ) where
  open net use {IP, as4}

  -- What `conntrackEntryKey` writes to its hash.
  unfoldable pub entry_bytes : Entry IP → List ℕ
  entry_bytes conn =
      quad_bytes (as4 conn.src.ip)
      ++ (put_uint16 conn.src.port
          ++ (quad_bytes (as4 conn.dst.ip) ++ (put_uint16 conn.dst.port ++ conn.proto ∷ [])))

  unfoldable pub conntrack_entry_key : Entry IP → ℕ
  unfolding entry_bytes
  conntrack_entry_key conn = hash (entry_bytes conn)

  -- What `entryGroupKey` writes to its hash.
  unfoldable pub group_bytes : Entry IP → List ℕ
  group_bytes conn =
      quad_bytes (as4 conn.src.ip) ++ (quad_bytes (as4 conn.dst.ip) ++ conn.proto ∷ [])

  unfoldable pub entry_group_key : Entry IP → ℕ
  unfolding group_bytes
  entry_group_key conn = hash (group_bytes conn)

unfoldable pub is_private_network : (net : NetAddr) → net.IP → Bool
is_private_network net ip =
    net.is_private ip
    || net.is_loopback ip
    || net.is_multicast ip
    || net.is_link_local_unicast ip
    || net.is_link_local_multicast ip
    || net.is_interface_local_multicast ip
