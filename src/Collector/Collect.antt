-- ===== src/Collector/Collect.antt =====
-- `collect`, `cleanup` and `getNodePods` of collector/collector.go.
use egressd.Prelude.{
  ℕ, ◌+◌, ◌-◌, ◌%◌, Bool, true, not, ◌&&◌, Option, none, some, List, [], ◌∷◌, map, String, ltb,
  if◌then◌else◌, ◌==◌, nat_comparable, string_comparable, contains,
}
use egressd.Prelude.Table.{lookup, insert, retain}
use egressd.Net.{NetAddr, to_ip_int32}
use egressd.Conntrack.{Entry, EntriesFilter, filter_by_src_ip, u64_mod}
use egressd.Collector.{
  Config, RawNetworkMetric, Collector, conntrack_entry_key, entry_group_key, is_private_network,
}

-- The fields of a pod that the collector reads.
pub record Pod : Type 0 where
  pub name : String
  pub namespace : String
  pub pod_ip : String
  pub host_network : Bool

unfoldable pub get_node_pods : List String → List Pod → List Pod
get_node_pods exclude_ns_map [] = []
get_node_pods exclude_ns_map (pod ∷ pods) =
    let filtered = get_node_pods exclude_ns_map pods in
    if pod.pod_ip == ""
    then filtered
    else if pod.host_network
    then filtered
    else if contains pod.namespace exclude_ns_map
    then filtered
    else pod ∷ filtered

-- `txBytes`, `txPackets`, `rxBytes` and `rxPackets` of the loop.
pub record Traffic : Type 0 where
  pub tx_bytes : ℕ
  pub tx_packets : ℕ
  pub rx_bytes : ℕ
  pub rx_packets : ℕ

-- `lo.Ternary(x < cached, 0, x-cached)`, whose subtraction is on uint64.
unfoldable pub growth : ℕ → ℕ → ℕ
growth x cached = if ltb x cached then 0 else (x + u64_mod - cached) % u64_mod

module _ {IP : Type 0} where
  unfoldable pub traffic_since : Option (Entry IP) → Entry IP → Traffic
  traffic_since none conn = record {
    tx_bytes = conn.tx_bytes;
    tx_packets = conn.tx_packets;
    rx_bytes = conn.rx_bytes;
    rx_packets = conn.rx_packets;
  }
  traffic_since (some cached) conn = record {
    tx_bytes = growth conn.tx_bytes cached.tx_bytes;
    tx_packets = growth conn.tx_packets cached.tx_packets;
    rx_bytes = growth conn.rx_bytes cached.rx_bytes;
    rx_packets = growth conn.rx_packets cached.rx_packets;
  }

-- `x += int64(d)` on bit patterns.
abbrev pub add64 : ℕ → ℕ → ℕ
add64 x d = (x + d) % u64_mod

module _ (net : NetAddr) where
  open net use {IP, ipv4}

  -- A public destination becomes 0.0.0.0:0 where the configuration says so.
  unfoldable pub group_public : Config → Entry IP → Entry IP
  unfolding is_private_network
  group_public cfg conn =
      if cfg.group_public_ips && not (is_private_network net conn.dst.ip)
      then record conn {
        dst = record { ip = ipv4 (record { b0 = 0; b1 = 0; b2 = 0; b3 = 0 }); port = 0 };
      }
      else conn

  -- The metric under the group key after the traffic of one connection.
  unfoldable pub merge_metric : Option RawNetworkMetric → Entry IP → Traffic → RawNetworkMetric
  unfolding to_ip_int32
  merge_metric (some pm) conn t = record pm {
    tx_bytes = add64 pm.tx_bytes t.tx_bytes;
    tx_packets = add64 pm.tx_packets t.tx_packets;
    rx_bytes = add64 pm.rx_bytes t.rx_bytes;
    rx_packets = add64 pm.rx_packets t.rx_packets;
    lifetime = if ltb pm.lifetime conn.lifetime then conn.lifetime else pm.lifetime;
  }
  merge_metric none conn t = record {
    src_ip = to_ip_int32 net conn.src.ip;
    dst_ip = to_ip_int32 net conn.dst.ip;
    tx_bytes = t.tx_bytes;
    tx_packets = t.tx_packets;
    rx_bytes = t.rx_bytes;
    rx_packets = t.rx_packets;
    proto = conn.proto;
    lifetime = conn.lifetime;
  }

pub data CollectError : Type 0 where
  getting_node_pods listing_conntrack_entries : CollectError

module _ (net : NetAddr) (hash : List ℕ → ℕ) where
  open net use {IP}

  -- One round of the loop of `collect`. The cache and the loop share the entry, so the cached
  -- entry too gets the grouped destination.
  unfoldable pub collect_conn : Collector IP → Entry IP → Collector IP
  collect_conn c conn =
      let conn_key = conntrack_entry_key net hash conn in
      let t = traffic_since (lookup conn_key c.entries_cache) conn in
      let cached = record c { entries_cache = insert conn_key conn c.entries_cache } in
      let grouped = group_public net c.cfg conn in
      let group_key = entry_group_key net hash grouped in
      if c.cfg.send_traffic_delta && not c.first_collect_done then cached else record c {
        entries_cache = insert conn_key grouped cached.entries_cache;
        pod_metrics =
            insert group_key (merge_metric net (lookup group_key c.pod_metrics) grouped t)
              c.pod_metrics;
      }

  unfoldable pub collect_conns : Collector IP → List (Entry IP) → Collector IP
  collect_conns c [] = c
  collect_conns c (conn ∷ conns) = collect_conns (collect_conn c conn) conns

  -- `must_parse` stands for `netaddr.MustParseIP`, at the addresses of the cluster's pods;
  -- `none` is an error of the pods watcher or of the conntrack client.
  unfoldable pub collect :
      (must_parse : String → IP)
      → Option (List Pod)
      → (EntriesFilter IP → Option (List (Entry IP)))
      → Collector IP
      → Collector IP × Option CollectError
  collect must_parse none conntracker c = (c, some getting_node_pods)
  collect must_parse (some pods) conntracker c =
      let ips = map (λ (p : Pod). must_parse p.pod_ip) (get_node_pods c.exclude_ns_map pods) in
      elim (conntracker (filter_by_src_ip net ips)) [
        | none ↦ (c, some listing_conntrack_entries)
        | some conns ↦ (record (collect_conns c conns) { first_collect_done = true }, none)
      ]

-- `now.After(lifetime)` deletes.
unfoldable pub cleanup : {IP : Type 0} → ℕ → Collector IP → Collector IP
cleanup now c = record c {
  entries_cache = retain (λ e. not (ltb e.lifetime now)) c.entries_cache;
  pod_metrics = retain (λ m. not (ltb m.lifetime now)) c.pod_metrics;
}
