-- ===== src/Collector/Traffic.antt =====
-- The accounting of collector/collector.go: what `collect` adds to the pod metrics.
use egressd.Prelude.{
  ℕ, ◌+◌, ◌-◌, ◌%◌, ◌<◌, ◌≡◌, Bool, not, ◌&&◌, Option, List, [], ◌∷◌, arith, if◌then◌else◌, ◌==◌,
  nat_comparable, string_comparable,
}
use egressd.Prelude.Table.{lookup, total, or_zero, total-insert, lookup-insert}
use egressd.Net.{NetAddr}
use egressd.Conntrack.{Entry, Counter, tx_bytes, tx_packets, rx_bytes, rx_packets, u64_mod}
use egressd.Collector.{RawNetworkMetric, Collector, conntrack_entry_key, entry_group_key}
use egressd.Collector.Collect.{
  Traffic, growth, traffic_since, group_public, merge_metric, collect_conn, collect_conns,
}

abbrev pub read_metric : Counter → RawNetworkMetric → ℕ
read_metric tx_bytes m = m.tx_bytes
read_metric tx_packets m = m.tx_packets
read_metric rx_bytes m = m.rx_bytes
read_metric rx_packets m = m.rx_packets

abbrev pub read_traffic : Counter → Traffic → ℕ
read_traffic tx_bytes t = t.tx_bytes
read_traffic tx_packets t = t.tx_packets
read_traffic rx_bytes t = t.rx_bytes
read_traffic rx_packets t = t.rx_packets

-- The growth of a counter is never a wrapped number: it is the difference, or 0 where the counter fell.
pub growth_lem : (x cached : ℕ) → x < u64_mod → growth x cached ≡ x - cached
unfolding growth
growth_lem x cached h = ground arith

merge_metric-adds :
    (net : NetAddr) (k : Counter) (pm : Option RawNetworkMetric) (conn : Entry net.IP) (t : Traffic)
    → read_metric k (merge_metric net pm conn t) % u64_mod
      ≡ (or_zero (read_metric k) pm + read_traffic k t) % u64_mod
unfolding merge_metric
merge_metric-adds net tx_bytes pm conn t = ground arith
merge_metric-adds net tx_packets pm conn t = ground arith
merge_metric-adds net rx_bytes pm conn t = ground arith
merge_metric-adds net rx_packets pm conn t = ground arith

-- The first collection in delta mode only fills the cache.
abbrev pub is_skipping : {IP : Type 0} → Collector IP → Bool
is_skipping c = c.cfg.send_traffic_delta && not c.first_collect_done

module _ (net : NetAddr) (hash : List ℕ → ℕ) (k : Counter) where
  open net use {IP}

  -- What one connection adds: its growth since the cached entry, or nothing on the first
  -- collection in delta mode.
  unfoldable pub recorded_conn : Collector IP → Entry IP → ℕ
  recorded_conn c conn =
      if is_skipping c
      then 0
      else read_traffic k
          (traffic_since (lookup (conntrack_entry_key net hash conn) c.entries_cache) conn)

  unfoldable pub recorded : Collector IP → List (Entry IP) → ℕ
  recorded c [] = 0
  recorded c (conn ∷ conns) = recorded_conn c conn + recorded (collect_conn net hash c conn) conns

  abbrev pub pending : Collector IP → ℕ
  pending c = total (read_metric k) c.pod_metrics

  collect_conn-pending :
      (c : Collector IP) (conn : Entry IP)
      → pending (collect_conn net hash c conn) % u64_mod
        ≡ (pending c + recorded_conn c conn) % u64_mod
  unfolding collect_conn recorded_conn
  collect_conn-pending c conn =
      let cached = lookup (conntrack_entry_key net hash conn) c.entries_cache in
      let t = traffic_since cached conn in
      let grouped = group_public net c.cfg conn in
      let key = entry_group_key net hash grouped in
      let pm = lookup key c.pod_metrics in
      ground (
        arith,
        total-insert (read_metric k) key (merge_metric net pm grouped t) c.pod_metrics,
        merge_metric-adds net k pm grouped t,
      )

  -- What waits in the pod metrics after the loop of `collect` is what waited before and what the
  -- connections add, modulo 2 ^ 64: no traffic is lost and none is counted twice.
  pub collect_conns-pending :
      (c : Collector IP) (conns : List (Entry IP))
      → pending (collect_conns net hash c conns) % u64_mod
        ≡ (pending c + recorded c conns) % u64_mod
  unfolding collect_conns recorded
  collect_conns-pending c [] = omega arith
  collect_conns-pending c (conn ∷ conns) = omega (
    arith,
    collect_conns-pending (collect_conn net hash c conn) conns,
    collect_conn-pending c conn,
  )

  -- The part of it that goes to one group of source, destination and protocol.
  abbrev group_of : Collector IP → Entry IP → ℕ
  group_of c conn = entry_group_key net hash (group_public net c.cfg conn)

  unfoldable pub recorded_in : ℕ → Collector IP → List (Entry IP) → ℕ
  recorded_in g c [] = 0
  recorded_in g c (conn ∷ conns) =
      (if group_of c conn == g then recorded_conn c conn else 0)
      + recorded_in g (collect_conn net hash c conn) conns

  abbrev pub pending_in : ℕ → Collector IP → ℕ
  pending_in g c = or_zero (read_metric k) (lookup g c.pod_metrics)

  collect_conn-pending_in :
      (g : ℕ) (c : Collector IP) (conn : Entry IP)
      → pending_in g (collect_conn net hash c conn) % u64_mod
        ≡ (pending_in g c + (if group_of c conn == g then recorded_conn c conn else 0)) % u64_mod
  unfolding collect_conn recorded_conn
  collect_conn-pending_in g c conn =
      let cached = lookup (conntrack_entry_key net hash conn) c.entries_cache in
      let t = traffic_since cached conn in
      let grouped = group_public net c.cfg conn in
      let key = entry_group_key net hash grouped in
      let pm = lookup key c.pod_metrics in
      ground (
        arith,
        lookup-insert key g (merge_metric net pm grouped t) c.pod_metrics,
        merge_metric-adds net k pm grouped t,
      )

  -- The metric of each group grows by exactly the traffic of the connections of that group.
  pub collect_conns-pending_in :
      (g : ℕ) (c : Collector IP) (conns : List (Entry IP))
      → pending_in g (collect_conns net hash c conns) % u64_mod
        ≡ (pending_in g c + recorded_in g c conns) % u64_mod
  unfolding collect_conns recorded_in
  collect_conns-pending_in g c [] = omega arith
  collect_conns-pending_in g c (conn ∷ conns) = omega (
    arith,
    collect_conns-pending_in g (collect_conn net hash c conn) conns,
    collect_conn-pending_in g c conn,
  )
