-- ===== src/Collector/Invariant.antt =====
-- The maps of collector/collector.go: no key twice, what `cleanup` removes, what a response resets.
use egressd.Prelude.{
  ℕ, ◌+◌, ◌≤◌, ◌<◌, ◌≡◌, refl, ◌⊎◌, inl, inr, Bool, true, false, not, ◌&&◌, ◌||◌, Option, none,
  some, List, [], ◌∷◌, map, arith, String, ltb, leb, nat_comparable, string_comparable, Bool-cases,
  Option-cases,
}
use egressd.Prelude.Table.{
  map_values, IsTable, insert-IsTable, retain-IsTable, map_values-IsTable, lookup, if_kept,
  lookup-retain, lookup-map_values,
}
use egressd.Net.{NetAddr}
use egressd.Conntrack.{Entry, EntriesFilter, filter_by_src_ip}
use egressd.Collector.{Config, RawNetworkMetric, Collector, ok, new}
use egressd.Collector.Collect.{
  Pod, collect_conn, collect_conns, get_node_pods, collect, cleanup, getting_node_pods,
  listing_conntrack_entries,
}
use egressd.Collector.Handler.{
  Library, Ip2Domain, reset_metric, two_minutes, get_raw_network_metrics_handler,
}
use egressd.Collector.Ledger.{Event, scrape, serve, tidy, is_sent, is_truncated, step, run}

pub record IsCollector {IP : Type 0} (c : Collector IP) : Type 0 where
  pub entries : IsTable c.entries_cache
  pub metrics : IsTable c.pod_metrics

-- A collector that could be made has empty maps, intervals that are not zero, and is not done with
-- its first collection.
pub new-IsCollector :
    {IP : Type 0} (split : String → List String) (cfg : Config) (c : Collector IP)
    → new split cfg ≡ ok c
    → IsCollector c
      × (c.cfg ≡ cfg)
      × (0 < cfg.read_interval)
      × (0 < cfg.cleanup_interval)
      × (c.first_collect_done ≡ false)
unfolding new
new-IsCollector split cfg c h = (
  record { entries = ground arith; metrics = ground arith },
  ground arith,
  ground arith,
  ground arith,
  ground arith,
)

-- After a delivery of deltas a metric has its four counters at zero, the same addresses and
-- protocol, and a lifetime of at most two minutes from now that is not longer than before.
abbrev pub WasReset : (clock : ℕ → ℕ) → ℕ → RawNetworkMetric → RawNetworkMetric → Type 0
WasReset clock key m m' =
    (m'.tx_bytes ≡ 0)
    × (m'.tx_packets ≡ 0)
    × (m'.rx_bytes ≡ 0)
    × (m'.rx_packets ≡ 0)
    × (m'.src_ip ≡ m.src_ip)
    × (m'.dst_ip ≡ m.dst_ip)
    × (m'.proto ≡ m.proto)
    × (m'.lifetime ≤ clock key + two_minutes)
    × (m'.lifetime ≤ m.lifetime)
    × ((m'.lifetime ≡ m.lifetime) ⊎ (m'.lifetime ≡ clock key + two_minutes))

abbrev pub is_reset : {IP : Type 0} → Library → List Ip2Domain → List ℕ → Collector IP → Bool
is_reset lib records enc c =
    let response = (get_raw_network_metrics_handler lib records enc c).1 in
    (is_sent response || is_truncated response) && c.cfg.send_traffic_delta

handler_cases :
    {IP : Type 0} (lib : Library) (records : List Ip2Domain) (enc : List ℕ) (c : Collector IP)
    → let c' = (get_raw_network_metrics_handler lib records enc c).0 in
      ((is_reset lib records enc c ≡ false) × (c' ≡ c))
      ⊎ ((is_reset lib records enc c ≡ true)
          × (c' ≡ record c { pod_metrics = map_values (reset_metric lib.clock) c.pod_metrics }))
unfolding get_raw_network_metrics_handler
handler_cases lib records enc c = ground arith

reset_metric-WasReset :
    (clock : ℕ → ℕ) (key : ℕ) (m : RawNetworkMetric)
    → WasReset clock key m (reset_metric clock key m)
unfolding reset_metric
reset_metric-WasReset clock key m = ground arith

-- A request changes nothing but the pod metrics. Those stay as they are unless the batch was sent,
-- whole or broken off when the gzip writer could not be closed, and the counters are deltas. Then
-- each metric that waited has four counters at zero, its addresses and protocol, and a lifetime cut
-- to at most two minutes from now; no other metric appears.
pub handler-WasReset :
    {IP : Type 0} (lib : Library) (records : List Ip2Domain) (enc : List ℕ) (c : Collector IP)
    (key : ℕ)
    → let c' = (get_raw_network_metrics_handler lib records enc c).0 in
      (c'.entries_cache ≡ c.entries_cache)
      × (c'.first_collect_done ≡ c.first_collect_done)
      × (((is_reset lib records enc c ≡ false) × (c' ≡ c))
          ⊎ ((is_reset lib records enc c ≡ true)
              × (((lookup key c.pod_metrics ≡ none) × (lookup key c'.pod_metrics ≡ none))
                  ⊎ ((m m' : RawNetworkMetric) × (lookup key c.pod_metrics ≡ some m)
                      × (lookup key c'.pod_metrics ≡ some m')
                      × WasReset lib.clock key m m'))))
handler-WasReset lib records enc c key = elim (handler_cases lib records enc c) [
  | inl (idle, same) ↦ rw same (refl, refl, inl (idle, refl))
  | inr (sent, reset) ↦ rw reset (refl, refl, inr (sent, waiting_metric))
]
  where
    f : ℕ → RawNetworkMetric → RawNetworkMetric
    f = reset_metric lib.clock

    waiting_metric :
        ((lookup key c.pod_metrics ≡ none) × (lookup key (map_values f c.pod_metrics) ≡ none))
        ⊎ ((m m' : RawNetworkMetric) × (lookup key c.pod_metrics ≡ some m)
            × (lookup key (map_values f c.pod_metrics) ≡ some m')
            × WasReset lib.clock key m m')
    waiting_metric =
        rw (lookup-map_values f key c.pod_metrics) (elim (Option-cases (lookup key c.pod_metrics)) [
          | inl e ↦ inl (e, rw e)
          | inr (m, e) ↦ inr (m, f key m, e, rw e, reset_metric-WasReset lib.clock key m)
        ])

module _ (net : NetAddr) (hash : List ℕ → ℕ) (must_parse : String → net.IP) where
  open net use {IP}

  collect_conn-IsCollector :
      (c : Collector IP) (conn : Entry IP)
      → IsCollector c
      → IsCollector (collect_conn net hash c conn)
  unfolding collect_conn
  collect_conn-IsCollector c conn v =
      elim (Bool-cases (c.cfg.send_traffic_delta && not c.first_collect_done)) [
        | inl s ↦ rw s (record { entries = insert-IsTable _ _ _ v.entries; metrics = v.metrics })
        | inr s ↦ rw s (record {
          entries = insert-IsTable _ _ _ (insert-IsTable _ _ _ v.entries);
          metrics = insert-IsTable _ _ _ v.metrics;
        })
      ]

  collect_conns-IsCollector :
      (c : Collector IP) (conns : List (Entry IP))
      → IsCollector c
      → IsCollector (collect_conns net hash c conns)
  unfolding collect_conns
  collect_conns-IsCollector c [] v = v
  collect_conns-IsCollector c (conn ∷ conns) v =
      collect_conns-IsCollector (collect_conn net hash c conn) conns
        (collect_conn-IsCollector c conn v)

  -- `collect` fails exactly when the pods or the connections cannot be had, and a failed
  -- collection changes nothing, so the first collection is still to come. One that succeeds runs
  -- its loop over the connections of the pods that are tracked, and is then done with the first.
  collect_cases :
      (pods : Option (List Pod)) (conntracker : EntriesFilter IP → Option (List (Entry IP)))
      (c : Collector IP)
      → let r = collect net hash must_parse pods conntracker c in
        ((r.0 ≡ c)
          × ((r.1 ≡ some getting_node_pods) × (pods ≡ none)
              ⊎ (r.1 ≡ some listing_conntrack_entries)))
        ⊎ ((r.1 ≡ none)
            × (r.0.first_collect_done ≡ true)
            × (ps : List Pod) × (conns : List (Entry IP)) × (pods ≡ some ps)
            × (conntracker (
                  filter_by_src_ip net
                    (map (λ (p : Pod). must_parse p.pod_ip) (get_node_pods c.exclude_ns_map ps)))
                ≡ some conns)
            × (r.0.pod_metrics ≡ (collect_conns net hash c conns).pod_metrics)
            × (r.0.entries_cache ≡ (collect_conns net hash c conns).entries_cache))
  unfolding collect
  collect_cases none conntracker c = inl (refl, inl (refl, refl))
  collect_cases (some pods) conntracker c =
      let ips = map (λ (p : Pod). must_parse p.pod_ip) (get_node_pods c.exclude_ns_map pods) in
      elim (Option-cases (conntracker (filter_by_src_ip net ips))) [
        | inl e ↦ inl (ground arith, inr (ground arith))
        | inr (conns, e) ↦
            inr (ground arith, ground arith, pods, conns, refl, e, ground arith, ground arith)
      ]

  step-IsCollector :
      (c : Collector IP) (event : Event IP)
      → IsCollector c
      → IsCollector (step net hash must_parse c event)
  unfolding step cleanup
  step-IsCollector c (scrape pods conntracker) v = elim (collect_cases pods conntracker c) [
    | inl (same, _) ↦ rw same v
    | inr (_, _, _, conns, _, _, m, e) ↦
        let w = collect_conns-IsCollector c conns v in
        record { entries = rw e w.entries; metrics = rw m w.metrics }
  ]
  step-IsCollector c (serve lib records enc) v = elim (handler_cases lib records enc c) [
    | inl (_, same) ↦ rw same v
    | inr (_, reset) ↦
        rw reset (record { entries = v.entries; metrics = map_values-IsTable _ _ v.metrics })
  ]
  step-IsCollector c (tidy now) v = record {
    entries = retain-IsTable _ _ v.entries;
    metrics = retain-IsTable _ _ v.metrics;
  }

  -- Over any history no key stands twice in either association list, as `lookup-cleanup` assumes.
  run-IsCollector :
      (c : Collector IP) (events : List (Event IP))
      → IsCollector c
      → IsCollector (run net hash must_parse c events)
  unfolding run
  run-IsCollector c [] v = v
  run-IsCollector c (event ∷ events) v =
      run-IsCollector (step net hash must_parse c event) events (step-IsCollector c event v)

-- `cleanup` removes the entries and the metrics whose lifetime is before `now`, and no others.
pub lookup-cleanup :
    {IP : Type 0} (now key : ℕ) (c : Collector IP)
    → IsCollector c
    → (lookup key (cleanup now c).entries_cache
        ≡ if_kept (λ e. leb now e.lifetime) (lookup key c.entries_cache))
      × (lookup key (cleanup now c).pod_metrics
          ≡ if_kept (λ m. leb now m.lifetime) (lookup key c.pod_metrics))
unfolding cleanup
lookup-cleanup now key c v = ground (
  arith,
  lookup-retain (λ (e : Entry _). not (ltb e.lifetime now)) key c.entries_cache v.entries,
  lookup-retain (λ (m : RawNetworkMetric). not (ltb m.lifetime now)) key c.pod_metrics v.metrics,
)
