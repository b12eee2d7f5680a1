-- ===== src/Collector/Ledger.antt =====
-- The collector of collector/collector.go over a history of collections, requests and cleanups,
-- in any order: the mutex makes each of them one step.
use egressd.Prelude.{
  ℕ, ◌+◌, ◌%◌, ◌≡◌, refl, ap, ◌∙◌, inl, inr, Bool, true, false, not, Option, none, some, List, [],
  ◌∷◌, map, arith, String, ltb, if◌then◌else◌, nat_comparable, string_comparable, Option-cases,
  sum_by,
}
use egressd.Prelude.Table.{retain, total, total-retain, total-map_values, sum_by-values}
use egressd.Net.{NetAddr}
use egressd.Conntrack.{
  Entry, EntriesFilter, filter_by_src_ip, Counter, tx_bytes, tx_packets, rx_bytes, rx_packets,
  u64_mod,
}
use egressd.Collector.{Config, RawNetworkMetric, Collector}
use egressd.Collector.Collect.{Pod, collect_conn, collect_conns, get_node_pods, collect, cleanup}
use egressd.Collector.Handler.{
  Library, Ip2Domain, Response, internal_server_error, plain_body, gzip_body, truncated_body,
  reset_metric, batch_of, get_raw_network_metrics_handler,
}
use egressd.Collector.Traffic.{read_metric, recorded, pending, collect_conns-pending}

pub data Event (IP : Type 0) : Type 0 where
  scrape : Option (List Pod) → (EntriesFilter IP → Option (List (Entry IP))) → Event IP
  serve : Library → List Ip2Domain → List ℕ → Event IP
  tidy : ℕ → Event IP

-- The response carries the batch, or breaks off with the status 200.
abbrev pub is_sent : Response → Bool
is_sent internal_server_error = false
is_sent (plain_body body) = true
is_sent (gzip_body body) = true
is_sent truncated_body = false

abbrev pub is_truncated : Response → Bool
is_truncated internal_server_error = false
is_truncated (plain_body body) = false
is_truncated (gzip_body body) = false
is_truncated truncated_body = true

read_metric-reset_metric :
    (k : Counter) (clock : ℕ → ℕ) (key : ℕ) (m : RawNetworkMetric)
    → read_metric k (reset_metric clock key m) ≡ 0
unfolding reset_metric
read_metric-reset_metric tx_bytes clock key m = refl
read_metric-reset_metric tx_packets clock key m = refl
read_metric-reset_metric rx_bytes clock key m = refl
read_metric-reset_metric rx_packets clock key m = refl

-- A request in delta mode: what waits afterwards, what the response hands over, and what a truncated
-- one loses, of any quantity that a reset sets to zero, are what waited before.
pub handler-total :
    {IP : Type 0} (f : RawNetworkMetric → ℕ)
    → ((clock : ℕ → ℕ) (key : ℕ) (m : RawNetworkMetric) → f (reset_metric clock key m) ≡ 0)
    → (c : Collector IP) (lib : Library) (records : List Ip2Domain) (enc : List ℕ)
    → c.cfg.send_traffic_delta ≡ true
    → let (c', response) = get_raw_network_metrics_handler lib records enc c in
      let batch = sum_by f (batch_of records c).items in
      total f c'.pod_metrics
        + (if is_sent response then batch else 0)
        + (if is_truncated response then batch else 0)
      ≡ total f c.pod_metrics
unfolding get_raw_network_metrics_handler
handler-total f zeroes c lib records enc delta = ground (
  arith,
  sum_by-values f c.pod_metrics,
  total-map_values f (reset_metric lib.clock) c.pod_metrics (zeroes lib.clock),
)

module _ (net : NetAddr) (hash : List ℕ → ℕ) (must_parse : String → net.IP) where
  open net use {IP}

  unfoldable pub step : Collector IP → Event IP → Collector IP
  step c (scrape pods conntracker) = (collect net hash must_parse pods conntracker c).0
  step c (serve lib records enc) = (get_raw_network_metrics_handler lib records enc c).0
  step c (tidy now) = cleanup now c

  unfoldable pub run : Collector IP → List (Event IP) → Collector IP
  run c [] = c
  run c (event ∷ events) = run (step c event) events

  -- The connections that a successful collection goes through.
  abbrev listed :
      Collector IP
      → Option (List Pod)
      → (EntriesFilter IP → Option (List (Entry IP)))
      → List (Entry IP)
  listed c none conntracker = []
  listed c (some pods) conntracker =
      let ips = map (λ (p : Pod). must_parse p.pod_ip) (get_node_pods c.exclude_ns_map pods) in
      elim (conntracker (filter_by_src_ip net ips)) [ none ↦ [] | some conns ↦ conns ]

  pub sum_over : (Collector IP → Event IP → ℕ) → Collector IP → List (Event IP) → ℕ
  sum_over f c [] = 0
  sum_over f c (event ∷ events) = f c event + sum_over f (step c event) events

  module _ (k : Counter) where
    -- What the step records, hands over in a response, loses with a truncated one, and throws away
    -- with an expired metric.
    pub recorded_by : Collector IP → Event IP → ℕ
    recorded_by c (scrape pods conntracker) = recorded net hash k c (listed c pods conntracker)
    recorded_by c (serve lib records enc) = 0
    recorded_by c (tidy now) = 0

    pub delivered_by : Collector IP → Event IP → ℕ
    delivered_by c (scrape pods conntracker) = 0
    delivered_by c (serve lib records enc) =
        if is_sent (get_raw_network_metrics_handler lib records enc c).1
        then sum_by (read_metric k) (batch_of records c).items
        else 0
    delivered_by c (tidy now) = 0

    pub lost_by : Collector IP → Event IP → ℕ
    lost_by c (scrape pods conntracker) = 0
    lost_by c (serve lib records enc) =
        if is_truncated (get_raw_network_metrics_handler lib records enc c).1
        then sum_by (read_metric k) (batch_of records c).items
        else 0
    lost_by c (tidy now) = 0

    pub dropped_by : Collector IP → Event IP → ℕ
    dropped_by c (scrape pods conntracker) = 0
    dropped_by c (serve lib records enc) = 0
    dropped_by c (tidy now) =
        total (read_metric k) (retain (λ m. not (not (ltb m.lifetime now))) c.pod_metrics)

    abbrev waiting : Collector IP → ℕ
    waiting = pending net hash k

    collect-pending :
        (c : Collector IP) (pods : Option (List Pod))
        (conntracker : EntriesFilter IP → Option (List (Entry IP)))
        → waiting (collect net hash must_parse pods conntracker c).0 % u64_mod
          ≡ (waiting c + recorded net hash k c (listed c pods conntracker)) % u64_mod
    unfolding collect recorded
    collect-pending c none conntracker = omega arith
    collect-pending c (some pods) conntracker =
        let ips = map (λ (p : Pod). must_parse p.pod_ip) (get_node_pods c.exclude_ns_map pods) in
        elim (Option-cases (conntracker (filter_by_src_ip net ips))) [
          | inl e ↦ ground arith
          | inr (conns, e) ↦ ground (arith, collect_conns-pending net hash k c conns)
        ]

    collect-cfg :
        (c : Collector IP) (conns : List (Entry IP)) → (collect_conns net hash c conns).cfg ≡ c.cfg
    unfolding collect_conns collect_conn
    collect-cfg c [] = refl
    collect-cfg c (conn ∷ conns) = ground (arith, collect-cfg (collect_conn net hash c conn) conns)

    step-cfg : (c : Collector IP) (event : Event IP) → (step c event).cfg ≡ c.cfg
    unfolding step collect get_raw_network_metrics_handler cleanup
    step-cfg c (scrape none conntracker) = refl
    step-cfg c (scrape (some pods) conntracker) =
        let ips = map (λ (p : Pod). must_parse p.pod_ip) (get_node_pods c.exclude_ns_map pods) in
        elim (Option-cases (conntracker (filter_by_src_ip net ips))) [
          | inl e ↦ ground arith
          | inr (conns, e) ↦ ground (arith, collect-cfg c conns)
        ]
    step-cfg c (serve lib records enc) = ground arith
    step-cfg c (tidy now) = refl

    step-waiting :
        (c : Collector IP) (event : Event IP)
        → c.cfg.send_traffic_delta ≡ true
        → (waiting (step c event) + delivered_by c event + lost_by c event + dropped_by c event)
            % u64_mod
          ≡ (waiting c + recorded_by c event) % u64_mod
    unfolding step recorded_by delivered_by lost_by dropped_by cleanup
    step-waiting c (scrape pods conntracker) delta =
        omega (arith, collect-pending c pods conntracker)
    step-waiting c (serve lib records enc) delta =
        ground (
          arith,
          handler-total (read_metric k) (read_metric-reset_metric k) c lib records enc delta,
        )
    step-waiting c (tidy now) delta =
        omega (arith, total-retain (read_metric k) (λ m. not (ltb m.lifetime now)) c.pod_metrics)

    -- In delta mode, over any history and for each of the four counters: what waits at the end, the
    -- batches of the responses that carry one, the batches of those that break off because the gzip
    -- writer could not be closed, and what cleanups threw away are together what waited at the
    -- start and what the collections recorded, modulo 2 ^ 64. So a request that is answered with an
    -- error loses nothing, and one whose response breaks off loses the counters of its batch.
    pub run-waiting :
        (c : Collector IP) (events : List (Event IP))
        → c.cfg.send_traffic_delta ≡ true
        → (waiting (run c events)
              + sum_over delivered_by c events
              + sum_over lost_by c events
              + sum_over dropped_by c events)
            % u64_mod
          ≡ (waiting c + sum_over recorded_by c events) % u64_mod
    unfolding run sum_over
    run-waiting c [] delta = omega arith
    run-waiting c (event ∷ events) delta = omega (
      arith,
      step-waiting c event delta,
      run-waiting (step c event) events
          (ap (λ (g : Config). g.send_traffic_delta) (step-cfg c event) ∙ delta),
    )
