-- ===== src/Tests/Collector.antt =====
-- The theorems on the collector over concrete connections and histories.
use egressd.Prelude.{
  ℕ, ◌+◌, ◌*◌, ◌%◌, ◌^◌, ◌<◌, ◌≡◌, refl, ◌↔◌, ◌⊎◌, Bool, true, false, Option, none, some, List, [],
  ◌∷◌, arith, String, leb, nat_comparable, string_comparable, keep,
}
use egressd.Prelude.Table.{lookup, insert, values, if_kept}
use egressd.Conntrack.{Entry, IsEntry, EntriesFilter, tx_bytes, rx_bytes, u64_mod}
use egressd.Collector.{
  Config, RawNetworkMetric, Collector, conntrack_entry_key, entry_group_key, entry_bytes,
  group_bytes,
}
use egressd.Collector.Collect.{
  Pod, collect_conn, collect_conns, cleanup, traffic_since, growth, group_public, merge_metric,
}
use egressd.Collector.Handler.{Library, get_raw_network_metrics_handler}
use egressd.Collector.Traffic.{recorded, recorded_in, pending, pending_in, collect_conns-pending_in}
use egressd.Collector.Climb.{last_reading, last_seen, OfKey, recorded-last_reading}
use egressd.Collector.Keys.{entry_bytes_iff, group_bytes_iff}
use egressd.Collector.Ledger.{
  Event, scrape, serve, tidy, run, sum_over, recorded_by, delivered_by, lost_by, dropped_by,
  run-waiting,
}
use egressd.Collector.Invariant.{IsCollector, lookup-cleanup, handler-WasReset, is_reset, WasReset}
use egressd.Tests.Net.{Address, test_net, pod_ip, public_ip, at_port}

abbrev hash : List ℕ → ℕ
hash [] = 7
hash (b ∷ bs) = (31 * hash bs + b) % 2 ^ 64

abbrev delta_config : Config
delta_config = record {
  read_interval = 5;
  cleanup_interval = 60;
  node_name = "node";
  exclude_namespaces = "";
  group_public_ips = true;
  send_traffic_delta = true;
  log_entries = false;
}

abbrev pub start : Collector Address
start = record {
  cfg = delta_config;
  entries_cache = [];
  pod_metrics = [];
  exclude_ns_map = [];
  first_collect_done = true;
}

abbrev conn_at : ℕ → Entry Address
conn_at bytes = record {
  src = at_port pod_ip 40000;
  dst = at_port public_ip 443;
  tx_bytes = bytes;
  tx_packets = 1;
  rx_bytes = 3 * bytes;
  rx_packets = 2;
  lifetime = 1000;
  proto = 6;
}

conn_at-IsEntry : (bytes : ℕ) → bytes < 1000 → IsEntry (conn_at bytes)
conn_at-IsEntry bytes h = record {
  src_port = omega arith;
  dst_port = omega arith;
  tx_bytes = omega arith;
  tx_packets = omega arith;
  rx_bytes = omega arith;
  rx_packets = omega arith;
  proto = omega arith;
}

abbrev conn_key : ℕ
conn_key = hash (10 ∷ 0 ∷ 0 ∷ 7 ∷ 64 ∷ 156 ∷ 8 ∷ 8 ∷ 4 ∷ 4 ∷ 187 ∷ 1 ∷ 6 ∷ [])

key_computes : (bytes : ℕ) → conntrack_entry_key test_net hash (conn_at bytes) ≡ conn_key
unfolding conntrack_entry_key
key_computes bytes = refl

abbrev readings : List (Entry Address)
readings = conn_at 100 ∷ conn_at 250 ∷ conn_at 400 ∷ []

readings-OfKey : OfKey test_net hash tx_bytes conn_key readings
readings-OfKey = (
  (key_computes 100, conn_at-IsEntry 100 (omega arith)),
  (
    (key_computes 250, conn_at-IsEntry 250 (omega arith)),
    ((key_computes 400, conn_at-IsEntry 400 (omega arith)), tt),
  ),
)

start_waiting : lookup conn_key start.entries_cache ≡ none
unfolding lookup
start_waiting = refl

collect_conns-pending_in_example :
    pending_in test_net hash rx_bytes 5 (collect_conns test_net hash start readings) % u64_mod
    ≡ (pending_in test_net hash rx_bytes 5 start
        + recorded_in test_net hash rx_bytes 5 start readings)
      % u64_mod
collect_conns-pending_in_example = collect_conns-pending_in test_net hash rx_bytes 5 start readings

recorded-last_reading_example :
    recorded test_net hash tx_bytes start readings + last_seen test_net hash tx_bytes conn_key start
    ≡ last_reading tx_bytes (last_seen test_net hash tx_bytes conn_key start) readings
unfolding lookup
recorded-last_reading_example =
    recorded-last_reading test_net hash tx_bytes conn_key start readings refl readings-OfKey
      (omega arith)

-- Three readings add up to the last one, under the group of the address 0.0.0.0.
readings_collected :
    values (collect_conns test_net hash start readings).pod_metrics
    ≡ record {
      src_ip = 167772167;
      dst_ip = 0;
      tx_bytes = 400;
      tx_packets = 1;
      rx_bytes = 1200;
      rx_packets = 2;
      proto = 6;
      lifetime = 1000;
    }
      ∷ []
unfolding collect_conns collect_conn lookup insert traffic_since growth group_public merge_metric
    values conntrack_entry_key entry_group_key
readings_collected = refl

entry_bytes_iff_example :
    (entry_bytes test_net hash (conn_at 1) ≡ entry_bytes test_net hash (conn_at 2)) ↔ (
      ((conn_at 1).src ≡ (conn_at 2).src)
      × ((conn_at 1).dst ≡ (conn_at 2).dst)
      × ((conn_at 1).proto ≡ (conn_at 2).proto))
entry_bytes_iff_example =
    entry_bytes_iff test_net hash (conn_at 1) (conn_at 2) (conn_at-IsEntry 1 (omega arith))
      (conn_at-IsEntry 2 (omega arith))

group_bytes_iff_example :
    (group_bytes test_net hash (conn_at 1) ≡ group_bytes test_net hash (conn_at 2)) ↔ (
      ((conn_at 1).src.ip ≡ (conn_at 2).src.ip)
      × ((conn_at 1).dst.ip ≡ (conn_at 2).dst.ip)
      × ((conn_at 1).proto ≡ (conn_at 2).proto))
group_bytes_iff_example = group_bytes_iff test_net hash (conn_at 1) (conn_at 2)

abbrev lib : Bool → Library
lib write_succeeds = record {
  marshal = λ b. some (1 ∷ 2 ∷ []);
  gzip = λ b. 31 ∷ b;
  gzip_writer_made = true;
  write_succeeds = write_succeeds;
  close_succeeds = true;
  clock = λ key. 0;
}

abbrev cut_off : Library
cut_off = record (lib true) { close_succeeds = false }

abbrev must_parse : String → Address
must_parse s = pod_ip

abbrev pods : List Pod
pods =
    record { name = "api"; namespace = "default"; pod_ip = "10.0.0.7"; host_network = false }
    ∷ record { name = "proxy"; namespace = "kube-system"; pod_ip = "10.0.0.2"; host_network = true }
    ∷ []

abbrev conntracker : List (Entry Address) → EntriesFilter Address → Option (List (Entry Address))
conntracker es filter = some (keep filter es)

-- Three collections with a request after each of them, one that fails, one that succeeds and one
-- whose response breaks off, and a cleanup.
abbrev history : List (Event Address)
history =
    scrape (some pods) (conntracker (conn_at 100 ∷ []))
    ∷ serve (lib false) [] []
    ∷ scrape (some pods) (conntracker (conn_at 250 ∷ []))
    ∷ serve (lib true) [] (b'G' ∷ b'z' ∷ b'i' ∷ b'p' ∷ [])
    ∷ scrape (some pods) (conntracker (conn_at 400 ∷ []))
    ∷ serve cut_off [] (b'G' ∷ b'z' ∷ b'i' ∷ b'p' ∷ [])
    ∷ tidy 2000
    ∷ []

run-waiting_example :
    (pending test_net hash tx_bytes (run test_net hash must_parse start history)
        + sum_over test_net hash must_parse
            (delivered_by test_net hash must_parse tx_bytes)
            start
            history
        + sum_over test_net hash must_parse
            (lost_by test_net hash must_parse tx_bytes)
            start
            history
        + sum_over test_net hash must_parse
            (dropped_by test_net hash must_parse tx_bytes)
            start
            history)
      % u64_mod
    ≡ (pending test_net hash tx_bytes start
        + sum_over test_net hash must_parse
            (recorded_by test_net hash must_parse tx_bytes)
            start
            history)
      % u64_mod
run-waiting_example = run-waiting test_net hash must_parse tx_bytes start history refl

start-IsCollector : IsCollector start
start-IsCollector = record { entries = tt; metrics = tt }

lookup-cleanup_example :
    (lookup conn_key (cleanup 1001 start).entries_cache
      ≡ if_kept (λ (e : Entry Address). leb 1001 e.lifetime) (lookup conn_key start.entries_cache))
    × (lookup conn_key (cleanup 1001 start).pod_metrics
        ≡ if_kept
            (λ (m : RawNetworkMetric). leb 1001 m.lifetime)
            (lookup conn_key start.pod_metrics))
lookup-cleanup_example = lookup-cleanup 1001 conn_key start start-IsCollector

handler-WasReset_example :
    let c' = (get_raw_network_metrics_handler (lib true) [] [] start).0 in
    (c'.entries_cache ≡ start.entries_cache)
    × (c'.first_collect_done ≡ start.first_collect_done)
    × (((is_reset (lib true) [] [] start ≡ false) × (c' ≡ start))
        ⊎ ((is_reset (lib true) [] [] start ≡ true)
            × (((lookup 5 start.pod_metrics ≡ none) × (lookup 5 c'.pod_metrics ≡ none))
                ⊎ ((m m' : RawNetworkMetric) × (lookup 5 start.pod_metrics ≡ some m)
                    × (lookup 5 c'.pod_metrics ≡ some m')
                    × WasReset (lib true).clock 5 m m'))))
handler-WasReset_example = handler-WasReset (lib true) [] [] start 5
