-- ===== src/Exporter/Export.antt =====
-- `export` and `getCollectorPodMetricsServerURL` of exporter/exporter.go. The batches come in the
-- order in which the goroutines send them; `fetch` is `fetchRawNetworkMetricsBatch`. A log line
-- stands with the raw metric that it is about.
use egressd.Prelude.{
  ℕ, not, Option, none, some, List, [], ◌∷◌, ◌++◌, map, ◌+◌, Bool, true, false, String,
  if◌then◌else◌, ◌==◌, nat_comparable, string_comparable, length,
}
use egressd.Net.{NetAddr}
use egressd.Collector.{RawNetworkMetric}
use egressd.Collector.Handler.{RawNetworkMetricBatch}
use egressd.Kube.{Container, Pod, not_found, to_many_objects, other_error, Result, ok, err}
use egressd.Dns.{Cache}
use egressd.Dns.Resolutions.{fill}
use egressd.Exporter.{PodNetworkMetric, KubeWatcher}
use egressd.Exporter.Fetch.{Fetched, fetched, failed}
use egressd.Exporter.Build.{build_pod_network_metric, empty_metrics}

pub data LogLine : Type 0 where
  warned : RawNetworkMetric → LogLine
  errored : RawNetworkMetric → LogLine

-- The loop over the ports of a container; `some` leaves both loops. `url` is `fmt.Sprintf` of
-- "http://%s:%d".
unfoldable pub port_url : (url : String → ℕ → String) → String → List (String × ℕ) → Option String
port_url url ip [] = none
port_url url ip ((name, port) ∷ ports) =
    if name == "http-server" then some (url ip port) else port_url url ip ports

unfoldable pub container_url : (url : String → ℕ → String) → String → List Container → String
container_url url ip [] = ""
container_url url ip (cont ∷ containers) =
    let rest = container_url url ip containers in
    elim (port_url url ip cont.ports) [ none ↦ rest | some found ↦ found ]

unfoldable pub get_collector_pod_metrics_server_url : (url : String → ℕ → String) → Pod → String
get_collector_pod_metrics_server_url url pod = container_url url pod.pod_ip pod.containers

-- The batches that the goroutine of each collector sends, if any.
unfoldable pub pulled_of : Fetched RawNetworkMetricBatch → List RawNetworkMetricBatch
pulled_of (failed e) = []
pulled_of (fetched batch) = if length batch.items == 0 then [] else batch ∷ []

-- What goes through the channel of the pulled batches, and whether it is closed in the end.
pub record Pulled : Type 0 where
  pub batches : List RawNetworkMetricBatch
  pub is_closed : Bool

-- The goroutine over the collectors, the `n`-th one first: `is_done n` says whether the context is
-- done when it comes there, and then it returns at once. With a limit of no fetch at a time the
-- group never starts the first one.
unfoldable pub pull :
    (url : String → ℕ → String) (fetch : String → Fetched RawNetworkMetricBatch) (count : ℕ)
    (is_done : ℕ → Bool)
    → ℕ
    → List Pod
    → Pulled
pull url fetch count is_done n [] = record { batches = []; is_closed = true }
pull url fetch count is_done n (pod ∷ pods) =
    let found = get_collector_pod_metrics_server_url url pod in
    let rest = pull url fetch count is_done (n + 1) pods in
    if is_done n
    then record { batches = []; is_closed = false }
    else if found == ""
    then rest
    else if count == 0
    then record { batches = []; is_closed = false }
    else record rest { batches = pulled_of (fetch found) ++ rest.batches }

-- `sinks.Sink`: whether a push of the metrics fails.
abbrev pub Sink : Type 0
Sink = List PodNetworkMetric → Bool

-- How an export ends: with the error of the list of pods, in a panic, never, or with nil after its
-- pushes; of each sink, in order, what was pushed to it and whether that failed.
pub data Return : Type 0 where
  list_failed panicked blocked : Return
  returned : List (List PodNetworkMetric × Bool) → Return

-- The group of pushes. A failure is logged, and the others go on.
unfoldable pub push_all : List Sink → List PodNetworkMetric → List (List PodNetworkMetric × Bool)
push_all sinks items = map (λ (sink : Sink). (items, sink items)) sinks

module _ (net : NetAddr) (ips : Cache ℕ String) (names : Cache String String)
    (kube : KubeWatcher) where
  open kube use {State}

  -- The state of the export: the storage of names, the watcher, the metrics so far and the log.
  pub record Progress : Type 0 where
    pub storage : ips.Store
    pub watcher : State
    pub pods_metrics : List PodNetworkMetric
    pub log : List LogLine

  unfoldable pub handle_built :
      RawNetworkMetric → State → Result PodNetworkMetric → Progress → Progress
  handle_built raw s (ok metric) e = record e {
    watcher = s;
    pods_metrics = e.pods_metrics ++ metric ∷ [];
  }
  handle_built raw s (err not_found) e =
      if not (empty_metrics raw)
      then record e { watcher = s; log = e.log ++ warned raw ∷ [] }
      else record e { watcher = s }
  handle_built raw s (err to_many_objects) e = record e {
    watcher = s;
    log = e.log ++ errored raw ∷ [];
  }
  handle_built raw s (err other_error) e = record e { watcher = s; log = e.log ++ errored raw ∷ [] }

  unfoldable pub add_metric : ℕ → RawNetworkMetric → Progress → Progress
  add_metric now raw e =
      let built = build_pod_network_metric net ips names kube now e.storage raw e.watcher in
      handle_built raw built.0 built.1 e

  unfoldable pub add_items : ℕ → List RawNetworkMetric → Progress → Progress
  add_items now [] e = e
  add_items now (raw ∷ items) e = add_items now items (add_metric now raw e)

  -- The loop over the batches that were pulled.
  unfoldable pub aggregate : ℕ → List RawNetworkMetricBatch → Progress → Progress
  aggregate now [] e = e
  aggregate now (batch ∷ batches) e = aggregate now batches (
      add_items now batch.items
        (record e { storage = fill net ips names now batch.ip2domain e.storage }))

  abbrev pub fresh : ips.Store → State → Progress
  fresh storage watcher = record {
    storage = storage;
    watcher = watcher;
    pods_metrics = [];
    log = [];
  }

  -- On a channel that is never closed the loop over the batches waits for ever.
  unfoldable pub finish : List Sink → Bool → Progress → Progress × Return
  finish sinks is_closed e =
      (e, if is_closed then returned (push_all sinks e.pods_metrics) else blocked)

  -- `export`. The batches arrive in the order that `arrive` makes of that of the pods. `count` is the
  -- bit pattern of CollectorsConcurrentFetchCount, and `makes` says for which capacities the runtime
  -- makes a channel: on a negative one, or one that is too large, it panics.
  unfoldable pub export :
      (url : String → ℕ → String) (fetch : String → Fetched RawNetworkMetricBatch)
      (makes : ℕ → Bool) (count : ℕ) (is_done : ℕ → Bool)
      (arrive : List RawNetworkMetricBatch → List RawNetworkMetricBatch)
      → ℕ
      → List Sink
      → Option (List Pod)
      → ips.Store
      → State
      → Progress × Return
  export url fetch makes count is_done arrive now sinks none storage watcher =
      (fresh storage watcher, list_failed)
  export url fetch makes count is_done arrive now sinks (some items) storage watcher =
      if length items == 0
      then (fresh storage watcher, returned [])
      else if not (makes count)
      then (fresh storage watcher, panicked)
      else let pulled = pull url fetch count is_done 0 items in
        finish sinks pulled.is_closed
          (aggregate now (arrive pulled.batches) (fresh storage watcher))
