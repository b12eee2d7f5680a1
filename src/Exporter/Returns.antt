-- ===== src/Exporter/Returns.antt =====
-- How an export of exporter/exporter.go ends, and what its sinks get.
use egressd.Prelude.{
  ℕ, ◌+◌, ◌<◌, ◌≡◌, refl, ap, ◌∙◌, ◌⊎◌, inl, inr, Bool, true, false, not, ◌&&◌, ◌||◌, Option, none,
  some, List, [], ◌∷◌, ◌++◌, map, arith, String, if◌then◌else◌, ◌==◌, nat_comparable,
  string_comparable, Bool-cases, sum_by, All,
}
use mathlib.Core.List.{Perm}
use native.Mathlib.Bridge.{le_prop}
use egressd.Prelude.Reordered.{sum_by-Perm, All-IsProp, All-Perm}
use egressd.Net.{NetAddr}
use egressd.Collector.Handler.{RawNetworkMetricBatch}
use egressd.Kube.{Pod}
use egressd.Dns.{Cache}
use egressd.Exporter.{KubeWatcher}
use egressd.Exporter.Fetch.{Fetched}
use egressd.Exporter.Export.{
  get_collector_pod_metrics_server_url, pulled_of, pull, Sink, Return, list_failed, blocked,
  panicked, returned, push_all, Progress, aggregate, fresh, finish, export,
}
use egressd.Exporter.ExportLaws.{IsRaw, batch_traffic, accounted, aggregate-accounted}

-- The context is done when the goroutine comes to one of the collectors, the `n`-th one first.
abbrev pub cancelled : (is_done : ℕ → Bool) → ℕ → List Pod → Bool
cancelled is_done n [] = false
cancelled is_done n (pod ∷ pods) = is_done n || cancelled is_done (n + 1) pods

-- The goroutine waits for ever, or leaves, before it closes the channel: the context is done when it
-- comes to a collector, or it comes to one with an address and may fetch none at a time.
abbrev pub stuck :
    (url : String → ℕ → String) (count : ℕ) (is_done : ℕ → Bool) → ℕ → List Pod → Bool
stuck url count is_done n [] = false
stuck url count is_done n (pod ∷ pods) =
    is_done n
    || ((count == 0 && not (get_collector_pod_metrics_server_url url pod == ""))
        || stuck url count is_done (n + 1) pods)

-- The batches of all collectors, in order.
abbrev pub batches_of :
    (url : String → ℕ → String) (fetch : String → Fetched RawNetworkMetricBatch)
    → List Pod
    → List RawNetworkMetricBatch
batches_of url fetch [] = []
batches_of url fetch (pod ∷ pods) =
    (if get_collector_pod_metrics_server_url url pod == ""
      then []
      else pulled_of (fetch (get_collector_pod_metrics_server_url url pod)))
    ++ batches_of url fetch pods

module _ (url : String → ℕ → String) (fetch : String → Fetched RawNetworkMetricBatch)
    (makes : ℕ → Bool) (count : ℕ) (is_done : ℕ → Bool) where
  pull-is_closed :
      (n : ℕ) (pods : List Pod)
      → (pull url fetch count is_done n pods).is_closed ≡ not (stuck url count is_done n pods)
  unfolding pull
  pull-is_closed n [] = refl
  pull-is_closed n (pod ∷ pods) = ground (arith, pull-is_closed (n + 1) pods)

  stuck-cancelled :
      (n : ℕ) (pods : List Pod)
      → 0 < count
      → stuck url count is_done n pods ≡ cancelled is_done n pods
  stuck-cancelled n [] h = refl
  stuck-cancelled n (pod ∷ pods) h = ground (arith, stuck-cancelled (n + 1) pods h)

  pull-batches :
      (n : ℕ) (pods : List Pod)
      → stuck url count is_done n pods ≡ false
      → (pull url fetch count is_done n pods).batches ≡ batches_of url fetch pods
  unfolding pull
  pull-batches n [] h = refl
  pull-batches n (pod ∷ pods) h =
      let rest = pull-batches (n + 1) pods (ground arith) in
      let going : is_done n ≡ false = ground arith in
      let found = get_collector_pod_metrics_server_url url pod in
      elim (Bool-cases (found == "")) [
        | inl missing ↦ rw (going, missing) rest
        | inr at ↦
            let several : count == 0 ≡ false = ground arith in
            rw (going, at, several)
              (ap (λ (b : List RawNetworkMetricBatch). pulled_of (fetch found) ++ b) rest)
      ]

  module _ (net : NetAddr) (ips : Cache ℕ String) (names : Cache String String) (kube : KubeWatcher)
      (arrive : List RawNetworkMetricBatch → List RawNetworkMetricBatch) (now : ℕ)
      (sinks : List Sink) (storage : ips.Store) (watcher : kube.State) where
    abbrev pub run_export : Option (List Pod) → Progress net ips names kube × Return
    run_export pods =
        export net ips names kube url fetch makes count is_done arrive now sinks pods storage
          watcher

    export-cons :
        (pod : Pod) (more : List Pod)
        → makes count ≡ true
        → run_export (some (pod ∷ more))
          ≡ finish net ips names kube sinks (not (stuck url count is_done 0 (pod ∷ more))) (
              aggregate net ips names kube now
                (arrive (pull url fetch count is_done 0 (pod ∷ more)).batches)
                (fresh net ips names kube storage watcher))
    unfolding export
    export-cons pod more made = ground (arith, pull-is_closed 0 (pod ∷ more))

    -- How an export ends. It fails exactly when the pods could not be listed, and does nothing
    -- where there is no collector. Else it panics exactly when the channel cannot be made, as for a
    -- negative count of concurrent fetches. Else it never returns exactly when the context is done
    -- at the time when the goroutine comes to one of the collectors, or the count is 0 and it comes
    -- to one with an address. Else it returns nil, and has pushed the metrics that it built to each
    -- of the sinks, in their order and once, whichever of the pushes fail.
    pub export-returns :
        (pods : Option (List Pod))
        → let (end, result) = run_export pods in
          ((pods ≡ none) × (result ≡ list_failed))
          ⊎ ((pods ≡ some [])
              × (result ≡ returned [])
              × (end ≡ fresh net ips names kube storage watcher))
          ⊎ ((pod : Pod) × (more : List Pod) × (pods ≡ some (pod ∷ more))
              × (result ≡ (
                  if not (makes count)
                  then panicked
                  else if stuck url count is_done 0 (pod ∷ more)
                  then blocked
                  else returned
                      (map (λ (sink : Sink). (end.pods_metrics, sink end.pods_metrics)) sinks))))
    unfolding export finish push_all
    export-returns none = inl (refl, refl)
    export-returns (some []) = inr (inl (refl, refl, refl))
    export-returns (some (pod ∷ more)) =
        inr (inr (pod, more, refl, ground (arith, pull-is_closed 0 (pod ∷ more))))

    IsRaw-IsProp : (b : RawNetworkMetricBatch) → IsProp (All IsRaw b.items)
    IsRaw-IsProp b = All-IsProp (λ m. le_prop) b.items

    -- An export of collectors with room for a fetch, in a context that is not done, returns nil after it has given all
    -- of its metrics to each sink, whichever of the pushes fail. The bytes and packets of these
    -- metrics, together with those that the log names, are those of the batches of the collectors,
    -- in whatever order they arrive.
    pub export-accounted :
        (pod : Pod) (more : List Pod)
        → ((bs : List RawNetworkMetricBatch) → Perm bs (arrive bs))
        → All (λ (b : RawNetworkMetricBatch). All IsRaw b.items) (batches_of url fetch (pod ∷ more))
        → makes count ≡ true
        → 0 < count
        → cancelled is_done 0 (pod ∷ more) ≡ false
        → let (end, result) = run_export (some (pod ∷ more)) in
          (result
            ≡ returned (map (λ (sink : Sink). (end.pods_metrics, sink end.pods_metrics)) sinks))
          × (accounted net ips names kube end
              ≡ sum_by batch_traffic (batches_of url fetch (pod ∷ more)))
    unfolding finish push_all
    export-accounted pod more reordered raw made room going =
        let open_ = stuck-cancelled 0 (pod ∷ more) room ∙ going in
        let same = pull-batches 0 (pod ∷ more) open_ in
        let order = reordered (batches_of url fetch (pod ∷ more)) in
        let sum =
          aggregate-accounted net ips names kube now (arrive (batches_of url fetch (pod ∷ more)))
            (fresh net ips names kube storage watcher)
            (All-Perm (λ (b : RawNetworkMetricBatch). All IsRaw b.items) IsRaw-IsProp order raw) in
        rw (export-cons pod more made, same, open_)
          (refl, omega (arith, sum, sum_by-Perm batch_traffic order))
