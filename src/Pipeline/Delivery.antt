-- ===== src/Pipeline/Delivery.antt =====
-- From the collectors of collector/collector.go to the sinks of exporter/exporter.go, in one
-- export.
use egressd.Prelude.{
  ℕ, ◌+◌, ◌<◌, ◌≡◌, Bool, true, false, some, List, ◌∷◌, map, arith, String, nat_comparable,
  string_comparable, sum_by, All,
}
use mathlib.Core.List.{Perm}
use egressd.Net.{NetAddr}
use egressd.Collector.Handler.{RawNetworkMetricBatch}
use egressd.Dns.{Cache}
use egressd.Exporter.{KubeWatcher}
use egressd.Exporter.Fetch.{HttpClient, fetch_raw_network_metrics_batch}
use egressd.Exporter.Export.{Sink, returned, export}
use egressd.Exporter.ExportLaws.{accounted}
use egressd.Exporter.Returns.{cancelled, export-accounted}
use egressd.Pipeline.Sites.{Site, waiting, waiting_after, lost, Reaches, pods_of}
use egressd.Pipeline.SiteLaws.{batches_of-sites}

-- One export moves traffic from the collectors to the sinks. If there is a collector, the exporter
-- may fetch from one at least at a time, it reaches each of those that it lists, they send deltas
-- with destinations below 2 ^ 32, and the context is not done, then it returns nil after it has
-- pushed all of its metrics to each of the sinks, in their order and once, whichever of the pushes
-- fail. The bytes and packets that waited in the collectors before are those that wait in them after
-- their requests, and those of the metrics, and those that the log of the export names, and those of
-- the batches that are lost: of a response that a collector took for written although its gzip
-- writer could not be closed, or the exporter did not get it. It is so whichever collectors answer
-- with an error, and in whatever order the batches arrive.
pub export-delivers :
    (net : NetAddr) (ips : Cache ℕ String) (names : Cache String String) (kube : KubeWatcher)
    (url : String → ℕ → String) (client : HttpClient) (gunzip : List ℕ → List ℕ) (makes : ℕ → Bool)
    (count : ℕ) (is_done : ℕ → Bool)
    (arrive : List RawNetworkMetricBatch → List RawNetworkMetricBatch) (now : ℕ) (sinks : List Sink)
    (storage : ips.Store) (watcher : kube.State) (site : Site net.IP) (sites : List (Site net.IP))
    → let all = site ∷ sites in
      let pods = pods_of all in
      ((bs : List RawNetworkMetricBatch) → Perm bs (arrive bs))
      → All (Reaches url client gunzip) all
      → makes count ≡ true
      → 0 < count
      → cancelled is_done 0 pods ≡ false
      → let (end, result) =
          export net ips names kube url
            (fetch_raw_network_metrics_batch client)
            makes
            count
            is_done
            arrive
            now
            sinks
            (some pods)
            storage
            watcher in
        (result ≡ returned (map (λ (sink : Sink). (end.pods_metrics, sink end.pods_metrics)) sinks))
        × (sum_by waiting_after all + sum_by lost all + accounted net ips names kube end
            ≡ sum_by waiting all)
export-delivers net ips names kube url client gunzip makes count is_done arrive now sinks storage
      watcher site sites reordered reached made room going =
    let (sum, raw) = batches_of-sites url client gunzip (site ∷ sites) reached in
    let (result, accounts) =
      export-accounted url (fetch_raw_network_metrics_batch client) makes count is_done net ips
        names kube arrive now sinks storage watcher site.pod (pods_of sites) reordered raw made room
        going in
    (result, omega (arith, sum, accounts))
