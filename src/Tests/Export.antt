-- ===== src/Tests/Export.antt =====
-- An export of four collectors, one of which fails to answer, one whose response breaks off and one
-- whose response is lost, to two sinks, one of which fails.
use egressd.Prelude.{
  ℕ, ◌+◌, ◌≡◌, refl, ◌⊎◌, Bool, true, false, not, none, some, List, [], ◌∷◌, map, arith, String,
  if◌then◌else◌, ◌==◌, nat_comparable, string_comparable, sum_by,
}
use mathlib.Core.List.Perm as Perms
use egressd.Prelude.Table.{values}
use egressd.Collector.{Collector}
use egressd.Collector.Handler.{Library, batch_of}
use egressd.Kube.{Pod}
use egressd.Exporter.Fetch.{HttpClient, fetch_raw_network_metrics_batch}
use egressd.Exporter.Export.{
  port_url, container_url, get_collector_pod_metrics_server_url, Sink, list_failed, panicked,
  blocked, returned, fresh, export,
}
use egressd.Exporter.ExportLaws.{accounted}
use egressd.Exporter.Returns.{stuck, run_export, export-returns}
use egressd.Pipeline.Sites.{
  Site, asked, answer_of, message, waiting, waiting_after, lost, Reaches, pods_of,
}
use egressd.Pipeline.Delivery.{export-delivers}
use egressd.Tests.Net.{Address, test_net}
use egressd.Tests.Dns.{ips, names}
use egressd.Tests.Collector.{start as empty_collector}
use egressd.Tests.Exporter.{watcher, storage, to_public, collector_pod}

abbrev one_metric : Collector Address
one_metric = record empty_collector { pod_metrics = (7, to_public) ∷ [] }

abbrev answering : Library
answering = record {
  marshal = λ b. some [];
  gzip = λ b. b;
  gzip_writer_made = true;
  write_succeeds = true;
  close_succeeds = true;
  clock = λ key. 0;
}

abbrev first : Site Address
first = record {
  pod = collector_pod;
  collector = one_metric;
  lib = answering;
  records = [];
  arrives = true;
}

abbrev second : Site Address
second = record {
  pod = record collector_pod { pod_ip = "10.0.0.2" };
  collector = one_metric;
  lib = record answering { write_succeeds = false };
  records = [];
  arrives = true;
}

-- Its gzip writer cannot be closed.
abbrev third : Site Address
third = record first {
  pod = record collector_pod { pod_ip = "10.0.0.3" };
  lib = record answering { close_succeeds = false };
}

-- Its response does not come through.
abbrev fourth : Site Address
fourth = record first { pod = record collector_pod { pod_ip = "10.0.0.4" }; arrives = false }

abbrev sites : List (Site Address)
sites = second ∷ third ∷ fourth ∷ []

abbrev url : String → ℕ → String
url ip port = ip

abbrev client : HttpClient
client = record {
  new_request = λ u. true;
  do_get = λ u.
      (if u == "10.0.0.4/api/v1/raw-network-metrics"
        then none
        else some (
            answer_of (λ b. b)
              (if u == "10.0.0.2/api/v1/raw-network-metrics"
                then (asked second).1
                else if u == "10.0.0.3/api/v1/raw-network-metrics"
                then (asked third).1
                else (asked first).1)));
  unmarshal = λ bytes. some (message (batch_of [] one_metric));
}

first-Reaches : Reaches url client (λ b. b) first
unfolding get_collector_pod_metrics_server_url container_url port_url values
first-Reaches = record {
  has_url = refl;
  made = refl;
  answer = refl;
  unzipped = λ bytes. refl;
  decoded = λ bytes e. refl;
  delta = refl;
  raw = (omega arith, tt);
}

second-Reaches : Reaches url client (λ b. b) second
unfolding get_collector_pod_metrics_server_url container_url port_url values
second-Reaches = record {
  has_url = refl;
  made = refl;
  answer = refl;
  unzipped = λ bytes. refl;
  decoded = λ bytes e. refl;
  delta = refl;
  raw = (omega arith, tt);
}

third-Reaches : Reaches url client (λ b. b) third
unfolding get_collector_pod_metrics_server_url container_url port_url values
third-Reaches = record {
  has_url = refl;
  made = refl;
  answer = refl;
  unzipped = λ bytes. refl;
  decoded = λ bytes e. refl;
  delta = refl;
  raw = (omega arith, tt);
}

fourth-Reaches : Reaches url client (λ b. b) fourth
unfolding get_collector_pod_metrics_server_url container_url port_url values
fourth-Reaches = record {
  has_url = refl;
  made = refl;
  answer = refl;
  unzipped = λ bytes. refl;
  decoded = λ bytes e. refl;
  delta = refl;
  raw = (omega arith, tt);
}

abbrev sinks : List Sink
sinks = (λ items. true) ∷ (λ items. false) ∷ []

export-delivers_example :
    let (end, result) =
      export test_net ips names watcher url
        (fetch_raw_network_metrics_batch client)
        (λ n. true)
        20
        (λ n. false)
        (λ bs. bs)
        50
        sinks
        (some (pods_of (first ∷ sites)))
        storage
        0 in
    (result ≡ returned (map (λ (sink : Sink). (end.pods_metrics, sink end.pods_metrics)) sinks))
    × (sum_by waiting_after (first ∷ sites)
          + sum_by lost (first ∷ sites)
          + accounted test_net ips names watcher end
        ≡ sum_by waiting (first ∷ sites))
export-delivers_example =
    export-delivers test_net ips names watcher url client (λ b. b) (λ n. true) 20 (λ n. false)
      (λ bs. bs) 50 sinks storage 0 first sites (λ bs. Perms.refl bs)
      (first-Reaches, (second-Reaches, (third-Reaches, (fourth-Reaches, tt)))) refl (omega arith)
      refl

abbrev done_at_second : ℕ → Bool
done_at_second n = n == 1

export-returns_example :
    let pods = some (first.pod ∷ second.pod ∷ []) in
    let fetch = fetch_raw_network_metrics_batch client in
    let (end, result) =
      run_export url fetch
        (λ n. true)
        20
        done_at_second
        test_net
        ips
        names
        watcher
        (λ bs. bs)
        50
        sinks
        storage
        0
        pods in
    ((pods ≡ none) × (result ≡ list_failed))
    ⊎ ((pods ≡ some [])
        × (result ≡ returned [])
        × (end ≡ fresh test_net ips names watcher storage 0))
    ⊎ ((pod : Pod) × (more : List Pod) × (pods ≡ some (pod ∷ more))
        × (result ≡ (
            if not true
            then panicked
            else if stuck url 20 done_at_second 0 (pod ∷ more)
            then blocked
            else returned
                (map (λ (sink : Sink). (end.pods_metrics, sink end.pods_metrics)) sinks))))
export-returns_example =
    export-returns url (fetch_raw_network_metrics_batch client) (λ n. true) 20 done_at_second
      test_net ips names watcher (λ bs. bs) 50 sinks storage 0 (some (first.pod ∷ second.pod ∷ []))
