-- ===== src/Pipeline/Sites.antt =====
-- What the request of an export gets from a collector: GetRawNetworkMetricsHandler of
-- collector/collector.go against fetchRawNetworkMetricsBatch of exporter/exporter.go.
use egressd.Prelude.{
  ℕ, ◌≡◌, Bool, true, false, not, ◌&&◌, ◌||◌, none, some, List, [], map, String, if◌then◌else◌,
  ◌==◌, nat_comparable, string_comparable, sum_by, All,
}
use Prim.Native.String.{◌++◌ as str_append}
use egressd.Prelude.Table.{total, values}
use egressd.Collector.{RawNetworkMetric, Collector}
use egressd.Collector.Handler.{
  Library, Ip2Domain, RawNetworkMetricBatch, Response, internal_server_error, plain_body, gzip_body,
  truncated_body, gzip_name, batch_of, get_raw_network_metrics_handler,
}
use egressd.Collector.Ledger.{is_sent, is_truncated}
use egressd.Kube.{Pod}
use egressd.Exporter.Fetch.{
  HttpAnswer, HttpClient, Fetched, fetched, failed, sending, reading_body, bad_status, metrics_path,
}
use egressd.Exporter.Export.{get_collector_pod_metrics_server_url}
use egressd.Exporter.ExportLaws.{IsRaw, raw_traffic}

-- A collector, with what its libraries answer, the names that it knows, and whether its response
-- reaches the exporter as it was written: the connection can break after the handler is done.
pub record Site (IP : Type 0) : Type 0 where
  pub pod : Pod
  pub collector : Collector IP
  pub lib : Library
  pub records : List Ip2Domain
  pub arrives : Bool

-- The message leaves out the lifetime, which the collector keeps beside it.
abbrev pub message : RawNetworkMetricBatch → RawNetworkMetricBatch
message b = record b { items = map (λ (m : RawNetworkMetric). record m { lifetime = 0 }) b.items }

-- What the client of net/http hands over, as documented: it asks for gzip and undoes it. A
-- compressed body that breaks off cannot be read to its end.
abbrev pub answer_of : (gunzip : List ℕ → List ℕ) → Response → HttpAnswer
answer_of gunzip internal_server_error = record { status = 500; body = some [] }
answer_of gunzip (plain_body body) = record { status = 200; body = some body }
answer_of gunzip (gzip_body body) = record { status = 200; body = some (gunzip body) }
answer_of gunzip truncated_body = record { status = 200; body = none }

abbrev pub IsRawBatch : RawNetworkMetricBatch → Type 0
IsRawBatch b = All IsRaw b.items

module _ {IP : Type 0} where
  -- The collector and its response after a request of the exporter.
  abbrev pub asked : Site IP → Collector IP × Response
  asked s = get_raw_network_metrics_handler s.lib s.records gzip_name s.collector

  abbrev pub waiting : Site IP → ℕ
  waiting s = total raw_traffic s.collector.pod_metrics

  abbrev pub waiting_after : Site IP → ℕ
  waiting_after s = total raw_traffic (asked s).0.pod_metrics

  -- The traffic of a batch that the collector takes for sent although the exporter does not get it.
  abbrev pub lost : Site IP → ℕ
  lost s =
      let batch = sum_by raw_traffic (batch_of s.records s.collector).items in
      if is_truncated (asked s).1 || (is_sent (asked s).1 && not s.arrives) then batch else 0

  -- The exporter reaches a collector that sends deltas at the address of its pod, and the two agree
  -- on gzip and on the messages of protobuf.
  pub record Reaches (url : String → ℕ → String) (client : HttpClient) (gunzip : List ℕ → List ℕ)
      (s : Site IP) : Type 0 where
    pub has_url : get_collector_pod_metrics_server_url url s.pod == "" ≡ false
    pub made :
        client.new_request
          (str_append (get_collector_pod_metrics_server_url url s.pod) metrics_path)
        ≡ true
    pub answer :
        client.do_get (str_append (get_collector_pod_metrics_server_url url s.pod) metrics_path)
        ≡ (if s.arrives then some (answer_of gunzip (asked s).1) else none)
    pub unzipped : (bytes : List ℕ) → gunzip (s.lib.gzip bytes) ≡ bytes
    pub decoded :
        (bytes : List ℕ)
        → s.lib.marshal (batch_of s.records s.collector) ≡ some bytes
        → client.unmarshal bytes ≡ some (message (batch_of s.records s.collector))
    pub delta : s.collector.cfg.send_traffic_delta ≡ true
    pub raw : All IsRaw (values s.collector.pod_metrics)

  -- What a request gives the exporter.
  abbrev pub outcome_of : Site IP → Fetched RawNetworkMetricBatch
  outcome_of s =
      if not s.arrives
      then failed sending
      else if is_truncated (asked s).1
      then failed reading_body
      else if is_sent (asked s).1
      then fetched (message (batch_of s.records s.collector))
      else failed (bad_status 500)

  abbrev pub pods_of : List (Site IP) → List Pod
  pods_of sites = map (λ (s : Site IP). s.pod) sites
