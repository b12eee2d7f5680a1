-- ===== src/Pipeline/SiteLaws.antt =====
-- What the collector of a site hands over in a request, and that it no longer holds it.
use egressd.Prelude.{
  ℕ, ◌+◌, ◌≡◌, refl, ◌⊎◌, inl, inr, true, some, List, [], ◌∷◌, map, arith, String, ◌==◌,
  nat_comparable, string_comparable, Bool-cases, Option-cases, length, sum_by, All, sum_by-append,
  All-append,
}
use egressd.Prelude.Table.{values}
use egressd.Collector.{RawNetworkMetric}
use egressd.Collector.Handler.{
  RawNetworkMetricBatch, internal_server_error, gzip_body, truncated_body, reset_metric, gzip_name,
  to_lower, starts_with, contains_text, accepts_gzip, batch_of, write_gzip_body,
  get_raw_network_metrics_handler,
}
use egressd.Collector.Ledger.{handler-total}
use egressd.Exporter.Fetch.{HttpClient, fetched, fetch_raw_network_metrics_batch}
use egressd.Exporter.Export.{get_collector_pod_metrics_server_url, pulled_of}
use egressd.Exporter.ExportLaws.{IsRaw, raw_traffic, batch_traffic}
use egressd.Exporter.Returns.{batches_of}
use egressd.Pipeline.Sites.{
  Site, message, IsRawBatch, asked, waiting, waiting_after, lost, Reaches, outcome_of, pods_of,
}

gzip_accepted : accepts_gzip gzip_name ≡ true
unfolding accepts_gzip contains_text starts_with to_lower
gzip_accepted = refl

message-traffic :
    (items : List RawNetworkMetric)
    → sum_by raw_traffic (map (λ (m : RawNetworkMetric). record m { lifetime = 0 }) items)
      ≡ sum_by raw_traffic items
message-traffic [] = refl
message-traffic (m ∷ items) = omega (arith, message-traffic items)

message-IsRaw :
    (items : List RawNetworkMetric)
    → All IsRaw items
    → All IsRaw (map (λ (m : RawNetworkMetric). record m { lifetime = 0 }) items)
message-IsRaw [] h = tt
message-IsRaw (m ∷ items) h = (h.0, message-IsRaw items h.1)

pulled_of-traffic :
    (b : RawNetworkMetricBatch) → sum_by batch_traffic (pulled_of (fetched b)) ≡ batch_traffic b
unfolding pulled_of
pulled_of-traffic b = go b.items
  where
    go :
        (items : List RawNetworkMetric)
        → sum_by batch_traffic
            (pulled_of (fetched (record { items = items; ip2domain = b.ip2domain })))
          ≡ sum_by raw_traffic items
    go [] = refl
    go (m ∷ items) = ground arith

pulled_of-All :
    (P : RawNetworkMetricBatch → Type 0) (b : RawNetworkMetricBatch)
    → P b
    → All P (pulled_of (fetched b))
unfolding pulled_of
pulled_of-All P b h = elim (Bool-cases (length b.items == 0)) [
  | inl none_ ↦ rw none_ tt
  | inr some_ ↦ rw some_ (h, tt)
]

reset_metric-raw_traffic :
    (clock : ℕ → ℕ) (key : ℕ) (m : RawNetworkMetric) → raw_traffic (reset_metric clock key m) ≡ 0
unfolding reset_metric
reset_metric-raw_traffic clock key m = omega arith

module _ {IP : Type 0} where
  asked-cases :
      (s : Site IP)
      → ((asked s).1 ≡ internal_server_error)
        ⊎ ((asked s).1 ≡ truncated_body)
        ⊎ ((bytes : List ℕ) × (s.lib.marshal (batch_of s.records s.collector) ≡ some bytes)
            × ((asked s).1 ≡ gzip_body (s.lib.gzip bytes)))
  unfolding get_raw_network_metrics_handler write_gzip_body
  asked-cases s = elim (Option-cases (s.lib.marshal (batch_of s.records s.collector))) [
    | inl e ↦ rw (get_raw_network_metrics_handler, e) (inl refl)
    | inr (bytes, e) ↦ elim (Bool-cases s.lib.gzip_writer_made) [
      | inr unmade ↦ rw (get_raw_network_metrics_handler, e, gzip_accepted, unmade) (inl refl)
      | inl made ↦ elim (Bool-cases s.lib.write_succeeds) [
        | inr lost ↦ rw (get_raw_network_metrics_handler, e, gzip_accepted, made, lost) (inl refl)
        | inl sent ↦ elim (Bool-cases s.lib.close_succeeds) [
          | inr cut ↦ inr (inl (ground (arith, gzip_accepted)))
          | inl whole ↦ inr (inr (bytes, e, ground (arith, gzip_accepted)))
        ]
      ]
    ]
  ]

  -- What a collector no longer holds after a request, the exporter has got, or it is lost.
  pulled_of-waiting :
      (s : Site IP)
      → s.collector.cfg.send_traffic_delta ≡ true
      → sum_by batch_traffic (pulled_of (outcome_of s)) + lost s + waiting_after s ≡ waiting s
  unfolding pulled_of
  pulled_of-waiting s delta =
      let items = values s.collector.pod_metrics in
      let balance =
        handler-total raw_traffic reset_metric-raw_traffic s.collector s.lib s.records gzip_name
          delta in
      let whole = pulled_of-traffic (message (batch_of s.records s.collector)) in
      elim (Bool-cases s.arrives) [
        | inr cut ↦ rw cut (elim (asked-cases s) [
          | inl refused ↦ rw (refused, pulled_of) (ground (arith, balance, refused))
          | inr (inl broken) ↦ rw (broken, pulled_of) (ground (arith, balance, broken))
          | inr (inr (bytes, m, sent)) ↦ rw (sent, pulled_of) (ground (arith, balance, sent))
        ])
        | inl arrived ↦ rw arrived (elim (asked-cases s) [
          | inl refused ↦ rw (refused, pulled_of) (ground (arith, balance, refused))
          | inr (inl broken) ↦ rw (broken, pulled_of) (ground (arith, balance, broken))
          | inr (inr (bytes, m, sent)) ↦
              rw sent (ground (arith, balance, sent, whole, message-traffic items))
        ])
      ]

  pulled_of-IsRawBatch :
      (s : Site IP)
      → All IsRaw (values s.collector.pod_metrics)
      → All IsRawBatch (pulled_of (outcome_of s))
  unfolding pulled_of
  pulled_of-IsRawBatch s h = elim (Bool-cases s.arrives) [
    | inr cut ↦ rw cut tt
    | inl arrived ↦ elim (asked-cases s) [
      | inl refused ↦ rw (arrived, refused) tt
      | inr (inl broken) ↦ rw (arrived, broken) tt
      | inr (inr (bytes, m, sent)) ↦
          rw (arrived, sent)
            (pulled_of-All IsRawBatch (message (batch_of s.records s.collector))
              (message-IsRaw (values s.collector.pod_metrics) h))
    ]
  ]

  module _ (url : String → ℕ → String) (client : HttpClient) (gunzip : List ℕ → List ℕ) where
    fetch-outcome_of :
        (s : Site IP)
        → Reaches url client gunzip s
        → fetch_raw_network_metrics_batch client (get_collector_pod_metrics_server_url url s.pod)
          ≡ outcome_of s
    unfolding fetch_raw_network_metrics_batch
    fetch-outcome_of s r = elim (Bool-cases s.arrives) [
      | inr cut ↦ rw (r.made, r.answer, cut) refl
      | inl arrived ↦ elim (asked-cases s) [
        | inl refused ↦ rw (r.made, r.answer, arrived, refused) refl
        | inr (inl broken) ↦ rw (r.made, r.answer, arrived, broken) refl
        | inr (inr (bytes, marshalled, sent)) ↦
            rw (r.made, r.answer, arrived, sent, r.unzipped bytes, r.decoded bytes marshalled) refl
      ]
    ]

    -- The batches of an export are what the requests of the collectors give, one request of each.
    pub batches_of-sites :
        (sites : List (Site IP))
        → All (Reaches url client gunzip) sites
        → (sum_by batch_traffic
                (batches_of url (fetch_raw_network_metrics_batch client) (pods_of sites))
              + sum_by lost sites
              + sum_by waiting_after sites
            ≡ sum_by waiting sites)
          × All IsRawBatch (batches_of url (fetch_raw_network_metrics_batch client) (pods_of sites))
    batches_of-sites [] h = (omega arith, tt)
    batches_of-sites (s ∷ sites) h =
        let (sum, raw) = batches_of-sites sites h.1 in
        let pulled = pulled_of (outcome_of s) in
        let rest = batches_of url (fetch_raw_network_metrics_batch client) (pods_of sites) in
        rw (h.0.has_url, fetch-outcome_of s h.0)
          (
            omega (
              arith,
              sum,
              sum_by-append batch_traffic pulled rest,
              pulled_of-waiting s h.0.delta,
            ),
            All-append IsRawBatch pulled rest (pulled_of-IsRawBatch s h.0.raw) raw,
          )
