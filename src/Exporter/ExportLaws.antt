-- ===== src/Exporter/ExportLaws.antt =====
-- What an export of exporter/exporter.go does with the traffic of the batches that it pulls, and
-- the address at which it asks a collector.
use egressd.Prelude.{
  ℕ, ◌+◌, ◌^◌, ◌<◌, ◌≡◌, refl, sym, ap, ◌∙◌, inl, inr, Option, none, some, List, [], ◌∷◌, ◌++◌,
  arith, String, ◌==◌, nat_comparable, string_comparable, Bool-cases, sum_by, keep, All,
  sum_by-append,
}
use egressd.Net.{NetAddr}
use egressd.Collector.{RawNetworkMetric}
use egressd.Collector.Handler.{RawNetworkMetricBatch}
use egressd.Kube.{Container, Pod, not_found, to_many_objects, other_error, Result, ok, err}
use egressd.Dns.{Cache}
use egressd.Dns.Resolutions.{fill}
use egressd.Exporter.{PodNetworkMetric, KubeWatcher}
use egressd.Exporter.Build.{build_pod_network_metric, empty_metrics}
use egressd.Exporter.BuildLaws.{build_ok}
use egressd.Exporter.Export.{
  LogLine, warned, errored, port_url, container_url, get_collector_pod_metrics_server_url, Progress,
  handle_built, add_metric, add_items, aggregate,
}

-- The bytes and packets of a raw metric, of a built one, and of the metric of a log line.
abbrev pub raw_traffic : RawNetworkMetric → ℕ
raw_traffic m = m.tx_bytes + m.rx_bytes + m.tx_packets + m.rx_packets

abbrev pub traffic : PodNetworkMetric → ℕ
traffic m = m.tx_bytes + m.rx_bytes + m.tx_packets + m.rx_packets

abbrev pub logged_traffic : LogLine → ℕ
logged_traffic (warned m) = raw_traffic m
logged_traffic (errored m) = raw_traffic m

abbrev pub batch_traffic : RawNetworkMetricBatch → ℕ
batch_traffic b = sum_by raw_traffic b.items

abbrev pub IsRaw : RawNetworkMetric → Type 0
IsRaw m = m.dst_ip < 2 ^ 32

-- The ports of all containers, in order.
abbrev pub ports_of : List Container → List (String × ℕ)
ports_of [] = []
ports_of (c ∷ containers) = c.ports ++ ports_of containers

abbrev or_empty : Option String → String
or_empty none = ""
or_empty (some s) = s

module _ (url : String → ℕ → String) (ip : String) where
  port_url-append :
      (xs ys : List (String × ℕ))
      → or_empty (port_url url ip (xs ++ ys))
        ≡ elim (port_url url ip xs) [ none ↦ or_empty (port_url url ip ys) | some found ↦ found ]
  unfolding port_url
  port_url-append [] ys = refl
  port_url-append ((name, port) ∷ xs) ys = elim (Bool-cases (name == "http-server")) [
    | inl http ↦ rw (http, port_url) refl
    | inr new ↦ rw (new, port_url) (port_url-append xs ys)
  ]

  container_url-ports :
      (containers : List Container)
      → container_url url ip containers ≡ or_empty (port_url url ip (ports_of containers))
  unfolding container_url port_url
  container_url-ports [] = refl
  container_url-ports (c ∷ containers) =
      ap (λ (x : String). elim (port_url url ip c.ports) [ none ↦ x | some found ↦ found ])
        (container_url-ports containers)
      ∙ sym (port_url-append c.ports (ports_of containers))

  abbrev pub url_of : List (String × ℕ) → String
  url_of [] = ""
  url_of (p ∷ ports) = url ip p.1

  port_url-url_of :
      (ports : List (String × ℕ))
      → or_empty (port_url url ip ports) ≡ url_of (keep (λ p. p.0 == "http-server") ports)
  unfolding port_url
  port_url-url_of [] = refl
  port_url-url_of ((name, port) ∷ ports) = elim (Bool-cases (name == "http-server")) [
    | inl http ↦ rw (http, port_url) refl
    | inr new ↦ rw (new, port_url) (port_url-url_of ports)
  ]

-- The exporter asks a collector at the first of the ports of all its containers, in order, that is
-- named http-server, and not at all where there is none.
get_collector_pod_metrics_server_url-url_of :
    (url : String → ℕ → String) (pod : Pod)
    → get_collector_pod_metrics_server_url url pod
      ≡ url_of url pod.pod_ip (keep (λ p. p.0 == "http-server") (ports_of pod.containers))
unfolding get_collector_pod_metrics_server_url
get_collector_pod_metrics_server_url-url_of url pod =
    container_url-ports url pod.pod_ip pod.containers
    ∙ port_url-url_of url pod.pod_ip (ports_of pod.containers)

module _ (net : NetAddr) (ips : Cache ℕ String) (names : Cache String String)
    (kube : KubeWatcher) where
  open kube use {State}

  abbrev pub accounted : Progress net ips names kube → ℕ
  accounted e = sum_by traffic e.pods_metrics + sum_by logged_traffic e.log

  handle_built-accounted :
      (raw : RawNetworkMetric) (s : State) (r : Result PodNetworkMetric)
      (e : Progress net ips names kube)
      → ((m : PodNetworkMetric) → r ≡ ok m → traffic m ≡ raw_traffic raw)
      → accounted (handle_built net ips names kube raw s r e) ≡ accounted e + raw_traffic raw
  unfolding handle_built empty_metrics
  handle_built-accounted raw s (ok m) e h =
      omega (arith, sum_by-append traffic e.pods_metrics (m ∷ []), h m refl)
  handle_built-accounted raw s (err not_found) e h =
      ground (arith, sum_by-append logged_traffic e.log (warned raw ∷ []))
  handle_built-accounted raw s (err to_many_objects) e h =
      omega (arith, sum_by-append logged_traffic e.log (errored raw ∷ []))
  handle_built-accounted raw s (err other_error) e h =
      omega (arith, sum_by-append logged_traffic e.log (errored raw ∷ []))

  add_metric-accounted :
      (now : ℕ) (raw : RawNetworkMetric) (e : Progress net ips names kube)
      → IsRaw raw
      → accounted (add_metric net ips names kube now raw e) ≡ accounted e + raw_traffic raw
  unfolding add_metric
  add_metric-accounted now raw e h = handle_built-accounted raw _ _ e same
    where
      same :
          (m : PodNetworkMetric)
          → (build_pod_network_metric net ips names kube now e.storage raw e.watcher).1 ≡ ok m
          → traffic m ≡ raw_traffic raw
      same m b =
          let (p, f, (source, d)) = build_ok net ips names kube now e.storage raw e.watcher m h b in
          omega (arith, source)

  add_items-accounted :
      (now : ℕ) (items : List RawNetworkMetric) (e : Progress net ips names kube)
      → All IsRaw items
      → accounted (add_items net ips names kube now items e)
        ≡ accounted e + sum_by raw_traffic items
  unfolding add_items
  add_items-accounted now [] e h = omega arith
  add_items-accounted now (raw ∷ items) e h = omega (
    arith,
    add_items-accounted now items (add_metric net ips names kube now raw e) h.1,
    add_metric-accounted now raw e h.0,
  )

  -- An export drops no traffic silently: the bytes and packets of the metrics that it builds,
  -- together with those of the raw metrics that it names in its log, are those of the batches that
  -- it pulled, whatever the lookups answer.
  pub aggregate-accounted :
      (now : ℕ) (batches : List RawNetworkMetricBatch) (e : Progress net ips names kube)
      → All (λ (b : RawNetworkMetricBatch). All IsRaw b.items) batches
      → accounted (aggregate net ips names kube now batches e)
        ≡ accounted e + sum_by batch_traffic batches
  unfolding aggregate
  aggregate-accounted now [] e h = omega arith
  aggregate-accounted now (b ∷ batches) e h =
      let e2 = record e { storage = fill net ips names now b.ip2domain e.storage } in
      omega (
        arith,
        aggregate-accounted now batches (add_items net ips names kube now b.items e2) h.1,
        add_items-accounted now b.items e2 h.0,
      )
