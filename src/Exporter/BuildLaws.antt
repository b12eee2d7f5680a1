-- ===== src/Exporter/BuildLaws.antt =====
-- What the metric that exporter/exporter.go builds from a raw one says.
use egressd.Prelude.{
  ℕ, ◌^◌, ◌<◌, ◌≡◌, refl, sym, ap, ◌⊎◌, inl, inr, true, false, arith, String, nat_comparable,
  string_comparable, Bool-cases,
}
use egressd.Net.{NetAddr, to_ip_int32, ip_from_int32}
use egressd.Net.Ip32.{to_ip_int32-ip_from_int32}
use egressd.Collector.{RawNetworkMetric}
use egressd.Kube.{Pod, KubeError, not_found, to_many_objects, other_error, Result, ok, err, ok-inj}
use egressd.Dns.{Cache}
use egressd.Dns.Resolutions.{storage_lookup}
use egressd.Exporter.{PodNetworkMetric, KubeWatcher}
use egressd.Exporter.NodeLaws.{zone_of, name_of, is_found, with_src_node-ok, with_dst_node-ok}
use egressd.Exporter.Build.{
  with_src_node, with_dst_node, metric_of, with_dst_pod, with_destination, from_src_node,
  from_src_pod, build_pod_network_metric,
}

module _ (net : NetAddr) (ips : Cache ℕ String) (names : Cache String String)
    (kube : KubeWatcher) where
  open kube use {State}

  -- What a metric says of its destination, from the state in which the destination is looked up:
  -- the name of a public address; the pod of a private one and the node of that pod; or the node
  -- that has the address.
  abbrev pub Destination : ℕ → ips.Store → ℕ → State → PodNetworkMetric → Type 0
  Destination now storage dst_ip s m =
      let dst = ip_from_int32 net dst_ip in
      let found = kube.get_pod_by_ip (net.to_string dst) s in
      ((net.is_private dst ≡ false)
        × (m.dst_dns_name ≡ storage_lookup net ips names now dst_ip storage)
        × (m.dst_pod ≡ "")
        × (m.dst_namespace ≡ "")
        × (m.dst_node ≡ "")
        × (m.dst_zone ≡ ""))
      ⊎ (((p : Pod) × (net.is_private dst ≡ true)
            × (found.1 ≡ ok p)
            × (m.dst_dns_name ≡ "")
            × (m.dst_pod ≡ p.name)
            × (m.dst_namespace ≡ p.namespace)
            × (m.dst_node ≡ name_of (kube.get_node_by_name p.node_name found.0))
            × (m.dst_zone ≡ zone_of (kube.get_node_by_name p.node_name found.0)))
          ⊎ ((net.is_private dst ≡ true)
              × (is_found found.1 ≡ false)
              × (m.dst_dns_name ≡ "")
              × (m.dst_pod ≡ "")
              × (m.dst_namespace ≡ "")
              × (m.dst_node ≡ name_of (kube.get_node_by_ip (net.to_string dst) found.0))
              × (m.dst_zone ≡ zone_of (kube.get_node_by_ip (net.to_string dst) found.0))))

  -- What a metric says of its source and its counters, which are those of the raw metric.
  abbrev pub Source : RawNetworkMetric → Pod → State → PodNetworkMetric → Type 0
  Source conn p s m =
      (m.src_ip ≡ net.to_string (ip_from_int32 net conn.src_ip))
      × (m.src_pod ≡ p.name)
      × (m.src_namespace ≡ p.namespace)
      × (m.src_node ≡ p.node_name)
      × (m.src_zone ≡ zone_of (kube.get_node_by_name p.node_name s))
      × (m.dst_ip ≡ net.to_string (ip_from_int32 net conn.dst_ip))
      × (m.tx_bytes ≡ conn.tx_bytes)
      × (m.tx_packets ≡ conn.tx_packets)
      × (m.rx_bytes ≡ conn.rx_bytes)
      × (m.rx_packets ≡ conn.rx_packets)
      × (m.proto ≡ conn.proto)

  module _ (now : ℕ) (storage : ips.Store) (conn : RawNetworkMetric)
      (bound : conn.dst_ip < 2 ^ 32) where
    abbrev dst : net.IP
    dst = ip_from_int32 net conn.dst_ip

    abbrev Both : Pod → State → PodNetworkMetric → Type 0
    Both p s m = Source conn p s m × Destination now storage conn.dst_ip s m

    abbrev sourced : Pod → State → PodNetworkMetric
    sourced p s = record (metric_of net ips names kube conn p) {
      src_zone = zone_of (kube.get_node_by_name p.node_name s);
    }

    by_address :
        (p : Pod) (s : State) (m : PodNetworkMetric) (s2 : State) (x : KubeError)
        → kube.get_pod_by_ip (net.to_string dst) s ≡ (s2, err x)
        → net.is_private dst ≡ true
        → with_dst_node (kube.get_node_by_ip (net.to_string dst) s2) (sourced p s) ≡ ok m
        → Both p s m
    unfolding is_found
    by_address p s m s2 x f pr e =
        let r = λ (y : State × Result Pod). kube.get_node_by_ip (net.to_string dst) y.0 in
        rw
          (← with_dst_node-ok (sourced p s) m (kube.get_node_by_ip (net.to_string dst) s2) refl refl
            e)
          (
            (refl, refl, refl, refl, refl, refl, refl, refl, refl, refl, refl),
            inr (
                inr (
                  pr,
                  ap (λ y. is_found y.1) f,
                  refl,
                  refl,
                  refl,
                  ap (λ y. name_of (r y)) (sym f),
                  ap (λ y. zone_of (r y)) (sym f),
                )),
          )

    private_destination :
        (p : Pod) (s : State) (m : PodNetworkMetric) (found : State × Result Pod)
        → kube.get_pod_by_ip (net.to_string dst) s ≡ found
        → net.is_private dst ≡ true
        → with_dst_pod net ips names kube (net.to_string dst) found.1 found.0 (sourced p s) ≡ ok m
        → Both p s m
    unfolding with_dst_pod is_found
    private_destination p s m (s2, ok q) f pr e =
        let a = record (sourced p s) { dst_pod = q.name; dst_namespace = q.namespace } in
        let r = λ (x : State × Result Pod). kube.get_node_by_name q.node_name x.0 in
        rw (← with_dst_node-ok a m (kube.get_node_by_name q.node_name s2) refl refl e) (
          source_kept,
          inr (
              inl (
                q,
                pr,
                ap (λ x. x.1) f,
                refl,
                refl,
                refl,
                ap (λ x. name_of (r x)) (sym f),
                ap (λ x. zone_of (r x)) (sym f),
              )),
        )
      where
        source_kept : Source conn p s (record (sourced p s) {
          dst_pod = q.name;
          dst_namespace = q.namespace;
          dst_node = name_of (kube.get_node_by_name q.node_name s2);
          dst_zone = zone_of (kube.get_node_by_name q.node_name s2);
        })
        source_kept = (refl, refl, refl, refl, refl, refl, refl, refl, refl, refl, refl)
    private_destination p s m (s2, err not_found) f pr e = by_address p s m s2 not_found f pr e
    private_destination p s m (s2, err to_many_objects) f pr e =
        by_address p s m s2 to_many_objects f pr e
    private_destination p s m (s2, err other_error) f pr e = cc

    to_destination :
        (p : Pod) (s : State) (m : PodNetworkMetric)
        → (with_destination net ips names kube now storage dst (sourced p s) s).1 ≡ ok m
        → Both p s m
    unfolding with_destination
    to_destination p s m e = elim (Bool-cases (net.is_private dst)) [
      | inl private ↦
          private_destination p s m (kube.get_pod_by_ip (net.to_string dst) s) refl private
            (ground arith)
      | inr public ↦
          let a = record (sourced p s) {
            dst_dns_name = storage_lookup net ips names now (to_ip_int32 net dst) storage;
          } in
          let e' : ok a ≡ ok m = ground arith in
          rw (← ok-inj e') (
            (refl, refl, refl, refl, refl, refl, refl, refl, refl, refl, refl),
            inl (
              public,
              ap (λ (i : ℕ). storage_lookup net ips names now i storage)
                  (to_ip_int32-ip_from_int32 net conn.dst_ip bound),
              refl,
              refl,
              refl,
              refl,
            ),
          )
    ]

    from_pod :
        (p : Pod) (s : State) (m : PodNetworkMetric) (r : Result PodNetworkMetric)
        → with_src_node (kube.get_node_by_name p.node_name s) (metric_of net ips names kube conn p)
          ≡ r
        → (from_src_node net ips names kube now storage dst r s).1 ≡ ok m
        → Both p s m
    unfolding from_src_node
    from_pod p s m (err x) w e = cc
    from_pod p s m (ok a) w e =
        let n = kube.get_node_by_name p.node_name s in
        to_destination p s m
          (rw (with_src_node-ok (metric_of net ips names kube conn p) a n refl w) e)

    from_found :
        (m : PodNetworkMetric) (found : State × Result Pod)
        → (from_src_pod net ips names kube now storage conn found).1 ≡ ok m
        → (p : Pod) × (found.1 ≡ ok p) × Both p found.0 m
    unfolding from_src_pod
    from_found m (s, err x) e = cc
    from_found m (s, ok p) e = (p, refl, from_pod p s m _ refl e)

  -- A metric that is built from a raw one of any source and any destination below 2 ^ 32 has the
  -- counters and the addresses of the raw one, the name, namespace and node of the pod that has
  -- the source address, and the zone of that node if it is known. If its destination is public it
  -- has the stored name of that address. If it is private, it has the pod of that address and that
  -- pod's node and zone, or, where no such pod is found, the node that has the address.
  pub build_ok :
      (now : ℕ) (storage : ips.Store) (conn : RawNetworkMetric) (s : State) (m : PodNetworkMetric)
      → conn.dst_ip < 2 ^ 32
      → (build_pod_network_metric net ips names kube now storage conn s).1 ≡ ok m
      → let found = kube.get_pod_by_ip (net.to_string (ip_from_int32 net conn.src_ip)) s in
        (p : Pod) × (found.1 ≡ ok p)
        × (Source conn p found.0 m × Destination now storage conn.dst_ip found.0 m)
  unfolding build_pod_network_metric
  build_ok now storage conn s m bound e =
      from_found now storage conn bound m
        (kube.get_pod_by_ip (net.to_string (ip_from_int32 net conn.src_ip)) s) e
