-- ===== src/Sinks/PromLaws.antt =====
-- The labels of the series that exporter/sinks/prom.go writes.
use egressd.Prelude.{
  ℕ, ◌%◌, ◌<◌, ◌≡◌, refl, inl, inr, Bool, true, ◌||◌, Option, none, some, List, [], ◌∷◌, ◌++◌,
  arith, String, if◌then◌else◌, ◌==◌, nat_comparable, string_comparable, Bool-cases, Option-cases,
  length, keep, All,
}
use egressd.Prelude.Table.{lookup}
use egressd.Net.{NetAddr}
use egressd.Exporter.{PodNetworkMetric}
use egressd.Sinks.Prom.{
  NameOrder, Label, TimeSeries, is_cross_zone_value, proto_string, ip_text, ip_type, insert_label,
  sort_labels, initial_labels, with_custom, time_series, push_metric,
}

module _ (order : NameOrder) where
  abbrev pub Sorted : List Label → Type 0
  Sorted [] = Unit {0}
  Sorted (a ∷ labels) = All (λ (b : Label). order.le a.0 b.0 ≡ true) labels × Sorted labels

  below-All :
      (a b : String) (labels : List Label)
      → order.le a b ≡ true
      → All (λ (c : Label). order.le b c.0 ≡ true) labels
      → All (λ (c : Label). order.le a c.0 ≡ true) labels
  below-All a b [] h all = tt
  below-All a b (c ∷ labels) h all = (order.trans a b c.0 h all.0, below-All a b labels h all.1)

  insert_label-All :
      (x : String) (a : Label) (labels : List Label)
      → order.le x a.0 ≡ true
      → All (λ (c : Label). order.le x c.0 ≡ true) labels
      → All (λ (c : Label). order.le x c.0 ≡ true) (insert_label order a labels)
  unfolding insert_label
  insert_label-All x a [] h all = (h, tt)
  insert_label-All x a (b ∷ labels) h all = elim (Bool-cases (order.le a.0 b.0)) [
    | inl le ↦ rw le (h, all)
    | inr gt ↦ rw gt (all.0, insert_label-All x a labels h all.1)
  ]

  insert_label-Sorted :
      (a : Label) (labels : List Label) → Sorted labels → Sorted (insert_label order a labels)
  unfolding insert_label
  insert_label-Sorted a [] h = (tt, tt)
  insert_label-Sorted a (b ∷ labels) h = elim (Bool-cases (order.le a.0 b.0)) [
    | inl le ↦ rw le ((le, below-All a.0 b.0 labels le h.0), h)
    | inr gt ↦ rw gt (
      insert_label-All b.0 a labels (order.total a.0 b.0 gt) h.0,
      insert_label-Sorted a labels h.1,
    )
  ]

  sort_labels-Sorted : (labels : List Label) → Sorted (sort_labels order labels)
  unfolding sort_labels
  sort_labels-Sorted [] = tt
  sort_labels-Sorted (a ∷ labels) =
      insert_label-Sorted a (sort_labels order labels) (sort_labels-Sorted labels)

  -- How many labels pass a test.
  abbrev pub count : (Label → Bool) → List Label → ℕ
  count p labels = length (keep p labels)

  insert_label-count :
      (p : Label → Bool) (a : Label) (labels : List Label)
      → count p (insert_label order a labels) ≡ count p (a ∷ labels)
  unfolding insert_label
  insert_label-count p a [] = refl
  insert_label-count p a (b ∷ labels) = ground (arith, insert_label-count p a labels)

  sort_labels-count :
      (p : Label → Bool) (labels : List Label) → count p (sort_labels order labels) ≡ count p labels
  unfolding sort_labels
  sort_labels-count p [] = refl
  sort_labels-count p (a ∷ labels) =
      ground (arith, insert_label-count p a (sort_labels order labels), sort_labels-count p labels)

-- The names of the IANA numbers, and else the number.
abbrev pub proto_text : (itoa : ℕ → String) → ℕ → String
proto_text itoa p =
    if p == 0
    then "ANY"
    else if p == 1
    then "ICMP"
    else if p == 6
    then "TCP"
    else if p == 17
    then "UDP"
    else if p == 58
    then "ICMPv6"
    else itoa p

proto_string-proto_text : (itoa : ℕ → String) (p : ℕ) → proto_string itoa p ≡ proto_text itoa p
unfolding proto_string lookup
proto_string-proto_text itoa p = ground arith

module _ (net : NetAddr) (itoa : ℕ → String) (order : NameOrder) (custom : List Label) where
  -- The address of the destination in the spelling of netaddr, and whether it is a private one.
  abbrev pub address_labels : Option net.IP → List Label
  address_labels none = ("dst_ip", "zero IP") ∷ ("dst_ip_type", "public") ∷ []
  address_labels (some ip) =
      ("dst_ip", net.to_string ip)
      ∷ ("dst_ip_type", if net.is_private ip then "private" else "public")
      ∷ []

  abbrev pub zones_differ : String → String → String
  zones_differ src_zone dst_zone =
      if src_zone == "" || dst_zone == "" || src_zone == dst_zone then "false" else "true"

  -- The labels of a metric, by their names.
  abbrev pub own_labels : String → PodNetworkMetric → List Label
  own_labels name m =
      ("__name__", name)
      ∷ ("cross_zone", zones_differ m.src_zone m.dst_zone)
      ∷ (address_labels (net.parse_ip m.dst_ip)
          ++ ("dst_namespace", m.dst_namespace)
            ∷ ("dst_node", m.dst_node)
            ∷ ("dst_pod", m.dst_pod)
            ∷ ("dst_zone", m.dst_zone)
            ∷ ("proto", proto_text itoa (m.proto % 256))
            ∷ ("src_ip", m.src_ip)
            ∷ ("src_namespace", m.src_namespace)
            ∷ ("src_node", m.src_node)
            ∷ ("src_pod", m.src_pod)
            ∷ ("src_zone", m.src_zone)
            ∷ [])

  initial_labels-own_labels :
      (name : String) (m : PodNetworkMetric)
      → initial_labels net itoa order custom name m ≡ own_labels name m
  unfolding initial_labels is_cross_zone_value ip_text ip_type
  initial_labels-own_labels name m = elim (Option-cases (net.parse_ip m.dst_ip)) [
    | inl bad ↦ rw bad (ground (arith, proto_string-proto_text itoa (m.proto % 256)))
    | inr (ip, ok) ↦ rw ok (ground (arith, proto_string-proto_text itoa (m.proto % 256)))
  ]

  -- The labels of one series: sorted by name, and each of the metric's and the custom ones once.
  abbrev pub IsLabelled : String → PodNetworkMetric → TimeSeries → Type 0
  IsLabelled name m s =
      Sorted order s.labels
      × ((p : Label → Bool) → count order p s.labels ≡ count order p (own_labels name m ++ custom))

  abbrev pub AllLabelled : String → List PodNetworkMetric → List TimeSeries → Type 0
  AllLabelled name items [] = items ≡ []
  AllLabelled name items (s ∷ series) =
      (m : PodNetworkMetric) × (rest : List PodNetworkMetric) × (items ≡ m ∷ rest)
      × IsLabelled name m s
      × AllLabelled name rest series

  with_custom_lem :
      0 < length custom
      → (labels : List Label)
      → with_custom net itoa order custom labels ≡ sort_labels order (labels ++ custom)
  unfolding with_custom
  with_custom_lem h labels = ground arith

  -- With custom labels there is one series for each metric, in order; its labels are sorted by
  -- name, and they are the metric's own and the custom ones, each as often as before.
  pub push_metric-AllLabelled :
      (now : ℕ) (name : String) (value : PodNetworkMetric → ℕ) (items : List PodNetworkMetric)
      → 0 < length custom
      → AllLabelled name items (push_metric net itoa order custom now name value items)
  unfolding push_metric time_series
  push_metric-AllLabelled now name value [] h = refl
  push_metric-AllLabelled now name value (m ∷ items) h =
      (m, items, refl, labelled, push_metric-AllLabelled now name value items h)
    where
      labelled : IsLabelled name m (time_series net itoa order custom now name value m)
      labelled =
          let labels = own_labels name m in
          rw (initial_labels-own_labels name m, with_custom_lem h labels)
            (
              sort_labels-Sorted order (labels ++ custom),
              λ p. sort_labels-count order p (labels ++ custom),
            )
