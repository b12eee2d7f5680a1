-- ===== src/Sinks/Prom.antt =====
-- `Push` and `pushMetric` of exporter/sinks/prom.go and their helpers. The writer, the order
-- of `strings.Compare` and `strconv.Itoa` are parameters. A sample's value stays an integer here.
use egressd.Prelude.{
  ℕ, ◌%◌, ◌≡◌, Bool, true, false, not, ◌&&◌, ◌||◌, Option, none, some, List, [], ◌∷◌, ◌++◌, String,
  ltb, if◌then◌else◌, ◌==◌, nat_comparable, string_comparable, length,
}
use egressd.Prelude.Table.{lookup}
use egressd.Net.{NetAddr}
use egressd.Exporter.{PodNetworkMetric}

-- `strings.Compare(a, b) <= 0`: a total order, as documented.
pub record NameOrder : Type 0 where
  pub le : String → String → Bool
  pub total : (a b : String) → le a b ≡ false → le b a ≡ true
  pub trans : (a b c : String) → le a b ≡ true → le b c ≡ true → le a c ≡ true

-- `promwrite.Label`: a name and a value.
abbrev pub Label : Type 0
Label = String × String

pub record TimeSeries : Type 0 where
  pub labels : List Label
  pub time : ℕ
  pub value : ℕ

unfoldable pub is_cross_zone_value : PodNetworkMetric → String
is_cross_zone_value m =
    if not (m.src_zone == "") && not (m.dst_zone == "") && not (m.src_zone == m.dst_zone)
    then "true"
    else "false"

abbrev pub proto_names : List (ℕ × String)
proto_names = (0, "ANY") ∷ (1, "ICMP") ∷ (6, "TCP") ∷ (17, "UDP") ∷ (58, "ICMPv6") ∷ []

unfoldable pub proto_string : (itoa : ℕ → String) → ℕ → String
proto_string itoa p = elim (lookup p proto_names) [ none ↦ itoa p | some name ↦ name ]

module _ (order : NameOrder) where
  unfoldable pub insert_label : Label → List Label → List Label
  insert_label a [] = a ∷ []
  insert_label a (b ∷ labels) =
      let rest = insert_label a labels in if order.le a.0 b.0 then a ∷ b ∷ labels else b ∷ rest

  -- `slices.SortStableFunc` by name: labels of one name keep their order.
  unfoldable pub sort_labels : List Label → List Label
  sort_labels [] = []
  sort_labels (a ∷ labels) = insert_label a (sort_labels labels)

module _ (net : NetAddr) (itoa : ℕ → String) (order : NameOrder) (custom : List Label) where
  -- The text of the destination and its kind; an address that does not parse is the zero address.
  unfoldable pub ip_text : Option net.IP → String
  ip_text none = "zero IP"
  ip_text (some ip) = net.to_string ip

  unfoldable pub ip_type : Option net.IP → String
  ip_type none = "public"
  ip_type (some ip) = if net.is_private ip then "private" else "public"

  unfoldable pub initial_labels : String → PodNetworkMetric → List Label
  initial_labels name m =
      ("__name__", name)
      ∷ ("cross_zone", is_cross_zone_value m)
      ∷ ("dst_ip", ip_text (net.parse_ip m.dst_ip))
      ∷ ("dst_ip_type", ip_type (net.parse_ip m.dst_ip))
      ∷ ("dst_namespace", m.dst_namespace)
      ∷ ("dst_node", m.dst_node)
      ∷ ("dst_pod", m.dst_pod)
      ∷ ("dst_zone", m.dst_zone)
      ∷ ("proto", proto_string itoa (m.proto % 256))
      ∷ ("src_ip", m.src_ip)
      ∷ ("src_namespace", m.src_namespace)
      ∷ ("src_node", m.src_node)
      ∷ ("src_pod", m.src_pod)
      ∷ ("src_zone", m.src_zone)
      ∷ []

  -- Custom labels, in the order in which the map is visited, are added and all are sorted.
  unfoldable pub with_custom : List Label → List Label
  with_custom labels =
      if ltb 0 (length custom) then sort_labels order (labels ++ custom) else labels

  unfoldable pub time_series : ℕ → String → (PodNetworkMetric → ℕ) → PodNetworkMetric → TimeSeries
  time_series now name value m = record {
    labels = with_custom (initial_labels name m);
    time = now;
    value = value m;
  }

  unfoldable pub push_metric :
      ℕ → String → (PodNetworkMetric → ℕ) → List PodNetworkMetric → List TimeSeries
  push_metric now name value [] = []
  push_metric now name value (m ∷ items) =
      time_series now name value m ∷ push_metric now name value items

  -- `Push`: the requests that it writes, and whether it fails. `write` says whether a write fails.
  unfoldable pub push :
      (write : List TimeSeries → Bool) (send_received_bytes_metric : Bool)
      → ℕ
      → List PodNetworkMetric
      → List (List TimeSeries) × Bool
  push write send_received_bytes_metric now items =
      let tx = push_metric now "egressd_transmit_bytes_total" (λ m. m.tx_bytes) items in
      let rx = push_metric now "egressd_received_bytes_total" (λ m. m.rx_bytes) items in
      if send_received_bytes_metric
      then (tx ∷ rx ∷ [], write tx || write rx)
      else (tx ∷ [], write tx)
