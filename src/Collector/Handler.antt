-- ===== src/Collector/Handler.antt =====
-- `GetRawNetworkMetricsHandler`, `writeGzipBody` and `writePlainBody` of collector/collector.go.
-- The parameters say what the libraries answer: the bytes of the batch or a failure, whether a
-- gzip writer can be made, whether a write succeeds, whether the gzip writer can be closed, which
-- writes what it still holds and the end of the stream, and the clock when the loop reaches a key.
use egressd.Prelude.{
  ℕ, ◌+◌, Bool, true, false, not, ◌&&◌, ◌||◌, Option, none, some, List, [], ◌∷◌, map, String, ltb,
  leb, if◌then◌else◌, ◌==◌, nat_comparable, string_comparable,
}
use egressd.Prelude.Table.{values, map_values}
use egressd.Collector.{RawNetworkMetric, Collector}

pub record Ip2Domain : Type 0 where
  pub ip : ℕ
  pub domain : String

pub record RawNetworkMetricBatch : Type 0 where
  pub items : List RawNetworkMetric
  pub ip2domain : List Ip2Domain

-- The answer: the status 500 with no batch, a body and its encoding, or a compressed body that
-- breaks off, with the status 200.
pub data Response : Type 0 where
  internal_server_error : Response
  plain_body : List ℕ → Response
  gzip_body : List ℕ → Response
  truncated_body : Response

pub record Library : Type 0 where
  pub marshal : RawNetworkMetricBatch → Option (List ℕ)
  pub gzip : List ℕ → List ℕ
  pub gzip_writer_made : Bool
  pub write_succeeds : Bool
  pub close_succeeds : Bool
  pub clock : ℕ → ℕ

-- `strings.ToLower` and `strings.Contains` on the bytes of a header.
unfoldable pub to_lower : ℕ → ℕ
to_lower b = if leb 65 b && leb b 90 then b + 32 else b

unfoldable pub starts_with : List ℕ → List ℕ → Bool
starts_with [] s = true
starts_with (x ∷ xs) [] = false
starts_with (x ∷ xs) (b ∷ s) = x == b && starts_with xs s

unfoldable pub contains_text : List ℕ → List ℕ → Bool
contains_text sub [] = starts_with sub []
contains_text sub (b ∷ s) = starts_with sub (b ∷ s) || contains_text sub s

abbrev pub gzip_name : List ℕ
gzip_name = b'g' ∷ b'z' ∷ b'i' ∷ b'p' ∷ []

unfoldable pub accepts_gzip : List ℕ → Bool
unfolding to_lower starts_with contains_text
accepts_gzip enc = contains_text gzip_name (map to_lower enc)

-- Each returns the response and whether the handler sees no error. That of the deferred `Close` of
-- the gzip writer is dropped.
unfoldable pub write_gzip_body : Library → List ℕ → Response × Bool
write_gzip_body lib body =
    if not lib.gzip_writer_made
    then (internal_server_error, false)
    else if not lib.write_succeeds
    then (internal_server_error, false)
    else (if lib.close_succeeds then gzip_body (lib.gzip body) else truncated_body, true)

unfoldable pub write_plain_body : Library → List ℕ → Response × Bool
write_plain_body lib body =
    if not lib.write_succeeds then (internal_server_error, false) else (plain_body body, true)

abbrev pub two_minutes : ℕ
two_minutes = 120000000000

-- The reset of one metric after a delivery.
unfoldable pub reset_metric : (clock : ℕ → ℕ) → ℕ → RawNetworkMetric → RawNetworkMetric
reset_metric clock key m =
    let new_lifetime = clock key + two_minutes in
    record m {
      tx_bytes = 0;
      rx_bytes = 0;
      tx_packets = 0;
      rx_packets = 0;
      lifetime = if ltb new_lifetime m.lifetime then new_lifetime else m.lifetime;
    }

abbrev pub reset_if_sent :
    {IP : Type 0} → Library → Collector IP → Response × Bool → Collector IP × Response
reset_if_sent lib c (response, false) = (c, response)
reset_if_sent lib c (response, true) =
    if c.cfg.send_traffic_delta
    then (record c { pod_metrics = map_values (reset_metric lib.clock) c.pod_metrics }, response)
    else (c, response)

abbrev pub batch_of : {IP : Type 0} → List Ip2Domain → Collector IP → RawNetworkMetricBatch
batch_of records c = record { items = values c.pod_metrics; ip2domain = records }

unfoldable pub get_raw_network_metrics_handler :
    {IP : Type 0}
    → Library
    → List Ip2Domain
    → (enc : List ℕ) → Collector IP
    → Collector IP × Response
unfolding write_gzip_body write_plain_body reset_metric
get_raw_network_metrics_handler lib records enc c = elim (lib.marshal (batch_of records c)) [
  | none ↦ (c, internal_server_error)
  | some batch_bytes ↦ reset_if_sent lib c (
      if accepts_gzip enc
      then write_gzip_body lib batch_bytes
      else write_plain_body lib batch_bytes)
]
