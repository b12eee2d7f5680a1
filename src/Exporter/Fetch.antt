-- ===== src/Exporter/Fetch.antt =====
-- `fetchRawNetworkMetricsBatch` of exporter/exporter.go. What the HTTP client and protobuf answer is
-- a parameter; `none` is an error. The text of an error is left out, the body of a refusal with it.
use egressd.Prelude.{
  ℕ, Bool, true, false, not, Option, none, some, List, String, ◌==◌, nat_comparable,
  string_comparable,
}
use Prim.Native.String.{◌++◌ as str_append}
use egressd.Collector.Handler.{RawNetworkMetricBatch}

-- The answer to a request: its status, and its body where it can be read.
pub record HttpAnswer : Type 0 where
  pub status : ℕ
  pub body : Option (List ℕ)

pub record HttpClient : Type 0 where
  pub new_request : String → Bool
  pub do_get : String → Option HttpAnswer
  pub unmarshal : List ℕ → Option RawNetworkMetricBatch

pub data FetchError : Type 0 where
  creating_request sending reading_body unmarshalling : FetchError
  bad_status : ℕ → FetchError

pub data Fetched {ℓ} (A : Type ℓ) : Type ℓ where
  fetched : A → Fetched A
  failed : FetchError → Fetched A

infixl 5 ◌>>=◌ ◌>>◌
abbrev pub ◌>>=◌ {ℓ κ} : {A : Type ℓ} {B : Type κ} → Fetched A → (A → Fetched B) → Fetched B
fetched a >>= f = f a
failed e >>= f = failed e

abbrev pub ◌>>◌ {ℓ} : {B : Type ℓ} → Fetched (Unit {0}) → Fetched B → Fetched B
m >> k = m >>= λ _. k

abbrev pub fail_if : Bool → FetchError → Fetched (Unit {0})
fail_if false e = fetched tt
fail_if true e = failed e

abbrev pub or_fail {ℓ} : {A : Type ℓ} → Option A → FetchError → Fetched A
or_fail none e = failed e
or_fail (some a) e = fetched a

abbrev pub metrics_path : String
metrics_path = "/api/v1/raw-network-metrics"

unfoldable pub fetch_raw_network_metrics_batch : HttpClient → String → Fetched RawNetworkMetricBatch
fetch_raw_network_metrics_batch client url = do
  let req = str_append url metrics_path
  fail_if (not (client.new_request req)) creating_request
  resp ← or_fail (client.do_get req) sending
  fail_if (not (resp.status == 200)) (bad_status resp.status)
  pb_bytes ← or_fail resp.body reading_body
  or_fail (client.unmarshal pb_bytes) unmarshalling
