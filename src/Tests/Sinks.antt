-- ===== src/Tests/Sinks.antt =====
-- The theorems on the HTTP sink and the exporter's configuration at concrete inputs.
use egressd.Prelude.{
  ℕ, zero, suc, ◌+◌, ◌≡◌, refl, ◌⊎◌, Bool, true, false, Option, none, some, List, [], ◌∷◌, arith,
  String, leb, if◌then◌else◌, ◌==◌, nat_comparable, string_comparable,
}
use egressd.Prelude.Table.{lookup, insert}
use egressd.Exporter.Config.{
  Config, loaded, empty_config, with_defaults, check_sinks, with_env, load,
}
use egressd.Exporter.ConfigLaws.{IsReady, Base, load-IsReady}
use egressd.Sinks.{
  SinkHttpConfig, Request, PushError, sending, Attempt, done, again, failed_with, Library, Backoff,
}
use egressd.Sinks.Http.{
  ready, refused as refused_push, failed, set_headers, with_user_agent, make_request, compress,
  encode, prepare, push,
}
use egressd.Exporter.{PodNetworkMetric}
use egressd.Sinks.Prom.{NameOrder, Label, TimeSeries, push as prom_push}
use egressd.Sinks.HttpLaws.{Answered, push_cases}

abbrev http_config : SinkHttpConfig
http_config = record {
  url = "https://sink.example";
  method = "POST";
  compression = "gzip";
  encoding = "protobuf";
  headers = [];
  timeout = 0;
}

-- A server that answers every request with 503.
abbrev library : Library
library = record {
  parse_url = some;
  expand_env = λ s. s;
  marshal = λ batch. some (1 ∷ 2 ∷ []);
  gzip = λ bytes. some (31 ∷ 139 ∷ bytes);
  new_request = λ method url. true;
  canonical = λ k. k;
  do_request = λ n req. some 503;
}

abbrev run_from : ℕ → ℕ → (ℕ → Attempt) → Option PushError × ℕ
run_from n zero condition = (some sending, n)
run_from n (suc steps) condition = elim (condition n) [
  | done ↦ (none, n + 1)
  | again ↦ run_from (n + 1) steps condition
  | failed_with e ↦ (some e, n + 1)
]

abbrev backoff : Backoff
backoff = record {
  run = run_from 0;
  run-done = λ steps condition h. rw (run_from, h) refl;
  run-failed = λ steps condition e h. rw (run_from, h) refl;
}

abbrev request : Request
request = record {
  method = "POST";
  url = "https://sink.example";
  headers =
      ("User-Agent", "castai-egressd/1")
      ∷ ("Content-Type", "application/protobuf")
      ∷ ("Content-Encoding", "gzip")
      ∷ [];
  body = 31 ∷ 139 ∷ 1 ∷ 2 ∷ [];
}

request_prepared : prepare library http_config "castai-egressd/1" [] ≡ ready request
unfolding prepare encode compress make_request with_user_agent set_headers insert lookup
request_prepared = refl

push_cases_example :
    let r = push library http_config backoff "castai-egressd/1" [] in
    ((e : PushError) × (prepare library http_config "castai-egressd/1" [] ≡ refused_push e)
      × (r.0 ≡ failed e)
      × (r.1 ≡ 0))
    ⊎ ((req : Request) × (prepare library http_config "castai-egressd/1" [] ≡ ready req)
        × Answered library http_config req r)
push_cases_example = push_cases library http_config backoff "castai-egressd/1" []

abbrev from_env : Config → Option Config
from_env c = some (record c {
  export_interval = 5;
  sinks = ("http", record { http_config = some http_config; prom_remote_write_config = none }) ∷ [];
})

abbrev read_nothing : String → Option (List ℕ)
read_nothing path = none

abbrev keep_config : List ℕ → Config → Option Config
keep_config bytes c = some c

abbrev ready_config : Config
ready_config = record empty_config {
  export_interval = 5;
  collectors_concurrent_fetch_count = 20;
  collector_fetch_timeout = 3000000000;
  sinks = ("http", record { http_config = some http_config; prom_remote_write_config = none }) ∷ [];
}

config_loaded : load read_nothing keep_config from_env "" ≡ loaded ready_config
unfolding load with_env check_sinks with_defaults
config_loaded = refl

load-IsReady_example :
    (base : Config) × Base read_nothing keep_config from_env "" base
    × ((env : Config) × (from_env base ≡ some env) × IsReady env ready_config)
load-IsReady_example = load-IsReady read_nothing keep_config from_env "" ready_config config_loaded

-- An order in which the name app comes first.
abbrev rank : String → ℕ
rank name = if name == "app" then 0 else 1

rank_total : (a b : String) → leb (rank a) (rank b) ≡ false → leb (rank b) (rank a) ≡ true
rank_total a b h = ground arith

rank_trans :
    (a b c : String)
    → leb (rank a) (rank b) ≡ true
    → leb (rank b) (rank c) ≡ true
    → leb (rank a) (rank c) ≡ true
rank_trans a b c h k = ground arith

abbrev order : NameOrder
order = record { le = λ a b. leb (rank a) (rank b); total = rank_total; trans = rank_trans }

abbrev exported : PodNetworkMetric
exported = record {
  src_ip = "10.0.0.7";
  src_pod = "web";
  src_namespace = "default";
  src_node = "n1";
  src_zone = "zone-a";
  dst_ip = "10.0.0.1";
  dst_pod = "db";
  dst_namespace = "default";
  dst_node = "n2";
  dst_zone = "zone-b";
  dst_dns_name = "";
  tx_bytes = 60;
  tx_packets = 1;
  rx_bytes = 200;
  rx_packets = 1;
  proto = 17;
}

abbrev custom : List Label
custom = ("app", "egressd") ∷ []

abbrev refuses : List TimeSeries → Bool
refuses series = false
