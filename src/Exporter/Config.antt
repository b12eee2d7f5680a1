-- ===== src/Exporter/Config.antt =====
-- `Load` of exporter/config/config.go. The file system, the YAML reader and the environment are
-- parameters; `none` is an error. A duration is in nanoseconds, a number its bit pattern.
use egressd.Prelude.{
  ℕ, Bool, not, Option, none, some, List, [], String, if◌then◌else◌, ◌==◌, nat_comparable,
  string_comparable, length,
}
use egressd.Sinks.{SinkHttpConfig}

pub record SinkPromRemoteWriteConfig : Type 0 where
  pub url : String
  pub headers : List (String × String)
  pub labels : List (String × String)
  pub send_received_bytes_metric : Bool

pub record Sink : Type 0 where
  pub http_config : Option SinkHttpConfig
  pub prom_remote_write_config : Option SinkPromRemoteWriteConfig

pub record Config : Type 0 where
  pub pod_ip : String
  pub pod_namespace : String
  pub export_interval : ℕ
  pub collectors_concurrent_fetch_count : ℕ
  pub collector_fetch_timeout : ℕ
  pub sinks : List (String × Sink)

pub data LoadError : Type 0 where
  reading unmarshalling environment no_sink : LoadError

pub data Loaded : Type 0 where
  loaded : Config → Loaded
  refused : LoadError → Loaded

abbrev pub empty_config : Config
empty_config = record {
  pod_ip = "";
  pod_namespace = "";
  export_interval = 0;
  collectors_concurrent_fetch_count = 0;
  collector_fetch_timeout = 0;
  sinks = [];
}

-- The three tests for a zero.
unfoldable pub with_defaults : Config → Config
with_defaults cfg = record cfg {
  export_interval = if cfg.export_interval == 0 then 60000000000 else cfg.export_interval;
  collectors_concurrent_fetch_count =
      if cfg.collectors_concurrent_fetch_count == 0
      then 20
      else cfg.collectors_concurrent_fetch_count;
  collector_fetch_timeout =
      if cfg.collector_fetch_timeout == 0 then 3000000000 else cfg.collector_fetch_timeout;
}

unfoldable pub check_sinks : Config → Loaded
check_sinks cfg = if length cfg.sinks == 0 then refused no_sink else loaded cfg

module _ (read_file : String → Option (List ℕ)) (unmarshal : List ℕ → Config → Option Config)
    (process : Config → Option Config) where
  unfoldable pub with_env : Config → Loaded
  with_env cfg = elim (process cfg) [
    | none ↦ refused environment
    | some overridden ↦ check_sinks (with_defaults overridden)
  ]

  unfoldable pub load : String → Loaded
  load config_path =
      if not (config_path == "")
      then elim (read_file config_path) [
        | none ↦ refused reading
        | some config_bytes ↦ elim (unmarshal config_bytes empty_config) [
          | none ↦ refused unmarshalling
          | some cfg ↦ with_env cfg
        ]
      ]
      else with_env empty_config
