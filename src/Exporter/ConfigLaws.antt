-- ===== src/Exporter/ConfigLaws.antt =====
-- What a configuration that exporter/config/config.go loads guarantees to the exporter.
use egressd.Prelude.{
  ℕ, ◌≡◌, refl, ap, ◌≢◌, ◌⊎◌, inl, inr, false, Option, some, List, arith, String, ◌==◌,
  nat_comparable, string_comparable, Bool-cases, Option-cases, length,
}
use egressd.Exporter.Config.{
  Config, Loaded, loaded, refused, empty_config, with_defaults, check_sinks, with_env, load,
}

-- Fit to run with, and the environment's where that sets a value.
pub record IsReady (env c : Config) : Type 0 where
  pub interval : c.export_interval ≢ 0
  pub count : c.collectors_concurrent_fetch_count ≢ 0
  pub timeout : c.collector_fetch_timeout ≢ 0
  pub has_sink : length c.sinks ≢ 0
  pub kept :
      (c.sinks ≡ env.sinks)
      × (c.pod_ip ≡ env.pod_ip)
      × (c.pod_namespace ≡ env.pod_namespace)
      × (env.export_interval ≢ 0 → c.export_interval ≡ env.export_interval)
      × (env.collectors_concurrent_fetch_count ≢ 0
          → c.collectors_concurrent_fetch_count ≡ env.collectors_concurrent_fetch_count)
      × (env.collector_fetch_timeout ≢ 0 → c.collector_fetch_timeout ≡ env.collector_fetch_timeout)

loaded-inj : {c d : Config} → loaded c ≡ loaded d → c ≡ d
loaded-inj {c = c} e = ap (config_of c) e
  where
    config_of : Config → Loaded → Config
    config_of c (loaded d) = d
    config_of c (refused x) = c

with_defaults-IsReady :
    (env : Config) → (length env.sinks == 0) ≡ false → IsReady env (with_defaults env)
unfolding with_defaults
with_defaults-IsReady env h = record {
  interval = ground arith;
  count = ground arith;
  timeout = ground arith;
  has_sink = ground arith;
  kept = (refl, refl, refl, λ n. ground arith, λ n. ground arith, λ n. ground arith);
}

check_sinks-IsReady : (env c : Config) → check_sinks (with_defaults env) ≡ loaded c → IsReady env c
unfolding check_sinks with_defaults
check_sinks-IsReady env c e = elim (Bool-cases (length (with_defaults env).sinks == 0)) [
  | inl empty ↦ absurd (ground arith)
  | inr some_sink ↦
      let same : loaded (with_defaults env) ≡ loaded c = ground arith in
      rw (← loaded-inj same) (with_defaults-IsReady env some_sink)
]

module _ (read_file : String → Option (List ℕ)) (unmarshal : List ℕ → Config → Option Config)
    (process : Config → Option Config) where
  -- Where the values come from before the environment: nowhere, or a file.
  abbrev pub Base : String → Config → Type 0
  Base config_path base =
      ((config_path ≡ "") × (base ≡ empty_config))
      ⊎ ((bytes : List ℕ) × (read_file config_path ≡ some bytes)
          × (unmarshal bytes empty_config ≡ some base))

  with_env-IsReady :
      (base c : Config)
      → with_env read_file unmarshal process base ≡ loaded c
      → (env : Config) × (process base ≡ some env) × IsReady env c
  unfolding with_env
  with_env-IsReady base c e = elim (Option-cases (process base)) [
    | inl none_ ↦ absurd (ground arith)
    | inr (env, p) ↦ (env, p, check_sinks-IsReady env c (ground arith))
  ]

  -- A configuration that is loaded has an interval, a count and a timeout that are not zero and at
  -- least one sink. It comes from the file, if there is a path, and the environment over it, and
  -- keeps each value that these set.
  pub load-IsReady :
      (config_path : String) (c : Config)
      → load read_file unmarshal process config_path ≡ loaded c
      → (base : Config) × Base config_path base
        × ((env : Config) × (process base ≡ some env) × IsReady env c)
  unfolding load
  load-IsReady config_path c e = elim (Bool-cases (config_path == "")) [
    | inl empty ↦ (
      empty_config,
      inl ((string_comparable.same_iff config_path "").0 empty, refl),
      with_env-IsReady empty_config c (ground arith),
    )
    | inr path ↦ elim (Option-cases (read_file config_path)) [
      | inl none_ ↦ absurd (ground arith)
      | inr (bytes, r) ↦ elim (Option-cases (unmarshal bytes empty_config)) [
        | inl none_ ↦ absurd (ground arith)
        | inr (base, u) ↦ (base, inr (bytes, r, u), with_env-IsReady base c (ground arith))
      ]
    ]
  ]
