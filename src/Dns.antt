-- ===== src/Dns.antt =====
-- The names of addresses: dns/resolutions.go and dns/noop.go on the node, exporter/ip2dns.go in the
-- exporter.
pub mod Resolutions
pub mod Tracer
pub mod TracerLaws
pub mod TracerProgress
pub mod Startup
pub mod StartupLaws
pub mod Names
use egressd.Prelude.{ℕ, ◌+◌, ◌≤◌, ◌<◌, ◌≡◌, ◌≢◌, Option, none, some, List}

-- The cache of github.com/Code-Hex/go-generics-cache as a parameter. A time is in nanoseconds. A
-- value is found until it expires, and setting a key leaves the others alone.
pub record Cache (K V : Type 0) : Type 1 where
  pub Store : Type 0
  pub new : Store
  pub get : ℕ → K → Store → Option V
  pub keys : Store → List K
  pub set : ℕ → K → V → (ttl : ℕ) → Store → Store
  pub get-new : (now : ℕ) (k : K) → get now k new ≡ none
  pub get-set_self :
      (now then_ : ℕ) (k : K) (v : V) (ttl : ℕ) (s : Store)
      → now ≤ then_
      → then_ < now + ttl
      → get then_ k (set now k v ttl s) ≡ some v
  pub get-set_ne :
      (now then_ : ℕ) (k j : K) (v : V) (ttl : ℕ) (s : Store)
      → k ≢ j
      → get then_ j (set now k v ttl s) ≡ get then_ j s
