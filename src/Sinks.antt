-- ===== src/Sinks.antt =====
-- The sinks of exporter/sinks: the parts of the libraries that they call, as parameters.
pub mod Http
pub mod HttpLaws
pub mod Prom
pub mod PromLaws
pub mod PromPush
use egressd.Prelude.{ℕ, suc, ◌≡◌, Bool, Option, none, some, List, String}
use egressd.Exporter.{PodNetworkMetric}

-- `config.SinkHTTPConfig` of exporter/config/config.go.
pub record SinkHttpConfig : Type 0 where
  pub url : String
  pub method : String
  pub compression : String
  pub encoding : String
  pub headers : List (String × String)
  pub timeout : ℕ

pub record Request : Type 0 where
  pub method : String
  pub url : String
  pub headers : List (String × String)
  pub body : List ℕ

pub data PushError : Type 0 where
  invalid_url marshalling compressing unsupported_encoding creating_request sending : PushError
  request_error : (status : ℕ) → PushError

-- What the condition of a backoff answers.
pub data Attempt : Type 0 where
  done again : Attempt
  failed_with : PushError → Attempt

-- `url.Parse` and `URL.String`, `os.ExpandEnv`, `proto.Marshal`, `gzip`, `http.NewRequest`, the
-- form in which `Header.Set` keeps a name, and the status of an answer; `none` is an error.
pub record Library : Type 0 where
  pub parse_url : String → Option String
  pub expand_env : String → String
  pub marshal : List PodNetworkMetric → Option (List ℕ)
  pub gzip : List ℕ → Option (List ℕ)
  pub new_request : String → String → Bool
  pub canonical : String → String
  pub do_request : (attempt : ℕ) → Request → Option ℕ

-- `wait.ExponentialBackoffWithContext`, in a context that is not done: its result, and how many
-- times it called the condition. As documented, it stops at the first call that is done or fails.
pub record Backoff : Type 0 where
  pub run : (steps : ℕ) → (ℕ → Attempt) → Option PushError × ℕ
  pub run-done :
      (steps : ℕ) (condition : ℕ → Attempt)
      → condition 0 ≡ done
      → run (suc steps) condition ≡ (none, 1)
  pub run-failed :
      (steps : ℕ) (condition : ℕ → Attempt) (e : PushError)
      → condition 0 ≡ failed_with e
      → run (suc steps) condition ≡ (some e, 1)
