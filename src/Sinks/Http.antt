-- ===== src/Sinks/Http.antt =====
-- `HTTPSink.Push` of exporter/sinks/http.go. The names of headers that it writes itself are in the
-- form in which `Header.Set` keeps them. `user_agent` is "castai-egressd/" and the version.
use egressd.Prelude.{
  ℕ, ◌-◌, Option, none, some, List, [], ◌∷◌, String, ltb, if◌then◌else◌, ◌==◌, nat_comparable,
  string_comparable,
}
use egressd.Prelude.Table.{lookup, insert}
use egressd.Exporter.{PodNetworkMetric}
use egressd.Sinks.{
  SinkHttpConfig, Request, PushError, invalid_url, marshalling, compressing, unsupported_encoding,
  creating_request, sending, request_error, Attempt, done, failed_with, Library, Backoff,
}

-- A request that is ready, or an error before it.
pub data Prepared : Type 0 where
  refused : PushError → Prepared
  ready : Request → Prepared

pub data Pushed : Type 0 where
  pushed : Pushed
  failed : PushError → Pushed
  nil_dereference : Pushed

module _ (lib : Library) (cfg : SinkHttpConfig) where
  -- The loop over the configured headers.
  unfoldable pub set_headers :
      List (String × String) → List (String × String) → List (String × String)
  set_headers [] header = header
  set_headers ((k, v) ∷ headers) header =
      set_headers headers (insert (lib.canonical k) (lib.expand_env v) header)

  unfoldable pub with_user_agent : String → List (String × String) → List (String × String)
  with_user_agent user_agent header = elim (lookup "User-Agent" cfg.headers) [
    | none ↦ insert "User-Agent" user_agent header
    | some v ↦ header
  ]

  unfoldable pub make_request : String → List (String × String) → List ℕ → Prepared
  make_request uri header body =
      if lib.new_request cfg.method uri
      then ready (record { method = cfg.method; url = uri; headers = header; body = body })
      else refused creating_request

  -- The switch over the compression.
  unfoldable pub compress : String → List (String × String) → List ℕ → Prepared
  compress uri header proto_bytes =
      if cfg.compression == "gzip"
      then elim (lib.gzip proto_bytes) [
        | none ↦ refused compressing
        | some body ↦ make_request uri (insert "Content-Encoding" "gzip" header) body
      ]
      else make_request uri header proto_bytes

  -- The switch over the encoding.
  unfoldable pub encode : String → List (String × String) → List PodNetworkMetric → Prepared
  encode uri header batch =
      if cfg.encoding == "protobuf"
      then elim (lib.marshal batch) [
        | none ↦ refused marshalling
        | some proto_bytes ↦
            compress uri (insert "Content-Type" "application/protobuf" header) proto_bytes
      ]
      else refused unsupported_encoding

  unfoldable pub prepare : String → List PodNetworkMetric → Prepared
  prepare user_agent batch = elim (lib.parse_url (lib.expand_env cfg.url)) [
    | none ↦ refused invalid_url
    | some uri ↦ encode uri (with_user_agent user_agent (set_headers cfg.headers [])) batch
  ]

  -- The condition of the backoff: a failed request is an error, not another attempt.
  unfoldable pub attempt : Request → ℕ → Attempt
  attempt req n = elim (lib.do_request n req) [ none ↦ failed_with sending | some status ↦ done ]

  -- The end of `Push`, at the last answer.
  unfoldable pub check_status : Option ℕ → Pushed
  check_status none = nil_dereference
  check_status (some status) = if ltb 399 status then failed (request_error status) else pushed

  unfoldable pub after_backoff : Request → Option PushError × ℕ → Pushed × ℕ
  after_backoff req (some e, calls) = (failed e, calls)
  after_backoff req (none, calls) = (check_status (lib.do_request (calls - 1) req), calls)

  unfoldable pub send : Backoff → Prepared → Pushed × ℕ
  send backoff (refused e) = (failed e, 0)
  send backoff (ready req) = after_backoff req (backoff.run 3 (attempt req))

  -- The outcome, and how many requests were sent.
  unfoldable pub push : Backoff → String → List PodNetworkMetric → Pushed × ℕ
  push backoff user_agent batch = send backoff (prepare user_agent batch)
