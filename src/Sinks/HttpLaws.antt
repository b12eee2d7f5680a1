-- ===== src/Sinks/HttpLaws.antt =====
-- What a push over HTTP sends and how it ends.
use egressd.Prelude.{
  ℕ, ◌≤◌, ◌<◌, ◌≡◌, refl, sym, ap, ◌∙◌, ◌⊎◌, inl, inr, false, none, some, List, [], arith, String,
  ltb, ◌==◌, nat_comparable, string_comparable, Bool-cases, Option-cases,
}
use egressd.Prelude.Table.{lookup, insert, lookup-insert}
use egressd.Exporter.{PodNetworkMetric}
use egressd.Sinks.{
  SinkHttpConfig, Request, PushError, sending, request_error, done, failed_with, Library, Backoff,
}
use egressd.Sinks.Http.{
  Prepared, refused, ready, Pushed, pushed, failed, set_headers, with_user_agent, make_request,
  compress, encode, prepare, attempt, check_status, after_backoff, send, push,
}

module _ (lib : Library) (cfg : SinkHttpConfig) where
  -- The end of a push that got as far as a request.
  abbrev pub Answered : Request → Pushed × ℕ → Type 0
  Answered req r =
      (r.1 ≡ 1)
      × (((lib.do_request 0 req ≡ none) × (r.0 ≡ failed sending))
          ⊎ ((status : ℕ) × (lib.do_request 0 req ≡ some status)
              × (((status ≤ 399) × (r.0 ≡ pushed))
                  ⊎ ((399 < status) × (r.0 ≡ failed (request_error status))))))

  status_cases :
      (status : ℕ)
      → ((status ≤ 399) × (check_status lib cfg (some status) ≡ pushed))
        ⊎ ((399 < status) × (check_status lib cfg (some status) ≡ failed (request_error status)))
  unfolding check_status
  status_cases status = elim (Bool-cases (ltb 399 status)) [
    | inl above ↦ inr (ground arith, rw above refl)
    | inr below ↦ inl (ground arith, rw below refl)
  ]

  send-Answered :
      (backoff : Backoff) (req : Request) → Answered req (send lib cfg backoff (ready req))
  unfolding send after_backoff attempt
  send-Answered backoff req = elim (Option-cases (lib.do_request 0 req)) [
    | inl e ↦
        rw (backoff.run-failed 2 (attempt lib cfg req) sending (attempt_failed e))
          (refl, inl (e, refl))
    | inr (status, e) ↦
        rw (backoff.run-done 2 (attempt lib cfg req) (attempt_done status e))
          (refl, inr (status, e, rw e (status_cases status)))
  ]
    where
      attempt_failed : lib.do_request 0 req ≡ none → attempt lib cfg req 0 ≡ failed_with sending
      attempt_failed e = rw (attempt, e) refl

      attempt_done :
          (status : ℕ) → lib.do_request 0 req ≡ some status → attempt lib cfg req 0 ≡ done
      attempt_done status e = rw (attempt, e) refl

  -- A push fails before it sends anything, or it sends exactly one request: it fails where that
  -- request cannot be sent, without another attempt, and where its status is above 399, and
  -- succeeds otherwise.
  pub push_cases :
      (backoff : Backoff) (user_agent : String) (batch : List PodNetworkMetric)
      → let r = push lib cfg backoff user_agent batch in
        ((e : PushError) × (prepare lib cfg user_agent batch ≡ refused e)
          × (r.0 ≡ failed e)
          × (r.1 ≡ 0))
        ⊎ ((req : Request) × (prepare lib cfg user_agent batch ≡ ready req) × Answered req r)
  unfolding push send
  push_cases backoff user_agent batch = at (prepare lib cfg user_agent batch) refl
    where
      at :
          (p : Prepared)
          → prepare lib cfg user_agent batch ≡ p
          → ((e : PushError) × (prepare lib cfg user_agent batch ≡ refused e)
              × ((send lib cfg backoff p).0 ≡ failed e)
              × ((send lib cfg backoff p).1 ≡ 0))
            ⊎ ((req : Request) × (prepare lib cfg user_agent batch ≡ ready req)
                × Answered req (send lib cfg backoff p))
      at (refused e) h = inl (e, h, refl, refl)
      at (ready req) h = inr (req, h, send-Answered backoff req)

  -- What a request that is ready holds, for the bytes that the batch is marshalled to.
  abbrev pub IsBody : List ℕ → Request → Type 0
  IsBody bytes req =
      ((cfg.compression ≡ "gzip")
        × (lib.gzip bytes ≡ some req.body)
        × (lookup "Content-Encoding" req.headers ≡ some "gzip"))
      ⊎ (((cfg.compression == "gzip") ≡ false) × (req.body ≡ bytes))

  abbrev IsRequest : List PodNetworkMetric → Request → Type 0
  IsRequest batch req =
      (lib.parse_url (lib.expand_env cfg.url) ≡ some req.url)
      × (req.method ≡ cfg.method)
      × (lookup "Content-Type" req.headers ≡ some "application/protobuf")
      × (cfg.encoding ≡ "protobuf")
      × ((bytes : List ℕ) × (lib.marshal batch ≡ some bytes) × IsBody bytes req)

  request_of : Request → Prepared → Request
  request_of q (refused e) = q
  request_of q (ready r) = r

  ready-inj : {q r : Request} → ready q ≡ ready r → q ≡ r
  unfolding request_of
  ready-inj {q = q} e = ap (request_of q) e

  abbrev request : String → List (String × String) → List ℕ → Request
  request uri header body = record { method = cfg.method; url = uri; headers = header; body = body }

  make_request-ready :
      (uri : String) (header : List (String × String)) (body : List ℕ) (req : Request)
      → make_request lib cfg uri header body ≡ ready req
      → request uri header body ≡ req
  unfolding make_request
  make_request-ready uri header body req e = elim (Bool-cases (lib.new_request cfg.method uri)) [
    | inl made ↦ ready-inj (ground arith)
    | inr bad ↦ absurd (ground arith)
  ]

  abbrev HasType : List (String × String) → Type 0
  HasType header = lookup "Content-Type" header ≡ some "application/protobuf"

  compress-ready :
      (uri : String) (header : List (String × String)) (bytes : List ℕ) (req : Request)
      → HasType header
      → compress lib cfg uri header bytes ≡ ready req
      → (req.url ≡ uri) × (req.method ≡ cfg.method) × HasType req.headers × IsBody bytes req
  unfolding compress
  compress-ready uri header bytes req t e = elim (Bool-cases (cfg.compression == "gzip")) [
    | inl gz ↦ elim (Option-cases (lib.gzip bytes)) [
      | inl none_ ↦ absurd (ground arith)
      | inr (body, g) ↦
          rw
            (← make_request-ready uri (insert "Content-Encoding" "gzip" header) body req
              (ground arith))
            (
              refl,
              refl,
              lookup-insert "Content-Encoding" "Content-Type" "gzip" header ∙ t,
              inl (
                (string_comparable.same_iff cfg.compression "gzip").0 gz,
                g,
                lookup-insert "Content-Encoding" "Content-Encoding" "gzip" header,
              ),
            )
    ]
    | inr plain ↦
        rw (← make_request-ready uri header bytes req (ground arith))
          (refl, refl, t, inr (plain, refl))
  ]

  encode-ready :
      (uri : String) (header : List (String × String)) (batch : List PodNetworkMetric)
      (req : Request)
      → lib.parse_url (lib.expand_env cfg.url) ≡ some uri
      → encode lib cfg uri header batch ≡ ready req
      → IsRequest batch req
  unfolding encode
  encode-ready uri header batch req u e = elim (Bool-cases (cfg.encoding == "protobuf")) [
    | inr other ↦ absurd (ground arith)
    | inl proto ↦ elim (Option-cases (lib.marshal batch)) [
      | inl none_ ↦ absurd (ground arith)
      | inr (bytes, m) ↦
          let typed = lookup-insert "Content-Type" "Content-Type" "application/protobuf" header in
          let (a, b, c, d) =
            compress-ready uri (insert "Content-Type" "application/protobuf" header) bytes req typed
              (ground arith) in
          (
            u ∙ ap some (sym a),
            b,
            c,
            (string_comparable.same_iff cfg.encoding "protobuf").0 proto,
            (bytes, m, d),
          )
    ]
  ]

  -- A request that is ready goes to the configured URL by the configured method, is declared as
  -- protobuf, the only encoding there is, and holds the marshalled batch: compressed and declared so
  -- where the configuration says gzip, and as it is otherwise.
  prepare-IsRequest :
      (user_agent : String) (batch : List PodNetworkMetric) (req : Request)
      → prepare lib cfg user_agent batch ≡ ready req
      → IsRequest batch req
  unfolding prepare
  prepare-IsRequest user_agent batch req e =
      elim (Option-cases (lib.parse_url (lib.expand_env cfg.url))) [
        | inl none_ ↦ absurd (ground arith)
        | inr (uri, u) ↦
            let header = with_user_agent lib cfg user_agent (set_headers lib cfg cfg.headers []) in
            encode-ready uri header batch req u (ground arith)
      ]
