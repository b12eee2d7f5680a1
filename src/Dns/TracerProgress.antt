-- ===== src/Dns/TracerProgress.antt =====
-- The channel of ebpf/tracer_linux.go gives its events to a consumer that keeps taking.
use mathlib.Core.List.{append_assoc}
use egressd.Prelude.{appends}
use egressd.Prelude.{
  ℕ, suc, ◌≤◌, ◌≡◌, refl, ap, ◌∙◌, inl, inr, Option, List, [], ◌∷◌, ◌++◌, arith, ltb,
  nat_comparable, string_comparable, Bool-cases, Option-cases, length,
}
use egressd.Dns.Tracer.{
  Layer, DnsEvent, parse_event, drop, Tracer, Action, reads, takes, capacity, send_event,
  handle_record, take, act, run_loop,
}

unfoldable pub takes_of : List Action → ℕ
takes_of [] = 0
takes_of (reads raw ∷ actions) = takes_of actions
takes_of (takes ∷ actions) = suc (takes_of actions)

module _ (new_packet : List ℕ → Option (Option Layer)) (queue_size : ℕ) where
  -- What a record adds to the channel.
  handle_record-queue :
      (raw : List ℕ) (t : Tracer)
      → (rest : List DnsEvent) × ((handle_record new_packet queue_size raw t).queue
          ≡ t.queue ++ rest)
        × ((handle_record new_packet queue_size raw t).taken ≡ t.taken)
  unfolding handle_record send_event
  handle_record-queue raw t = elim (Bool-cases (ltb (length raw) 4)) [
    | inl small ↦ rw small ([], simp appends, refl)
    | inr large ↦ elim (Option-cases (parse_event new_packet (drop 4 raw))) [
      | inl e ↦ rw (large, e) ([], simp appends, refl)
      | inr (event, e) ↦ elim (Bool-cases (ltb (length t.queue) (capacity queue_size))) [
        | inl room ↦ rw (large, e, room) (event ∷ [], refl, refl)
        | inr full ↦ rw (large, e, full) ([], simp appends, refl)
      ]
    ]
  ]

  take-cons :
      (event : DnsEvent) (events : List DnsEvent) (t : Tracer)
      → t.queue ≡ event ∷ events
      → take new_packet queue_size t ≡ record t { taken = t.taken ++ event ∷ []; queue = events }
  unfolding take
  take-cons event events t e = ground arith

  take-taken :
      (t : Tracer)
      → (rest : List DnsEvent) × ((take new_packet queue_size t).taken ≡ t.taken ++ rest)
  unfolding take
  take-taken t = go t.queue
    where
      go :
          (queue : List DnsEvent)
          → (rest : List DnsEvent) × ((elim queue as (λ q. Tracer) [
            | [] ↦ t
            | event ∷ events ↦ record t { taken = t.taken ++ event ∷ []; queue = events }
          ]).taken
              ≡ t.taken ++ rest)
      go [] = ([], simp appends)
      go (event ∷ events) = (event ∷ [], refl)

  -- By induction on the actions: `ahead` are the events at the head of the channel.
  delivers :
      (actions : List Action) (ahead behind : List DnsEvent) (t : Tracer)
      → t.queue ≡ ahead ++ behind
      → length ahead ≤ takes_of actions
      → (rest : List DnsEvent) × ((run_loop new_packet queue_size actions t).taken
          ≡ (t.taken ++ ahead) ++ rest)
  unfolding run_loop act takes_of
  delivers [] [] behind t e le = ([], simp appends)
  delivers [] (x ∷ ahead) behind t e le = absurd (omega arith)
  delivers (reads raw ∷ actions) ahead behind t e le =
      let (more, queue, taken) = handle_record-queue raw t in
      let (rest, done) =
        delivers actions ahead (behind ++ more) (handle_record new_packet queue_size raw t)
          (queue ∙ ap (λ (q : List DnsEvent). q ++ more) e ∙ append_assoc ahead behind more) le in
      (rest, done ∙ ap (λ (q : List DnsEvent). (q ++ ahead) ++ rest) taken)
  delivers (takes ∷ actions) [] behind t e le =
      let (more, taken) = take-taken t in
      let (rest, done) =
        delivers actions [] (take new_packet queue_size t).queue (take new_packet queue_size t) refl
          (omega arith) in
      (more ++ rest, done ∙ rw taken (simp appends))
  delivers (takes ∷ actions) (x ∷ ahead) behind t e le =
      let step = take-cons x (ahead ++ behind) t e in
      let t' : Tracer = record t { taken = t.taken ++ x ∷ []; queue = ahead ++ behind } in
      let (rest, done) = delivers actions ahead behind t' refl (omega arith) in
      (
        rest,
        ap (λ (u : Tracer). (run_loop new_packet queue_size actions u).taken) step
            ∙ done
            ∙ simp appends,
      )

  -- An event that waits in the channel is taken in the end, in its turn: whatever records are read
  -- in between, once the consumer has taken as often as there were events, all of them are taken,
  -- right behind those taken before and in the order in which they waited.
  pub run_loop-delivers :
      (actions : List Action) (t : Tracer)
      → length t.queue ≤ takes_of actions
      → (rest : List DnsEvent) × ((run_loop new_packet queue_size actions t).taken
          ≡ (t.taken ++ t.queue) ++ rest)
  run_loop-delivers actions t le = delivers actions t.queue [] t (simp appends) le
