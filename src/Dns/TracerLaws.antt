-- ===== src/Dns/TracerLaws.antt =====
-- What the loop of ebpf/tracer_linux.go does with the records that it reads.
use egressd.Prelude.{
  ℕ, suc, ◌+◌, ◌≤◌, ◌≡◌, Option, none, some, List, [], ◌∷◌, ◌++◌, ltb, if◌then◌else◌,
  nat_comparable, string_comparable, length,
}
use egressd.Dns.Tracer.{Layer, DnsEvent, parse_event, drop, Tracer, capacity, Action, reads, takes}

-- The first list is the second with elements left out.
pub data Within {ℓ} {A : Type ℓ} : List A → List A → Type ℓ where
  nothing : Within [] []
  with : (x : A) {xs ys : List A} → Within xs ys → Within (xs ++ x ∷ []) (ys ++ x ∷ [])
  without : (x : A) {xs ys : List A} → Within xs ys → Within xs (ys ++ x ∷ [])

module _ (new_packet : List ℕ → Option (Option Layer)) (queue_size : ℕ) where
  -- The event of a record, if it has one: past its first four bytes.
  pub event_of : List ℕ → Option DnsEvent
  event_of raw = if ltb (length raw) 4 then none else parse_event new_packet (drop 4 raw)

  append_event : List DnsEvent → Option DnsEvent → List DnsEvent
  append_event events none = events
  append_event events (some event) = events ++ event ∷ []

  -- The events of the records, after those before, in order.
  pub events_of : List DnsEvent → List Action → List DnsEvent
  events_of before [] = before
  events_of before (reads raw ∷ actions) = events_of (append_event before (event_of raw)) actions
  events_of before (takes ∷ actions) = events_of before actions

  unfoldable pub reads_of : List Action → ℕ
  reads_of [] = 0
  reads_of (reads raw ∷ actions) = suc (reads_of actions)
  reads_of (takes ∷ actions) = reads_of actions

  pub passed : Tracer → List DnsEvent
  passed t = t.taken ++ t.queue

  pub record Kept (events : List DnsEvent) (count : ℕ) (t : Tracer) : Type 0 where
    pub bounded : length t.queue ≤ capacity queue_size
    pub counted : length t.taken + length t.queue + length t.warnings ≡ count
    pub ordered : Within (passed t) events
