-- ===== src/Dns/Tracer.antt =====
-- ebpf/tracer_linux.go: the loop of `Run` over the records of the `events` map, `parseEvent`, and
-- `detectCgroupPath`. What gopacket makes of the bytes is a parameter.
use egressd.Prelude.{
  ℕ, zero, suc, Option, none, some, List, [], ◌∷◌, ◌++◌, String, ltb, if◌then◌else◌, ◌==◌,
  nat_comparable, string_comparable, length,
}
use egressd.Dns.Resolutions.{Answer}

-- The application layer of a packet, as gopacket decodes it.
pub data Layer : Type 0 where
  dns : List String → List Answer → Layer
  other_layer : Layer

-- The names of the questions, and the answers.
pub record DnsEvent : Type 0 where
  pub questions : List String
  pub answers : List Answer

pub data Warning : Type 0 where
  too_small : ℕ → Warning
  not_parsed queue_full : Warning

unfoldable pub drop : ℕ → List ℕ → List ℕ
drop zero xs = xs
drop (suc n) [] = []
drop (suc n) (x ∷ xs) = drop n xs

-- The outer `none` is a packet that is nil, the inner one a packet without an application layer.
unfoldable pub parse_event : (List ℕ → Option (Option Layer)) → List ℕ → Option DnsEvent
parse_event new_packet bytes = elim (new_packet bytes) [
  | none ↦ none
  | some layer ↦ elim layer [
    | none ↦ none
    | some l ↦ elim l [
      | dns questions answers ↦ some (record { questions = questions; answers = answers })
      | other_layer ↦ none
    ]
  ]
]

-- The channel of events with what was taken from it, and the warnings, the latest first.
pub record Tracer : Type 0 where
  pub taken : List DnsEvent
  pub queue : List DnsEvent
  pub warnings : List Warning

-- `NewTracer`: the capacity of the channel, from the configured one.
abbrev pub capacity : ℕ → ℕ
capacity queue_size = if queue_size == 0 then 1000 else queue_size

abbrev pub new_tracer : Tracer
new_tracer = record { taken = []; queue = []; warnings = [] }

-- What happens: the loop reads a record, or someone takes an event from the channel.
pub data Action : Type 0 where
  reads : List ℕ → Action
  takes : Action

abbrev pub warn : Warning → Tracer → Tracer
warn w t = record t { warnings = w ∷ t.warnings }

module _ (new_packet : List ℕ → Option (Option Layer)) (queue_size : ℕ) where
  unfoldable pub send_event : DnsEvent → Tracer → Tracer
  send_event event t =
      if ltb (length t.queue) (capacity queue_size)
      then record t { queue = t.queue ++ event ∷ [] }
      else warn queue_full t

  unfoldable pub handle_record : List ℕ → Tracer → Tracer
  handle_record raw_sample t =
      if ltb (length raw_sample) 4
      then warn (too_small (length raw_sample)) t
      else elim (parse_event new_packet (drop 4 raw_sample)) [
        | none ↦ warn not_parsed t
        | some event ↦ send_event event t
      ]

  unfoldable pub take : Tracer → Tracer
  take t = elim t.queue [
    | [] ↦ t
    | event ∷ events ↦ record t { taken = t.taken ++ event ∷ []; queue = events }
  ]

  unfoldable pub act : Action → Tracer → Tracer
  act (reads raw_sample) t = handle_record raw_sample t
  act takes t = take t

  unfoldable pub run_loop : List Action → Tracer → Tracer
  run_loop [] t = t
  run_loop (a ∷ actions) t = run_loop actions (act a t)

-- The lines of /proc/mounts, each split at its blanks: the first of three fields or more whose
-- third is `cgroup2`.
unfoldable pub detect_cgroup_path : List (List String) → Option String
detect_cgroup_path [] = none
detect_cgroup_path ((device ∷ path ∷ kind ∷ more) ∷ lines) =
    if kind == "cgroup2" then some path else detect_cgroup_path lines
detect_cgroup_path (fields ∷ lines) = detect_cgroup_path lines
