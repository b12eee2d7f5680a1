-- ===== src/Pipeline.antt =====
-- Where the parts meet: ebpf/c/egressd.c puts out an event with a packet, ebpf/tracer_linux.go reads
-- it as a record, dns/resolutions.go keeps the names of its answers, and the exporter looks them up.
pub mod Packets
pub mod Answers
pub mod Sites
pub mod SiteLaws
pub mod Delivery
pub mod Watcher
use egressd.Prelude.{
  ℕ, zero, suc, ◌+◌, ◌-◌, ◌*◌, ◌/◌, ◌%◌, ◌^◌, ◌≤◌, ◌<◌, ◌≡◌, refl, sym, ap, ◌∙◌, ◌≢◌, ◌↔◌, ◌⊎◌, inl,
  inr, Bool, true, false, not, ◌&&◌, ◌||◌, Option, none, some, List, [], ◌∷◌, ◌++◌, map, arith,
  String, ltb, leb, if◌then◌else◌, Comparable, ◌==◌, nat_comparable, string_comparable, nat_beq_iff,
  Bool-cases, Option-cases, length, sum_by, any, keep, All, length-append, sum_by-append,
  All-append, length-keep-le, keep-All, contains,
}
use egressd.Ebpf.Egress.{PerfEvent, SkBuff, Run, out_of_bounds, returns, cgroup_ingress}
use egressd.Ebpf.EgressLaws.{Packet}
use egressd.Dns.Tracer.{Layer, Tracer, Action, reads, run_loop}

-- A `u32` in memory.
abbrev pub le32 : ℕ → List ℕ
le32 x = x % 256 ∷ x / 256 % 256 ∷ x / 65536 % 256 ∷ x / 16777216 % 256 ∷ []

abbrev pub bytes_from : (ℕ → ℕ) → ℕ → ℕ → List ℕ
bytes_from byte at zero = []
bytes_from byte at (suc n) = byte at ∷ bytes_from byte (at + 1) n

-- What becomes of an event that `bpf_perf_event_output` is asked to put out, as it and the reader of
-- github.com/cilium/ebpf are documented: it is read, with up to seven bytes of garbage, which fill
-- the record; it is lost, and the reader hands over a record that counts lost samples and holds no
-- bytes; or nothing of it is read, because the output fails or another record counts it.
pub data Fate : Type 0 where
  delivered : List ℕ → Fate
  counted missed : Fate

-- A record that is read: the payload, as many bytes of the packet as the upper half of the flags
-- says, and the garbage.
abbrev pub raw_sample : Packet → List ℕ → PerfEvent → List ℕ
raw_sample p garbage event =
    le32 event.bytes ++ (bytes_from p.byte 0 (event.flags / 2 ^ 32) ++ garbage)

abbrev pub put_out : Run → List PerfEvent
put_out out_of_bounds = []
put_out (returns verdict events) = events

-- The records of a packet that enters the cgroup.
abbrev pub records_of : Packet → Fate → SkBuff → List Action
records_of p (delivered garbage) ctx =
    map (λ event. reads (raw_sample p garbage event)) (put_out (cgroup_ingress ctx))
records_of p counted ctx = map (λ event. reads []) (put_out (cgroup_ingress ctx))
records_of p missed ctx = []
