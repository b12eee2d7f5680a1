-- ===== src/Pipeline/Packets.antt =====
-- A packet from the eBPF program of ebpf/c/egressd.c to the channel of ebpf/tracer_linux.go.
use Prim.Native.Nat.{bit_or}
use native.Mathlib.Nat.{add-zero}
use egressd.Prelude.Bits.{bit_or_split, bit_or_zero, bit_or_zero_left}
use egressd.Prelude.{
  ℕ, suc, ◌*◌, ◌/◌, ◌^◌, ◌≡◌, refl, sym, ap, ◌∙◌, inl, inr, false, ◌&&◌, Option, none, some, List,
  ◌++◌, arith, ltb, if◌then◌else◌, ◌==◌, nat_comparable, string_comparable, Bool-cases, length,
}
use egressd.Ebpf.Egress.{SkBuff, cgroup_ingress}
use egressd.Ebpf.EgressLaws.{Packet, Loads, is_dns, cgroup_skb_generic-is_dns}
use egressd.Dns.Tracer.{
  Layer, parse_event, drop, too_small, not_parsed, warn, Tracer, send_event, handle_record, act,
  run_loop,
}
use egressd.Pipeline.{le32, bytes_from, Fate, delivered, counted, missed, records_of}

-- The upper half of the flags is the length of the packet.
flags_len : (len : ℕ) → bit_or 4294967295 (len * 2 ^ 32) / 2 ^ 32 ≡ len
flags_len len =
    let split = bit_or_split 32 0 4294967295 len 0 (omega arith) (omega arith) in
    let same = ap (bit_or 4294967295) (sym (add-zero (len * 2 ^ 32))) ∙ split in
    omega (arith, same, bit_or_zero 4294967295, bit_or_zero_left len)

module _ (new_packet : List ℕ → Option (Option Layer)) (queue_size : ℕ) where
  -- The tracer with the bytes of a packet.
  abbrev pub received : List ℕ → Tracer → Tracer
  received bytes t = elim (parse_event new_packet bytes) [
    | none ↦ warn not_parsed t
    | some event ↦ send_event new_packet queue_size event t
  ]

  -- A record always holds the payload, which the tracer cuts off.
  handle_record-payload :
      (word : ℕ) (bytes : List ℕ) (t : Tracer)
      → handle_record new_packet queue_size (le32 word ++ bytes) t ≡ received bytes t
  unfolding handle_record drop
  handle_record-payload word bytes t =
      let long : ltb (suc (suc (suc (suc (length bytes))))) 4 ≡ false = ground arith in rw long refl

  -- What the tracer makes of the event of a packet of these bytes.
  abbrev pub perceived : Fate → List ℕ → Tracer → Tracer
  perceived (delivered garbage) bytes t = received (bytes ++ garbage) t
  perceived counted bytes t = warn (too_small 0) t
  perceived missed bytes t = t

  -- What the tracer hears of a packet that enters the cgroup, with a socket buffer that has its
  -- bytes and its length. Of each DNS packet for a full socket of IPv4 an event is put out. If
  -- that is delivered, the tracer gets the bytes of the packet, whole and from its first byte on,
  -- with what garbage fills the record behind them: it sends the event that they decode to, or
  -- warns that they do not decode. If it is lost, the tracer takes the record that counts it for
  -- one that is too small, and warns, or hears nothing. Of any other packet it hears nothing.
  pub cgroup_ingress-received :
      (p : Packet) (ctx : SkBuff) (fate : Fate) (t : Tracer)
      → Loads p ctx
      → ctx.len ≡ p.size
      → run_loop new_packet queue_size (records_of p fate ctx) t ≡ (
          if ctx.family == 2 && ctx.sk && ctx.fullsock && is_dns p
          then perceived fate (bytes_from p.byte 0 p.size) t
          else t)
  unfolding cgroup_ingress run_loop act handle_record
  cgroup_ingress-received p ctx (delivered garbage) t loads len =
      rw (cgroup_skb_generic-is_dns p ctx loads)
        (elim (Bool-cases (ctx.family == 2 && ctx.sk && ctx.fullsock && is_dns p)) [
          | inl dns ↦ rw dns (
              handle_record-payload ctx.len _ t
              ∙ ap (λ (n : ℕ). received (bytes_from p.byte 0 n ++ garbage) t)
                  (flags_len ctx.len ∙ len))
          | inr other ↦ rw other refl
        ])
  cgroup_ingress-received p ctx counted t loads len =
      rw (cgroup_skb_generic-is_dns p ctx loads)
        (elim (Bool-cases (ctx.family == 2 && ctx.sk && ctx.fullsock && is_dns p)) [
          | inl dns ↦ rw dns refl
          | inr other ↦ rw other refl
        ])
  cgroup_ingress-received p ctx missed t loads len = ground arith
