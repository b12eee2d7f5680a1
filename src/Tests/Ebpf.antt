-- ===== src/Tests/Ebpf.antt =====
-- The eBPF program on a concrete packet.
use Prim.Native.Nat.{bit_or}
use egressd.Prelude.{
  ℕ, ◌+◌, ◌*◌, ◌^◌, ◌<◌, ◌≡◌, refl, true, ◌&&◌, [], ◌∷◌, arith, ltb, if◌then◌else◌, ◌==◌,
  nat_comparable, string_comparable,
}
use egressd.Ebpf.Egress.{
  SkBuff, returns, cgroup_skb_generic, reload_l3, load_l4, check_ports, load_into, write_at,
  ntohs_at, emit,
}
use egressd.Ebpf.EgressLaws.{Packet, Loads, is_dns, cgroup_skb_generic-is_dns}

-- An answer from port 53 to port 40000: 20 bytes of IPv4 header and 8 of UDP header.
abbrev answer_byte : ℕ → ℕ
answer_byte i =
    if i == 0
    then 69
    else if i == 9
    then 17
    else if i == 21
    then 53
    else if i == 22
    then 156
    else if i == 23
    then 64
    else 0

pub answer_byte-lt : (i : ℕ) → answer_byte i < 256
answer_byte-lt i = ground arith

abbrev pub answer : Packet
answer = record { size = 28; byte = answer_byte; byte-lt = answer_byte-lt }

abbrev pub answer_skb : SkBuff
answer_skb = record {
  family = 2;
  len = 28;
  sk = true;
  fullsock = true;
  load_bytes =
      λ off len. record { failed = ltb 28 (off + len); written = λ i. answer_byte (off + i) };
}

pub answer-Loads : Loads answer answer_skb
answer-Loads = record { fails = λ off len. refl; copies = λ off len i h k. refl }

cgroup_skb_generic-is_dns_example : cgroup_skb_generic answer_skb ≡ (
    if answer_skb.family == 2 && answer_skb.sk && answer_skb.fullsock && is_dns answer
    then returns 1 (
        record { flags = bit_or 4294967295 (answer_skb.len * 2 ^ 32); bytes = answer_skb.len } ∷ [])
    else returns 1 [])
cgroup_skb_generic-is_dns_example = cgroup_skb_generic-is_dns answer answer_skb answer-Loads

answer_reported :
    cgroup_skb_generic answer_skb ≡ returns 1 (record { flags = 124554051583; bytes = 28 } ∷ [])
unfolding cgroup_skb_generic reload_l3 load_l4 check_ports load_into write_at ntohs_at emit
answer_reported = refl
