-- ===== src/Ebpf/EgressLaws.antt =====
-- What the program of ebpf/c/egressd.c does with a packet.
use Prim.Native.Nat.{bit_or}
use native.Mathlib.Nat.{add-zero, add_assoc}
use egressd.Prelude.{
  ℕ, ◌+◌, ◌-◌, ◌*◌, ◌/◌, ◌%◌, ◌^◌, ◌≤◌, ◌<◌, ◌≡◌, ap, inl, inr, Bool, ◌&&◌, ◌||◌, [], ◌∷◌, arith,
  ltb, leb, if◌then◌else◌, ◌==◌, nat_comparable, string_comparable, Bool-cases,
}
use egressd.Ebpf.Egress.{
  SkBuff, Run, returns, Memory, write_at, load_into, pass, ntohs_at, emit, check_ports, load_l4,
  reload_l3, cgroup_skb_generic,
}

-- A packet from its network header on.
pub record Packet : Type 0 where
  pub size : ℕ
  pub byte : ℕ → ℕ
  pub byte-lt : (i : ℕ) → byte i < 256

-- The documented behaviour of `bpf_skb_load_bytes_relative`: it fails exactly when the packet is
-- too short, and otherwise writes the bytes that it was asked for.
pub record Loads (p : Packet) (ctx : SkBuff) : Type 0 where
  pub fails : (off len : ℕ) → (ctx.load_bytes off len).failed ≡ ltb p.size (off + len)
  pub copies :
      (off len i : ℕ)
      → off + len ≤ p.size
      → i < len
      → (ctx.load_bytes off len).written i ≡ p.byte (off + i)

-- The length of the IP header: its own count of words, but never less than 20 bytes.
unfoldable pub header_size : Packet → ℕ
header_size p = if ltb 5 (p.byte 0 % 16) then p.byte 0 % 16 * 4 else 20

unfoldable pub port_at : Packet → ℕ → ℕ
port_at p i = p.byte i * 256 + p.byte (i + 1)

-- The lower of the ports of the UDP header at `h` is 53.
unfoldable pub dns_ports : Packet → ℕ → Bool
unfolding port_at
dns_ports p h =
    (port_at p h == 53 && leb 53 (port_at p (h + 2)))
    || (port_at p (h + 2) == 53 && leb 53 (port_at p h))

-- An IPv4 packet with a whole UDP header, the lower of whose ports is 53.
unfoldable pub is_dns : Packet → Bool
is_dns p =
    leb 20 p.size
    && p.byte 0 / 16 == 4
    && p.byte 9 == 17
    && leb (header_size p + 8) p.size
    && dns_ports p (header_size p)

ntohs_at_bytes :
    (mem : Memory) (i : ℕ)
    → mem i < 256
    → mem (i + 1) < 256
    → ntohs_at mem i ≡ mem i * 256 + mem (i + 1)
unfolding ntohs_at
ntohs_at_bytes mem i h k = omega arith

module _ (p : Packet) (ctx : SkBuff) (loads : Loads p ctx) where
  abbrev reported : Bool → Run
  reported b = if b then emit ctx else pass

  check_ports-dns_ports :
      (h : ℕ) (mem : Memory)
      → mem 40 ≡ p.byte h
      → mem 41 ≡ p.byte (h + 1)
      → mem 42 ≡ p.byte (h + 2)
      → mem 43 ≡ p.byte (h + 2 + 1)
      → check_ports ctx mem ≡ reported (dns_ports p h)
  unfolding check_ports dns_ports
  check_ports-dns_ports h mem e0 e1 e2 e3 = ground (
    arith,
    p.byte-lt h,
    p.byte-lt (h + 1),
    p.byte-lt (h + 2),
    p.byte-lt (h + 2 + 1),
    ntohs_at_bytes mem 40,
    ntohs_at_bytes mem 42,
  )

  -- A load that succeeds leaves the packet's bytes where it puts them.
  abbrev loaded : ℕ → ℕ → ℕ → Memory → Memory
  loaded dest off size mem = write_at dest size (ctx.load_bytes off size).written mem

  loaded-byte :
      (dest off size i a : ℕ) (mem : Memory)
      → off + size ≤ p.size
      → i < size
      → a ≡ dest + i
      → loaded dest off size mem a ≡ p.byte (off + i)
  unfolding write_at
  loaded-byte dest off size i a mem fits inside e =
      let e' : a - dest ≡ i = omega arith in
      ground (arith, ap (ctx.load_bytes off size).written e', loads.copies off size i fits inside)

  -- A packet that ends before its UDP header is passed on, whatever the memory holds.
  load_l4_short : (h : ℕ) (mem : Memory) → p.size < h + 8 → load_l4 ctx h mem ≡ pass
  unfolding load_l4 load_into
  load_l4_short h mem short = ground (arith, loads.fails h 8)

  load_l4_lem :
      (h : ℕ) (mem : Memory)
      → mem 9 ≡ p.byte 9
      → load_l4 ctx h mem ≡ reported (p.byte 9 == 17 && leb (h + 8) p.size && dns_ports p h)
  unfolding load_l4 load_into
  load_l4_lem h mem e = elim (Bool-cases (leb (h + 8) p.size)) [
    | inl fits ↦
        let b = λ (i : ℕ) (a : ℕ). loaded-byte 40 h 8 i a mem (ground arith) in
        ground (
          arith,
          loads.fails h 8,
          ap p.byte (add-zero h),
          add_assoc h 2 1,
          check_ports-dns_ports h (loaded 40 h 8 mem),
          b 0 40 (omega arith) (omega arith),
          b 1 41 (omega arith) (omega arith),
          b 2 42 (omega arith) (omega arith),
          b 3 43 (omega arith) (omega arith),
        )
    | inr short ↦ ground (arith, load_l4_short h mem)
  ]

  reload_l3_lem :
      (mem : Memory)
      → mem 0 ≡ p.byte 0
      → mem 9 ≡ p.byte 9
      → reload_l3 ctx mem
        ≡ reported (
            p.byte 0 / 16 == 4
            && p.byte 9 == 17
            && leb (header_size p + 8) p.size
            && dns_ports p (header_size p))
  unfolding reload_l3 load_into header_size
  reload_l3_lem mem e0 e9 =
      let n = p.byte 0 % 16 * 4 in
      elim (Bool-cases (leb n p.size)) [
        | inl fits ↦ ground (
          arith,
          load_l4_lem n (loaded 0 0 n mem),
          load_l4_lem 20 mem,
          loaded-byte 0 0 n 9 9 mem (ground arith),
        )
        | inr short ↦ ground (arith, load_l4_short n (loaded 0 0 n mem), load_l4_lem 20 mem)
      ]

  -- The program lets every packet through and never writes outside its headers. It puts out one
  -- event, with the packet's length, exactly when the packet is IPv4, belongs to a full socket and
  -- is a DNS packet.
  pub cgroup_skb_generic-is_dns : cgroup_skb_generic ctx ≡ (
      if ctx.family == 2 && ctx.sk && ctx.fullsock && is_dns p
      then returns 1 (record { flags = bit_or 4294967295 (ctx.len * 2 ^ 32); bytes = ctx.len } ∷ [])
      else returns 1 [])
  unfolding cgroup_skb_generic load_into is_dns emit
  cgroup_skb_generic-is_dns =
      let b = λ (i : ℕ). loaded-byte 0 0 20 i i (λ j. 0) in
      ground (arith, loads.fails 0 20, reload_l3_lem (loaded 0 0 20 (λ j. 0)), b 0, b 9)
