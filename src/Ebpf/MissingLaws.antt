-- ===== src/Ebpf/MissingLaws.antt =====
-- What the functions of ebpf/c/include/vmlinux_missing.h compute.
use Prim.Native.Nat.{bit_or}
use native.Mathlib.Nat.{mul-le-mul_right, suc-mul}
use egressd.Prelude.Bits.{bit_or-ge}
use egressd.Prelude.{
  ℕ, zero, suc, ◌+◌, ◌*◌, ◌/◌, ◌%◌, ◌^◌, ◌≤◌, ◌<◌, ◌≡◌, refl, ap, Bool, true, ◌&&◌, Option, none,
  some, [], ◌∷◌, arith, String, ◌==◌, nat_comparable, string_comparable,
}
use egressd.Ebpf.Layout.{
  struct_paths, member_paths, union_paths, start_of, union_layout, max_align, struct_layout,
  struct_end, union_end,
}
use egressd.Ebpf.Declare.{Env, declare, declare_one, measure, enumerate, eval, ◌>>=◌}
use egressd.Ebpf.Program.{
  Arch, x86, arm64, arch_declarations, arch_macros, parts, declare_parts, program_env,
}
use egressd.Prelude.Table.{lookup}
use egressd.Ebpf.Reads.{same_path, find_path, expand, locate, le_bytes, read_bits, read_element}
use egressd.Ebpf.ReadLaws.{in_program, IsAt, Reads, in_program-read, spot}
use egressd.Ebpf.Egress.{Memory}
use egressd.Ebpf.Missing.{ipv6_addr_any, inet_sk, get_type_size, get_node_addr}

-- The n bytes from an address on are zero.
pub zero_bytes : Memory → ℕ → ℕ → Bool
zero_bytes mem at zero = true
zero_bytes mem at (suc n) = mem at == 0 && zero_bytes mem (at + 1) n

u6_addr32_place :
    (arch : Arch)
    → IsAt arch "struct in6_addr" ("in6_u" ∷ "u6_addr32" ∷ []) ("in6_u" ∷ "u6_addr32" ∷ []) 0 128
unfolding in_program program_env declare_parts parts arch_declarations arch_macros declare
    declare_one measure lookup enumerate eval locate expand find_path same_path struct_paths
    member_paths union_paths start_of union_layout max_align struct_layout union_end struct_end
u6_addr32_place x86 = refl
u6_addr32_place arm64 = refl

any_word : ℕ → ℕ → ℕ → ℕ → Bool
any_word a b c d = bit_or (bit_or (bit_or a b) c) d == 0

any_word-zero : (a b c d : ℕ) → any_word a b c d ≡ (a == 0 && b == 0 && c == 0 && d == 0)
unfolding any_word
any_word-zero a b c d =
    ground (arith, bit_or-ge a b, bit_or-ge (bit_or a b) c, bit_or-ge (bit_or (bit_or a b) c) d)

module _ (mem : Memory) (byte : (i : ℕ) → mem i < 256) where
  word_at : ℕ → ℕ
  word_at at = le_bytes mem at 4 / 1 % 2 ^ 32

  zero_bytes-word :
      (at n : ℕ)
      → zero_bytes mem at (4 + n) ≡ (word_at at == 0 && zero_bytes mem (at + 1 + 1 + 1 + 1) n)
  unfolding word_at le_bytes zero_bytes
  zero_bytes-word at n =
      ground (arith, byte at, byte (at + 1), byte (at + 1 + 1), byte (at + 1 + 1 + 1))

  words-zero_bytes : any_word (word_at 0) (word_at 4) (word_at 8) (word_at 12) ≡ zero_bytes mem 0 16
  unfolding zero_bytes
  words-zero_bytes = ground (
    arith,
    any_word-zero (word_at 0) (word_at 4) (word_at 8) (word_at 12),
    zero_bytes-word 0 12,
    zero_bytes-word 4 8,
    zero_bytes-word 8 4,
    zero_bytes-word 12 0,
  )

  -- On both targets the address that `ipv6_addr_any` is given counts as any exactly when all of its
  -- 16 bytes are zero; the test reads no other byte.
  pub ipv6_addr_any-zero_bytes :
      (arch : Arch) → in_program arch (λ env. ipv6_addr_any env mem) ≡ some (zero_bytes mem 0 16)
  unfolding in_program ipv6_addr_any read_element read_bits word_at any_word
  ipv6_addr_any-zero_bytes arch = go (program_env arch) (u6_addr32_place arch)
    where
      go :
          (o : Option Env)
          → (o >>= λ env. locate env "struct in6_addr" ("in6_u" ∷ "u6_addr32" ∷ []))
            ≡ spot ("in6_u" ∷ "u6_addr32" ∷ []) 0 128
          → (o >>= λ env. ipv6_addr_any env mem) ≡ some (zero_bytes mem 0 16)
      go none e = cc
      go (some env) e = rw e (ap some words-zero_bytes)

abbrev IsAtBoth : Arch → String → String → String → ℕ → ℕ → Type 0
IsAtBoth arch inet_name name field start width =
    IsAt arch "struct inet_sock" (inet_name ∷ []) ("sk" ∷ "__sk_common" ∷ field ∷ []) start width
    × IsAt arch "struct sock" (name ∷ []) ("__sk_common" ∷ field ∷ []) start width

inet_places :
    (arch : Arch)
    → IsAtBoth arch "inet_daddr" "sk_daddr" "skc_daddr" 0 32
      × IsAtBoth arch "inet_rcv_saddr" "sk_rcv_saddr" "skc_rcv_saddr" 32 32
      × IsAtBoth arch "inet_dport" "sk_dport" "skc_dport" 64 16
      × IsAtBoth arch "inet_num" "sk_num" "skc_num" 80 16
unfolding in_program program_env declare_parts parts arch_declarations arch_macros declare
    declare_one measure lookup enumerate eval locate expand find_path same_path struct_paths
    member_paths union_paths start_of union_layout max_align struct_layout union_end struct_end
inet_places x86 = ((refl, refl), (refl, refl), (refl, refl), (refl, refl))
inet_places arm64 = ((refl, refl), (refl, refl), (refl, refl), (refl, refl))

-- Memory as seen from an address.
abbrev pub from : ℕ → Memory → Memory
from base mem i = mem (base + i)

-- `inet_sk(sk)->inet_name` and `sk->name` both compile, to the same value.
abbrev pub SameField : Arch → ℕ → Memory → String → String → Type 0
SameField arch sk mem inet_name name =
    (x : ℕ) × Reads arch "struct inet_sock" (inet_name ∷ []) (from (inet_sk sk) mem) x
    × Reads arch "struct sock" (name ∷ []) (from sk mem) x

same_field :
    (arch : Arch) (sk : ℕ) (mem : Memory) (inet_name name field : String) (start width : ℕ)
    → IsAtBoth arch inet_name name field start width
    → SameField arch sk mem inet_name name
same_field arch sk mem inet_name name field start width (inet, plain) = (
  _,
  in_program-read arch "struct inet_sock" _ _ start width (from sk mem) inet,
  in_program-read arch "struct sock" _ _ start width (from sk mem) plain,
)

-- On both targets and at any address, the four macros that name fields of `struct inet_sock` read,
-- through the pointer that `inet_sk` makes of a socket's, what the macros for the fields of
-- `struct sock` read from the socket itself.
inet_sk-fields :
    (arch : Arch) (sk : ℕ) (mem : Memory)
    → SameField arch sk mem "inet_daddr" "sk_daddr"
      × SameField arch sk mem "inet_rcv_saddr" "sk_rcv_saddr"
      × SameField arch sk mem "inet_dport" "sk_dport"
      × SameField arch sk mem "inet_num" "sk_num"
inet_sk-fields arch sk mem =
    let (daddr, saddr, dport, num) = inet_places arch in
    (
      same_field arch sk mem _ _ _ _ _ daddr,
      same_field arch sk mem _ _ _ _ _ saddr,
      same_field arch sk mem _ _ _ _ _ dport,
      same_field arch sk mem _ _ _ _ _ num,
    )

next_element : (i j s : ℕ) → i < j → i * s + s ≤ j * s
next_element i j s less = omega (arith, mul-le-mul_right s less, suc-mul i s)

elements_apart :
    (base count i j s : ℕ)
    → base < 2 ^ 64
    → base + count * s ≤ 2 ^ 64
    → i < j
    → j < count
    → (base + i * s) % 2 ^ 64 + s ≤ (base + j * s) % 2 ^ 64
elements_apart base count i j zero start fits less inside = omega arith
elements_apart base count i j (suc s) start fits less inside =
    omega (arith, next_element i j (suc s) less, next_element j count (suc s) inside)

-- The nodes of an array that ends within the address space do not overlap: the node of a lower
-- index ends where the next begins or before it, whatever size the running kernel gives the type.
get_node_addr-apart :
    (type_size : String → ℕ) (type : String) (base count i j : ℕ)
    → base < 2 ^ 64
    → base + count * get_type_size type_size type ≤ 2 ^ 64
    → i < j
    → j < count
    → get_node_addr type_size type base i + get_type_size type_size type
      ≤ get_node_addr type_size type base j
unfolding get_node_addr
get_node_addr-apart type_size type base count i j =
    elements_apart base count i j (get_type_size type_size type)
