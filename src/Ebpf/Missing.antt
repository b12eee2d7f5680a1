-- ===== src/Ebpf/Missing.antt =====
-- The functions of ebpf/c/include/vmlinux_missing.h, and its macros with arguments.
use Prim.Native.Nat.{bit_or}
use egressd.Prelude.{
  ℕ, ◌+◌, ◌*◌, ◌%◌, ◌^◌, Bool, Option, some, [], ◌∷◌, String, ◌==◌, nat_comparable,
  string_comparable,
}
use egressd.Ebpf.Ctype.{CType, named, ident}
use egressd.Ebpf.Declare.{Env, eval, expansion_depth, measure, ◌>>=◌}
use egressd.Ebpf.Egress.{Memory}
use egressd.Ebpf.Reads.{read_element}

-- `x << n` on 64 bits.
abbrev pub shift_left : ℕ → ℕ → ℕ
shift_left x n = x * 2 ^ n % 2 ^ 64

-- The shifts are macros of the header too. `size` is a `size_t`, which makes the result 64 bits wide;
-- `dir` and `type`, which have 32 bits, are small.
unfoldable pub ioc : Env → ℕ → ℕ → ℕ → ℕ → Option ℕ
ioc env dir type nr size = do
  d ← eval expansion_depth env (ident "_IOC_DIRSHIFT")
  t ← eval expansion_depth env (ident "_IOC_TYPESHIFT")
  n ← eval expansion_depth env (ident "_IOC_NRSHIFT")
  s ← eval expansion_depth env (ident "_IOC_SIZESHIFT")
  some (
      bit_or (bit_or (bit_or (shift_left dir d) (shift_left type t)) (shift_left nr n))
        (shift_left size s))

unfoldable pub ioc_typecheck : Env → CType → Option ℕ
ioc_typecheck env t = do sh ← measure env t; some sh.layout.size

unfoldable pub iow : Env → ℕ → ℕ → CType → Option ℕ
iow env type nr t = do
  dir ← eval expansion_depth env (ident "_IOC_WRITE")
  size ← ioc_typecheck env t
  ioc env dir type nr size

-- `_IOW('$', 8, __u32)`.
unfoldable pub perf_event_ioc_set_bpf : Env → Option ℕ
perf_event_ioc_set_bpf env = iow env 36 8 (named "__u32")

-- The address is at 0.
unfoldable pub ipv6_addr_any : Env → Memory → Option Bool
ipv6_addr_any env mem = do
  let word = λ (i : ℕ). read_element env "struct in6_addr" ("in6_u" ∷ "u6_addr32" ∷ []) 32 i mem
  a ← word 0
  b ← word 1
  c ← word 2
  d ← word 3
  some (bit_or (bit_or (bit_or a b) c) d == 0)

-- A cast leaves the address as it is.
abbrev pub inet_sk : ℕ → ℕ
inet_sk sk = sk

-- `bpf_core_type_size`, the size of the type in the running kernel, is a parameter.
module _ (bpf_core_type_size : String → ℕ) where
  unfoldable pub get_type_size : String → ℕ
  get_type_size type = bpf_core_type_size type

  unfoldable pub get_node_addr : String → ℕ → ℕ → ℕ
  get_node_addr node_type array index = (array + index * get_type_size node_type) % 2 ^ 64
