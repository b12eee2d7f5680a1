-- ===== src/Ebpf/IoctlLaws.antt =====
-- The numbers that `_IOW` of ebpf/c/include/vmlinux_missing.h makes.
use Prim.Native.Nat.{bit_or}
use egressd.Prelude.Bits.{bit_or_split, bit_or_above, bit_or_zero}
use egressd.Prelude.{
  ℕ, ◌+◌, ◌*◌, ◌/◌, ◌%◌, ◌^◌, ◌<◌, ◌≡◌, refl, Option, none, some, arith, String, nat_comparable,
  string_comparable,
}
use egressd.Ebpf.Ctype.{CType, ident}
use egressd.Ebpf.Declare.{
  Env, declare, declare_one, measure, enumerate, eval, expansion_depth, ◌>>=◌,
}
use egressd.Ebpf.Program.{
  Arch, x86, arm64, arch_declarations, arch_macros, parts, declare_parts, program_env,
}
use egressd.Prelude.Table.{lookup}
use egressd.Ebpf.ReadLaws.{in_program}
use egressd.Ebpf.Missing.{shift_left, ioc, ioc_typecheck, iow}

abbrev HasValue : Option Env → String → ℕ → Type 0
HasValue o name n = (o >>= λ env. eval expansion_depth env (ident name)) ≡ some n

abbrev Shifts : Option Env → Type 0
Shifts o =
    HasValue o "_IOC_DIRSHIFT" 30
    × HasValue o "_IOC_TYPESHIFT" 8
    × HasValue o "_IOC_NRSHIFT" 0
    × HasValue o "_IOC_SIZESHIFT" 16
    × HasValue o "_IOC_WRITE" 1

program_env-Shifts : (arch : Arch) → Shifts (program_env arch)
unfolding program_env declare_parts parts arch_declarations arch_macros declare declare_one measure
    lookup enumerate eval
program_env-Shifts x86 = (refl, refl, refl, refl, refl)
program_env-Shifts arm64 = (refl, refl, refl, refl, refl)

joined : ℕ → ℕ → ℕ → ℕ
joined type nr size =
    bit_or (bit_or (bit_or (shift_left 1 30) (shift_left type 8)) (shift_left nr 0))
      (shift_left size 16)

joined_fields :
    (type nr size : ℕ)
    → type < 256
    → nr < 256
    → size < 2 ^ 14
    → joined type nr size ≡ 2 ^ 30 + size * 2 ^ 16 + type * 2 ^ 8 + nr
unfolding joined
joined_fields type nr size t n s = ground (
  arith,
  bit_or_above 30 1 (type * 2 ^ 8) (omega arith),
  bit_or_above 8 (2 ^ 22 + type) nr (omega arith),
  bit_or_split 16 (2 ^ 14) (type * 2 ^ 8 + nr) size 0 (omega arith) (omega arith),
  bit_or_above 14 1 size (omega arith),
  bit_or_zero (type * 2 ^ 8 + nr),
)

iow-joined :
    (o : Option Env) (type nr size : ℕ) (t : CType)
    → Shifts o
    → (o >>= λ env. ioc_typecheck env t) ≡ some size
    → (o >>= λ env. iow env type nr t) ≡ some (joined type nr size)
unfolding iow ioc joined
iow-joined none type nr size t shifts e = cc
iow-joined (some env) type nr size t (dir, typ, num, siz, write) e =
    rw (write, e, dir, typ, num, siz)

-- On both targets `_IOW` gives a number whose four fields, the direction in its top two bits, the
-- size in the 14 below, then the type and the number with eight bits each, are 1 and the three
-- arguments, when the type and the number fit eight bits and the size of the given C type fits 14.
pub iow_fields :
    (arch : Arch) (type nr size : ℕ) (t : CType)
    → type < 256
    → nr < 256
    → size < 2 ^ 14
    → in_program arch (λ env. ioc_typecheck env t) ≡ some size
    → (n : ℕ) × (in_program arch (λ env. iow env type nr t) ≡ some n)
      × (n / 2 ^ 30 ≡ 1)
      × (n / 2 ^ 16 % 2 ^ 14 ≡ size)
      × (n / 2 ^ 8 % 2 ^ 8 ≡ type)
      × (n % 2 ^ 8 ≡ nr)
unfolding in_program
iow_fields arch type nr size t small small' small'' e =
    let eq = joined_fields type nr size small small' small'' in
    (
      joined type nr size,
      iow-joined (program_env arch) type nr size t (program_env-Shifts arch) e,
      omega (arith, eq),
      omega (arith, eq),
      omega (arith, eq),
      omega (arith, eq),
    )
