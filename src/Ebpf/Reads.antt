-- ===== src/Ebpf/Reads.antt =====
-- How C reads a field of a declared type out of memory, on the little-endian targets, and the
-- functions of ebpf/c/include/vmlinux_missing.h that do.
use egressd.Prelude.{
  ℕ, zero, suc, ◌+◌, ◌*◌, ◌/◌, ◌%◌, ◌^◌, Bool, true, false, ◌&&◌, Option, none, some, List, [], ◌∷◌,
  ◌++◌, String, if◌then◌else◌, ◌==◌, nat_comparable, string_comparable,
}
use egressd.Prelude.Table.{lookup}
use egressd.Ebpf.Layout.{FieldPath}
use egressd.Ebpf.Declare.{Env, ◌>>=◌}
use egressd.Ebpf.Egress.{Memory}

unfoldable pub same_path : List String → List String → Bool
same_path [] [] = true
same_path [] (y ∷ ys) = false
same_path (x ∷ xs) [] = false
same_path (x ∷ xs) (y ∷ ys) = x == y && same_path xs ys

unfoldable pub find_path : List String → List FieldPath → Option FieldPath
find_path path [] = none
find_path path (p ∷ ps) = if same_path p.path path then some p else find_path path ps

-- A name that a macro gives to a path of fields stands for the path.
unfoldable pub expand : Env → List String → List String
expand env [] = []
expand env (name ∷ path) =
    elim (lookup name env.aliases) [ none ↦ name ∷ [] | some names ↦ names ] ++ expand env path

-- The bits of `x.path`, where `x` has that type.
unfoldable pub locate : Env → String → List String → Option FieldPath
locate env type path = lookup type env.types >>= λ sh. find_path (expand env path) sh.inner

unfoldable pub size_of_type : Env → String → Option ℕ
size_of_type env type = lookup type env.types >>= λ sh. some sh.layout.size

-- The number in n bytes from an address on, the lowest first.
unfoldable pub le_bytes : Memory → ℕ → ℕ → ℕ
le_bytes mem at zero = 0
le_bytes mem at (suc n) = mem at + 256 * le_bytes mem (at + 1) n

unfoldable pub read_bits : Memory → ℕ → ℕ → ℕ
read_bits mem start width =
    le_bytes mem (start / 8) ((start % 8 + width + 7) / 8) / 2 ^ (start % 8) % 2 ^ width

-- `x.path`, where `x` is at address 0.
unfoldable pub read : Env → String → List String → Memory → Option ℕ
read env type path mem = locate env type path >>= λ p. some (read_bits mem p.start p.width)

-- `x.path[i]`, of elements of some width.
unfoldable pub read_element : Env → String → List String → ℕ → ℕ → Memory → Option ℕ
read_element env type path width i mem =
    locate env type path >>= λ p. some (read_bits mem (p.start + width * i) width)
