-- ===== src/Ebpf/Declare.antt =====
-- A run through the declarations of a header, in order: each type is measured by those declared
-- before it, and each constant computed. `none` is what a compiler refuses: a type whose size is not
-- known where it is needed, an unknown constant, or a bit field wider than its type.
use egressd.Prelude.{
  ℕ, zero, suc, ◌+◌, ◌-◌, ◌*◌, ◌/◌, ◌%◌, ◌^◌, Bool, ◌&&◌, Option, none, some, List, [], ◌∷◌, String,
  leb, if◌then◌else◌, ◌==◌, nat_comparable, string_comparable,
}
use egressd.Prelude.Table.{lookup}
use egressd.Ebpf.Ctype.{
  Base, c_bool, char, signed_char, unsigned_char, short, unsigned_short, int, unsigned_int, long,
  unsigned_long, long_long, unsigned_long_long, Expr, lit, ident, size_of, complement, plus, minus,
  shift, divide, CType, base, pointer, named, array, struct_of, union_of, packed_of, Field, field,
  bits, Fields, end, ◌⨾◌, EnumValue, next, is, same_as, a1, a2, a4, a8, Decl, typedef, struct_def,
  union_def, enum_def, forward, constant, macro, alias,
}
use egressd.Ebpf.Layout.{
  Layout, FieldPath, Member, bytes, struct_layout, union_layout, packed_layout, struct_paths,
  union_paths, packed_paths,
}

infixl 5 ◌>>=◌
abbrev pub ◌>>=◌ {ℓ κ} : {A : Type ℓ} {B : Type κ} → Option A → (A → Option B) → Option B
none >>= f = none
some a >>= f = f a

-- The members of a declared struct or union, and its layout.
pub data Record : Type 0 where
  struct_record union_record : Layout → List Member → Record

-- A type that has been measured: its layout, and the fields that can be reached in it.
pub record Shape : Type 0 where
  pub layout : Layout
  pub inner : List FieldPath

-- The newest declaration comes first.
pub record Env : Type 0 where
  pub types : List (String × Shape)
  pub aliases : List (String × List String)
  pub records : List (String × Record)
  pub constants : List (String × ℕ)
  pub macros : List (String × Expr)

abbrev pub empty_env : Env
empty_env = record { types = []; aliases = []; records = []; constants = []; macros = [] }

abbrev pub base_layout : Base → Layout
base_layout c_bool = record { size = 1; align = a1 }
base_layout char = record { size = 1; align = a1 }
base_layout signed_char = record { size = 1; align = a1 }
base_layout unsigned_char = record { size = 1; align = a1 }
base_layout short = record { size = 2; align = a2 }
base_layout unsigned_short = record { size = 2; align = a2 }
base_layout int = record { size = 4; align = a4 }
base_layout unsigned_int = record { size = 4; align = a4 }
base_layout long = record { size = 8; align = a8 }
base_layout unsigned_long = record { size = 8; align = a8 }
base_layout long_long = record { size = 8; align = a8 }
base_layout unsigned_long_long = record { size = 8; align = a8 }

abbrev pointer_layout : Layout
pointer_layout = record { size = 8; align = a8 }

abbrev pub enum_layout : Layout
enum_layout = record { size = 4; align = a4 }

abbrev pub atom : Layout → Shape
atom l = record { layout = l; inner = [] }

abbrev pub word_mod : ℕ
word_mod = 2 ^ 64

-- How deep one macro may stand in the expansion of another. The deepest of the headers is
-- _IOC_DIRSHIFT, whose expansion has four levels.
abbrev pub expansion_depth : ℕ
expansion_depth = 8

-- A macro is expanded where it is used. A value is the bit pattern of its 64 bits; those of the
-- headers that are narrower and negative have their sign extended.
unfoldable pub eval : ℕ → Env → Expr → Option ℕ
eval depth env (lit n) = some n
eval zero env (ident name) = none
eval (suc depth) env (ident name) = elim (lookup name env.macros) [
  | none ↦ lookup name env.constants
  | some e ↦ eval depth env e
]
eval depth env (size_of b) = some (base_layout b).size
eval depth env (complement e) = do a ← eval depth env e; some (word_mod - 1 - a % word_mod)
eval depth env (plus e f) = do a ← eval depth env e; b ← eval depth env f; some ((a + b) % word_mod)
eval depth env (minus e f) = do
  a ← eval depth env e
  b ← eval depth env f
  some ((a + word_mod - b) % word_mod)
eval depth env (shift e f) = do
  a ← eval depth env e
  b ← eval depth env f
  some (a * 2 ^ b % word_mod)
eval depth env (divide e f) = do a ← eval depth env e; b ← eval depth env f; some (a / b)

-- A bit field is of an integer type, has a bit at least and fits its type.
abbrev pub fits : Layout → ℕ → Bool
fits l w = leb 1 w && leb w (8 * bytes l.align) && l.size == bytes l.align

unfoldable mutual
  pub measure : Env → CType → Option Shape
  measure env (base b) = some (atom (base_layout b))
  measure env (pointer text) = some (atom pointer_layout)
  measure env (named name) = lookup name env.types
  measure env (array t n) = do
    sh ← measure env t
    k ← eval expansion_depth env n
    some (atom (record { size = sh.layout.size * k; align = sh.layout.align }))
  measure env (struct_of fs) = do
    ms ← members env fs
    some (record { layout = struct_layout a1 ms; inner = struct_paths 0 ms })
  measure env (union_of fs) = do
    ms ← members env fs
    some (record { layout = union_layout ms; inner = union_paths ms })
  measure env (packed_of fs) = do
    ms ← members env fs
    some (record { layout = packed_layout ms; inner = packed_paths 0 ms })

  pub member : Env → Field → Option Member
  member env (field name t) = do
    sh ← measure env t
    some (record { name = name; layout = sh.layout; inner = sh.inner; bit_width = none })
  member env (bits name t w) = do
    sh ← measure env t
    if fits sh.layout w
        then some (record { name = name; layout = sh.layout; inner = []; bit_width = some w })
        else none

  pub members : Env → Fields → Option (List Member)
  members env end = some []
  members env (f ⨾ fs) = do m ← member env f; ms ← members env fs; some (m ∷ ms)

abbrev pub add_type : String → Shape → Env → Env
add_type name sh env = record env { types = (name, sh) ∷ env.types }

abbrev pub add_record : String → Record → Env → Env
add_record name r env = record env { records = (name, r) ∷ env.records }

abbrev pub add_constant : String → ℕ → Env → Env
add_constant name n env = record env { constants = (name, n) ∷ env.constants }

-- The value of an enumerator, from the one that would come next.
abbrev pub enum_value : Env → EnumValue → ℕ → Option ℕ
enum_value env next n = some n
enum_value env (is k) n = some k
enum_value env (same_as name) n = lookup name env.constants

unfoldable pub enumerate : ℕ → List (String × EnumValue) → Env → Option Env
enumerate n [] env = some env
enumerate n ((name, v) ∷ values) env = do
  k ← enum_value env v n
  enumerate (k + 1) values (add_constant name k env)

abbrev pub tagged : String → Env → Env
tagged tag env = if tag == "" then env else add_type tag (atom enum_layout) env

unfoldable pub declare_one : Decl → Env → Option Env
declare_one (typedef name t) env = do sh ← measure env t; some (add_type name sh env)
declare_one (struct_def aligned name fs) env = do
  ms ← members env fs
  let l = struct_layout aligned ms
  some (
      add_record name (struct_record l ms)
        (add_type name (record { layout = l; inner = struct_paths 0 ms }) env))
declare_one (union_def name fs) env = do
  ms ← members env fs
  let l = union_layout ms
  some (
      add_record name (union_record l ms)
        (add_type name (record { layout = l; inner = union_paths ms }) env))
declare_one (enum_def tag values) env = enumerate 0 values (tagged tag env)
declare_one (forward name) env = some env
declare_one (constant name e) env = do
  n ← eval expansion_depth env e
  some (add_constant name n env)
declare_one (macro name e) env = some (record env { macros = (name, e) ∷ env.macros })
declare_one (alias name path) env = some (record env { aliases = (name, path) ∷ env.aliases })

unfoldable pub declare : List Decl → Env → Option Env
declare [] env = some env
declare (d ∷ ds) env = declare_one d env >>= declare ds
