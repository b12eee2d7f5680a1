-- ===== src/Ebpf/DeclareLaws.antt =====
-- What holds of every struct and union that the headers declare, in whatever environment.
use egressd.Prelude.{
  ℕ, ◌+◌, ◌≡◌, refl, ap, inl, inr, Bool, true, false, Option, none, some, List, [], ◌∷◌, arith,
  String, ◌==◌, nat_comparable, string_comparable, Bool-cases, All,
}
use egressd.Prelude.Table.{lookup}
use egressd.Ebpf.Ctype.{
  Field, field, bits, Fields, end, ◌⨾◌, EnumValue, Decl, typedef, struct_def, union_def, enum_def,
  forward, constant, macro, alias,
}
use egressd.Ebpf.Layout.{Member, struct_places, union_places}
use egressd.Ebpf.LayoutLaws.{member_fits, AllFit, Apart, IsPlaced, struct-IsPlaced, union-IsPlaced}
use egressd.Ebpf.Declare.{
  Record, struct_record, union_record, Env, empty_env, expansion_depth, eval, measure, member,
  members, ◌>>=◌, enum_value, enumerate, add_constant, tagged, declare_one, declare,
}
use egressd.Ebpf.Program.{
  Arch, x86, arm64, arch_declarations, arch_macros, parts, declare_parts, program_env,
}

abbrev pub IsRecord : Record → Type 0
IsRecord (struct_record l ms) = IsPlaced l (struct_places 0 ms) × Apart (struct_places 0 ms)
IsRecord (union_record l ms) = IsPlaced l (union_places ms)

-- Every declared record is laid out soundly.
abbrev pub IsSound : Env → Type 0
IsSound env = All (λ (r : String × Record). IsRecord r.1) env.records

pub bind-some {ℓ κ} :
    {A : Type ℓ} {B : Type κ} (m : Option A) (f : A → Option B) {b : B}
    → (m >>= f) ≡ some b
    → (a : A) × (m ≡ some a) × (f a ≡ some b)
bind-some none f e = cc
bind-some (some a) f e = (a, refl, e)

member-fits : (env : Env) (f : Field) (m : Member) → member env f ≡ some m → member_fits m ≡ true
unfolding member
member-fits env (field name t) m e = let (l, u, v) = bind-some (measure env t) _ e in ground arith
member-fits env (bits name t w) m e = let (l, u, v) = bind-some (measure env t) _ e in ground arith

pub some-inj {ℓ} : {A : Type ℓ} {a b : A} → some a ≡ some b → a ≡ b
some-inj {a = a} e = ap (λ o. elim o [ none ↦ a | some x ↦ x ]) e

members-AllFit : (env : Env) (fs : Fields) (ms : List Member) → members env fs ≡ some ms → AllFit ms
unfolding members
members-AllFit env end ms e = rw (← some-inj e) tt
members-AllFit env (f ⨾ fs) ms e =
    let (m, u, rest) = bind-some (member env f) _ e in
    let (ms', v, w) = bind-some (members env fs) _ rest in
    rw (← some-inj w) (member-fits env f m u, members-AllFit env fs ms' v)

-- What one more constant, or one more declaration, keeps, the whole list does.
module _ (P : Env → Type 0) where
  pub enumerate_keeps :
      (n : ℕ) (values : List (String × EnumValue)) (env env' : Env)
      → ((name : String) (k : ℕ) (env : Env) → P env → P (add_constant name k env))
      → enumerate n values env ≡ some env'
      → P env
      → P env'
  unfolding enumerate
  enumerate_keeps n [] env env' step e h = rw (← some-inj e) h
  enumerate_keeps n ((name, v) ∷ values) env env' step e h =
      let (k, u, rest) = bind-some (enum_value env v n) _ e in
      enumerate_keeps (k + 1) values (add_constant name k env) env' step rest (step name k env h)

  module _
      (step : (d : Decl) (env env' : Env) → declare_one d env ≡ some env' → P env → P env') where
    declare_keeps : (ds : List Decl) (env env' : Env) → declare ds env ≡ some env' → P env → P env'
    unfolding declare
    declare_keeps [] env env' e h = rw (← some-inj e) h
    declare_keeps (d ∷ ds) env env' e h =
        let (env2, u, v) = bind-some (declare_one d env) (declare ds) e in
        declare_keeps ds env2 env' v (step d env env2 u h)

    pub declare_parts_keeps :
        (rest : List (List Decl)) (env env' : Env)
        → declare_parts rest env ≡ some env'
        → P env
        → P env'
    unfolding declare_parts
    declare_parts_keeps [] env env' e h = rw (← some-inj e) h
    declare_parts_keeps (ds ∷ rest) env env' e h =
        let (env2, u, v) = bind-some (declare ds env) (declare_parts rest) e in
        declare_parts_keeps rest env2 env' v (declare_keeps ds env env2 u h)

tagged-IsSound : (tag : String) (env : Env) → IsSound env → IsSound (tagged tag env)
tagged-IsSound tag env h = elim (Bool-cases (tag == "")) [
  | inl anonymous ↦ rw anonymous h
  | inr new ↦ rw new h
]

declare_one-IsSound :
    (d : Decl) (env env' : Env) → declare_one d env ≡ some env' → IsSound env → IsSound env'
unfolding declare_one
declare_one-IsSound (typedef name t) env env' e h =
    let (l, u, v) = bind-some (measure env t) _ e in rw (← some-inj v) h
declare_one-IsSound (struct_def aligned name fs) env env' e h =
    let (ms, u, v) = bind-some (members env fs) _ e in
    rw (← some-inj v) (struct-IsPlaced aligned ms (members-AllFit env fs ms u), h)
declare_one-IsSound (union_def name fs) env env' e h =
    let (ms, u, v) = bind-some (members env fs) _ e in
    rw (← some-inj v) (union-IsPlaced ms (members-AllFit env fs ms u), h)
declare_one-IsSound (enum_def tag values) env env' e h =
    enumerate_keeps IsSound 0 values (tagged tag env) env' (λ name k env h. h) e
      (tagged-IsSound tag env h)
declare_one-IsSound (forward name) env env' e h = rw (← some-inj e) h
declare_one-IsSound (macro name x) env env' e h = rw (← some-inj e) h
declare_one-IsSound (alias name path) env env' e h = rw (← some-inj e) h
declare_one-IsSound (constant name x) env env' e h =
    let (n, u, v) = bind-some (eval expansion_depth env x) _ e in rw (← some-inj v) h

is_some {ℓ} : {A : Type ℓ} → Option A → Bool
is_some none = false
is_some (some a) = true

some_of {ℓ} : {A : Type ℓ} (o : Option A) → is_some o ≡ true → (a : A) × (o ≡ some a)
unfolding is_some
some_of none e = cc
some_of (some a) e = (a, refl)

-- Both targets accept the headers.
program_env_some : (arch : Arch) → is_some (program_env arch) ≡ true
unfolding is_some program_env declare_parts parts arch_declarations arch_macros declare declare_one
    measure lookup enumerate eval
program_env_some x86 = refl
program_env_some arm64 = refl

pub program_env_accepts : (arch : Arch) → (env : Env) × (program_env arch ≡ some env)
program_env_accepts arch = some_of (program_env arch) (program_env_some arch)

-- On both targets the headers hold together: each type is declared before its size is needed. Of
-- every struct they declare, the fields lie in it, one after the other without overlap, each at a
-- multiple of its alignment or, for a bit field, within one unit of its type; of every union, the
-- fields lie in it, so aligned. The size of each is a multiple of its alignment, which is no less
-- than that of any field.
program_env-IsSound : (arch : Arch) → (env : Env) × (program_env arch ≡ some env) × IsSound env
unfolding program_env
program_env-IsSound arch =
    let (env, e) = program_env_accepts arch in
    (env, e, declare_parts_keeps IsSound declare_one-IsSound (parts arch) empty_env env e tt)
