-- ===== src/Ebpf/MacroLaws.antt =====
-- The expansion of the macros of ebpf/c/include/vmlinux_missing.h comes to an end.
use egressd.Prelude.{
  every, every-All, ℕ, zero, suc, ◌≤◌, ◌≡◌, refl, ap, ◌∙◌, inl, inr, Bool, true, false, ◌&&◌,
  Option, none, some, arith, String, leb, ◌==◌, nat_comparable, string_comparable, Bool-cases, All,
}
use egressd.Prelude.Table.{lookup}
use egressd.Ebpf.Ctype.{Expr, lit, ident, size_of, complement, plus, minus, shift, divide}
use egressd.Ebpf.Declare.{
  Env, declare, declare_one, measure, enumerate, eval, expansion_depth, ◌>>=◌,
}
use egressd.Ebpf.Program.{
  Arch, x86, arm64, arch_declarations, arch_macros, parts, declare_parts, program_env,
}
use egressd.Ebpf.DeclareLaws.{bind-some, some-inj}
use egressd.Ebpf.ReadLaws.{in_program}

bind_with {ℓ κ} :
    {A : Type ℓ} {B : Type κ} (m m' : Option A) (f f' : A → Option B) (b : B)
    → ((a : A) → m ≡ some a → m' ≡ some a)
    → ((a : A) (c : B) → f a ≡ some c → f' a ≡ some c)
    → (m >>= f) ≡ some b
    → (m' >>= f') ≡ some b
bind_with m m' f f' b same rest e = let (a, u, v) = bind-some m f e in rw (same a u) (rest a b v)

ident_deeper :
    (depth : ℕ) (env : Env) (v : ℕ) (expansion : Option Expr) (constant : Option ℕ)
    → ((e : Expr) → eval depth env e ≡ some v → eval (suc depth) env e ≡ some v)
    → elim expansion [ none ↦ constant | some e ↦ eval depth env e ] ≡ some v
    → elim expansion [ none ↦ constant | some e ↦ eval (suc depth) env e ] ≡ some v
ident_deeper depth env v none constant deeper h = h
ident_deeper depth env v (some e) constant deeper h = deeper e h

-- A value that is found is found one level deeper.
eval_deeper :
    (depth : ℕ) (env : Env) (e : Expr) (v : ℕ)
    → eval depth env e ≡ some v
    → eval (suc depth) env e ≡ some v
unfolding eval
eval_deeper depth env (lit n) v h = h
eval_deeper zero env (ident name) v h = cc
eval_deeper (suc depth) env (ident name) v h =
    ident_deeper depth env v (lookup name env.macros) _ (λ e. eval_deeper depth env e v) h
eval_deeper depth env (size_of b) v h = h
eval_deeper depth env (complement e) v h =
    bind_with _ _ _ _ v (eval_deeper depth env e) (λ a c same. same) h
eval_deeper depth env (plus e f) v h =
    bind_with _ _ _ _ v (eval_deeper depth env e)
      (λ a c. bind_with _ _ _ _ c (eval_deeper depth env f) (λ b d same. same)) h
eval_deeper depth env (minus e f) v h =
    bind_with _ _ _ _ v (eval_deeper depth env e)
      (λ a c. bind_with _ _ _ _ c (eval_deeper depth env f) (λ b d same. same)) h
eval_deeper depth env (shift e f) v h =
    bind_with _ _ _ _ v (eval_deeper depth env e)
      (λ a c. bind_with _ _ _ _ c (eval_deeper depth env f) (λ b d same. same)) h
eval_deeper depth env (divide e f) v h =
    bind_with _ _ _ _ v (eval_deeper depth env e)
      (λ a c. bind_with _ _ _ _ c (eval_deeper depth env f) (λ b d same. same)) h

-- And at any greater depth.
eval_deeper-le :
    (depth low : ℕ) (env : Env) (e : Expr) (v : ℕ)
    → eval low env e ≡ some v
    → low ≤ depth
    → eval depth env e ≡ some v
eval_deeper-le zero low env e v h le =
    let same : zero ≡ low = omega arith in ap (λ d. eval d env e) same ∙ h
eval_deeper-le (suc depth) low env e v h le = elim (Bool-cases (leb low depth)) [
  | inl below ↦ eval_deeper depth env e v (eval_deeper-le depth low env e v h (ground arith))
  | inr top ↦ let same : suc depth ≡ low = ground arith in ap (λ d. eval d env e) same ∙ h
]

-- The macro has a value, which no greater depth changes, and which is that of the enumerator with
-- its name, if there is one.
abbrev pub IsSettled : Env → String × Expr → Type 0
IsSettled env (name, e) =
    (v : ℕ) × ((depth : ℕ) → expansion_depth ≤ depth → eval depth env e ≡ some v)
    × ((w : ℕ) → lookup name env.constants ≡ some w → w ≡ v)

agrees : Option ℕ → Option ℕ → Bool
agrees value none = true
agrees none (some w) = false
agrees (some v) (some w) = v == w

has_value : Option ℕ → Bool
has_value none = false
has_value (some v) = true

agrees_sound :
    (value named : Option ℕ)
    → has_value value && agrees value named ≡ true
    → (v : ℕ) × (value ≡ some v) × ((w : ℕ) → named ≡ some w → w ≡ v)
unfolding agrees has_value
agrees_sound none named h = cc
agrees_sound (some v) none h = (v, refl, λ w e. cc)
agrees_sound (some v) (some x) h = (v, refl, λ w e. ground (arith, some-inj e))

settled : Env → String × Expr → Bool
settled env (name, e) =
    let value = eval expansion_depth env e in
    has_value value && agrees value (lookup name env.constants)

settled-IsSettled : (env : Env) (m : String × Expr) → settled env m ≡ true → IsSettled env m
unfolding settled
settled-IsSettled env (name, e) h =
    let (v, found, same) =
      agrees_sound (eval expansion_depth env e) (lookup name env.constants) h in
    (v, λ depth le. eval_deeper-le depth expansion_depth env e v found le, same)

all_settled :
    (arch : Arch) → in_program arch (λ env. some (every (settled env) env.macros)) ≡ some true
unfolding in_program program_env declare_parts parts arch_declarations arch_macros declare
    declare_one measure lookup enumerate eval settled agrees has_value
all_settled x86 = refl
all_settled arm64 = refl

-- On both targets the expansion of every macro of the headers that stands for an expression ends
-- within the depth of eight, with a value that greater depths do not change. Where an enumerator of
-- the headers has the same name, the macro does not change its value.
pub macros-IsSettled :
    (arch : Arch) → (env : Env) × (program_env arch ≡ some env) × All (IsSettled env) env.macros
unfolding in_program
macros-IsSettled arch =
    let (env, accepted, checked) = bind-some (program_env arch) _ (all_settled arch) in
    (env, accepted, every-All (settled env) env.macros (settled-IsSettled env) (some-inj checked))
