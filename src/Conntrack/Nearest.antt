-- ===== src/Conntrack/Nearest.antt =====
-- The clock rate of conntrack/kernel_hz.go: `nearest` picks the closest entry, and the divisor
-- of conntrack/time.go is never zero.
use egressd.Prelude.{
  ℕ, ◌+◌, ◌-◌, ◌≤◌, ◌<◌, ◌≡◌, refl, ap, ◌≢◌, ◌⊎◌, inl, inr, Bool, Option, List, [], ◌∷◌, ◌++◌,
  arith, ltb, nat_comparable, string_comparable, Bool-cases, All,
}
use egressd.Conntrack.KernelHz.{
  u16_mod, ok, err, distance, nearest_loop, nearest, Ktime, interpolate, get_kernel_hz, init_hertz,
  values_empty,
}

-- The distance between two numbers.
abbrev pub gap : ℕ → ℕ → ℕ
gap x v = (x - v) + (v - x)

-- `v` is the first of the entries of `values` that are closest to `x`.
pub record Closest (x : ℕ) (values : List ℕ) (v : ℕ) : Type 0 where
  pub before : List ℕ
  pub after : List ℕ
  pub here : values ≡ before ++ v ∷ after
  pub farther : All (λ w. gap x v < gap x w) before
  pub no_closer : All (λ w. gap x v ≤ gap x w) after

distance-gap : (x v : ℕ) → x < u16_mod → v < u16_mod → distance x v ≡ gap x v
unfolding distance
distance-gap x v h k = ground arith

abbrev Found : ℕ → ℕ → ℕ → List ℕ → ℕ → Type 0
Found x min out values r =
    (All (λ w. min ≤ gap x w) values × (r ≡ out)) ⊎ (Closest x values r × (gap x r < min))

closer :
    {x v min out r : ℕ} {values : List ℕ}
    → gap x v < min
    → Found x (gap x v) v values r
    → Found x min out (v ∷ values) r
closer {values = values} h (inl (all, e)) =
    rw e
      (inr (record { before = []; after = values; here = refl; farther = tt; no_closer = all }, h))
closer {v = v} h (inr (c, less)) = inr (
  record {
    before = v ∷ c.before;
    after = c.after;
    here = ap (◌∷◌ v) c.here;
    farther = (less, c.farther);
    no_closer = c.no_closer;
  },
  omega arith,
)

not_closer :
    {x v min out r : ℕ} {values : List ℕ}
    → min ≤ gap x v
    → Found x min out values r
    → Found x min out (v ∷ values) r
not_closer h (inl (all, e)) = inl ((h, all), e)
not_closer {v} h (inr (c, less)) = inr (
  record {
    before = v ∷ c.before;
    after = c.after;
    here = ap (◌∷◌ v) c.here;
    farther = (omega arith, c.farther);
    no_closer = c.no_closer;
  },
  less,
)

nearest_loop-Found :
    (x min out : ℕ) (values : List ℕ)
    → x < u16_mod
    → All (λ v. v < u16_mod) values
    → Found x min out values (nearest_loop x min out values)
unfolding nearest_loop
nearest_loop-Found x min out [] h all = inl (tt, refl)
nearest_loop-Found x min out (v ∷ values) h all =
    rw (distance-gap x v h all.0) (elim (Bool-cases (ltb (gap x v) min)) [
      | inl less ↦ rw less (closer (ground arith) (nearest_loop-Found x (gap x v) v values h all.1))
      | inr more ↦ rw more (not_closer (ground arith) (nearest_loop-Found x min out values h all.1))
    ])

-- `nearest` fails on an empty list only. On any other it returns the first of the entries that are
-- closest to its input; where each entry is as far off as two uint16 can be, it returns 0.
pub nearest-Closest :
    (x : ℕ) (values : List ℕ)
    → x < u16_mod
    → All (λ v. v < u16_mod) values
    → ((values ≡ []) × (nearest x values ≡ err values_empty))
      ⊎ (values ≢ [])
        × (r : ℕ) × (nearest x values ≡ ok r)
        × (Closest x values r ⊎ (All (λ w. u16_mod - 1 ≤ gap x w) values × (r ≡ 0)))
unfolding nearest
nearest-Closest x [] h all = inl (refl, refl)
nearest-Closest x (v ∷ values) h all = inr (
  cc,
  nearest_loop x (u16_mod - 1) 0 (v ∷ values),
  refl,
  elim (nearest_loop-Found x (u16_mod - 1) 0 (v ∷ values) h all) [
    | inl far ↦ inr far
    | inr (c, less) ↦ inl c
  ],
)

abbrev pub IsHz : ℕ → Type 0
IsHz hz = (hz ≡ 1000) ⊎ ((hz ≡ 300) ⊎ ((hz ≡ 250) ⊎ (hz ≡ 100)))

-- Whatever the two readings of /proc/schedstat are, the variable `hertz` is 1 or one of the known
-- clock rates, so the division of a jiffies difference by it is never a division by zero.
pub init_hertz-pos :
    (round : ℕ → ℕ → ℕ) (opened : Bool) (j1 j2 : Option Ktime)
    → let hz = init_hertz (get_kernel_hz round opened j1 j2) in ((hz ≡ 1) ⊎ IsHz hz) × (0 < hz)
unfolding init_hertz get_kernel_hz interpolate nearest nearest_loop distance
init_hertz-pos round opened j1 j2 = ground arith
