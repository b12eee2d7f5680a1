-- ===== src/Conntrack/KernelHz.antt =====
-- conntrack/kernel_hz.go: `nearest` and the tests of `interpolate`. The arithmetic is on uint16
-- and uint64. The quotient of `interpolate` is floating point and so a parameter.
use egressd.Prelude.{
  ℕ, ◌+◌, ◌-◌, ◌%◌, ◌^◌, Bool, not, Option, none, some, List, [], ◌∷◌, ltb, if◌then◌else◌,
  nat_comparable, string_comparable,
}

abbrev pub u16_mod : ℕ
u16_mod = 2 ^ 16

abbrev pub hz_values : List ℕ
hz_values = 1000 ∷ 300 ∷ 250 ∷ 100 ∷ []

pub data HzError : Type 0 where
  no_schedstat no_timestamp values_empty old_wall_time_after old_timer_above overflow : HzError

pub data HzResult : Type 0 where
  ok : ℕ → HzResult
  err : HzError → HzResult

-- `d := uint16(in - v)`, or `v - in` where `in < v`.
unfoldable pub distance : ℕ → ℕ → ℕ
distance x v = if ltb x v then (v + u16_mod - x) % u16_mod else (x + u16_mod - v) % u16_mod

unfoldable pub nearest_loop : ℕ → ℕ → ℕ → List ℕ → ℕ
nearest_loop x min out [] = out
nearest_loop x min out (v ∷ values) =
    let d = distance x v in
    nearest_loop x (if ltb d min then d else min) (if ltb d min then v else out) values

-- `min` starts at `^uint16(0)` and `out` at 0.
unfoldable pub nearest : ℕ → List ℕ → HzResult
nearest x [] = err values_empty
nearest x (v ∷ values) = ok (nearest_loop x (u16_mod - 1) 0 (v ∷ values))

-- `ktime`: a kernel timer and the wall clock time of its reading.
pub record Ktime : Type 0 where
  pub k : ℕ
  pub t : ℕ

-- `round` stands for `math.Round(float64(kd) / td.Seconds())`, with `td` in nanoseconds.
unfoldable pub interpolate : (round : ℕ → ℕ → ℕ) → Ktime → Ktime → HzResult
interpolate round old new =
    if ltb new.t old.t
    then err old_wall_time_after
    else if ltb new.k old.k
    then err old_timer_above
    else let hz = round (new.k - old.k) (new.t - old.t) in
      if ltb (u16_mod - 1) hz then err overflow else ok hz

-- `getKernelHZ` over what its two readings of /proc/schedstat give.
unfoldable pub get_kernel_hz : (round : ℕ → ℕ → ℕ) → Bool → Option Ktime → Option Ktime → HzResult
get_kernel_hz round opened j1 j2 = if not opened then err no_schedstat else elim j1 [
  | none ↦ err no_timestamp
  | some old ↦ elim j2 [
    | none ↦ err no_timestamp
    | some new ↦ elim (interpolate round old new) [ err e ↦ err e | ok hz ↦ nearest hz hz_values ]
  ]
]

-- The package variable `hertz` as `init` of conntrack/time.go leaves it.
unfoldable pub init_hertz : HzResult → ℕ
init_hertz (ok hz) = hz
init_hertz (err e) = 1
