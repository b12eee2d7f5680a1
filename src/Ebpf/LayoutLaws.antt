-- ===== src/Ebpf/LayoutLaws.antt =====
-- What a layout guarantees: the members of a struct lie apart, in order, aligned and within it.
use egressd.Prelude.{
  ℕ, ◌+◌, ◌*◌, ◌/◌, ◌%◌, ◌≤◌, ◌≡◌, refl, Bool, true, false, Option, none, some, List, [], ◌∷◌,
  arith, String, ltb, if◌then◌else◌, nat_comparable, string_comparable, All,
}
use egressd.Ebpf.Ctype.{Align, a1, a2, a4, a8}
use egressd.Ebpf.Layout.{
  bytes, larger, round_up, Layout, FieldPath, Member, Place, width_of, start_of, place,
  struct_places, struct_end, max_align, struct_layout, union_end, union_places, union_layout,
}
use egressd.Ebpf.Declare.{fits}

abbrev pub member_fits : Member → Bool
member_fits m = elim m.bit_width [ none ↦ true | some w ↦ fits m.layout w ]

abbrev pub AllFit : List Member → Type 0
AllFit = All (λ (m : Member). member_fits m ≡ true)

-- A bit field lies within one unit of its type, and any other field at a multiple of its alignment.
abbrev pub IsAligned : Place → Type 0
IsAligned p =
    (p.is_bits ≡ false → p.start % (8 * bytes p.align) ≡ 0)
    × (p.is_bits ≡ true → p.start % (8 * bytes p.align) + p.width ≤ 8 * bytes p.align)

-- Each place ends before all the later ones start.
abbrev pub Apart : List Place → Type 0
Apart [] = Unit {0}
Apart (p ∷ places) = All (λ (q : Place). p.start + p.width ≤ q.start) places × Apart places

round_up-ge : (x : ℕ) (a : Align) → x ≤ round_up x a
round_up-ge x a1 = omega arith
round_up-ge x a2 = omega arith
round_up-ge x a4 = omega arith
round_up-ge x a8 = omega arith

round_up-mod : (x : ℕ) (a : Align) → round_up x a % (8 * bytes a) ≡ 0
round_up-mod x a1 = omega arith
round_up-mod x a2 = omega arith
round_up-mod x a4 = omega arith
round_up-mod x a8 = omega arith

-- A size in bytes, from an end in bits.
pub size-covers : (x : ℕ) (a : Align) → x ≤ 8 * (round_up x a / 8)
size-covers x a1 = omega arith
size-covers x a2 = omega arith
size-covers x a4 = omega arith
size-covers x a8 = omega arith

size-mod : (x : ℕ) (a : Align) → round_up x a / 8 % bytes a ≡ 0
size-mod x a1 = omega arith
size-mod x a2 = omega arith
size-mod x a4 = omega arith
size-mod x a8 = omega arith

pub start_of-ge : (m : Member) (pos : ℕ) → pos ≤ start_of m pos
unfolding start_of
start_of-ge m pos = ground (arith, round_up-ge pos m.layout.align)

IsAligned-start_of :
    (name : String) (l : Layout) (inner : List FieldPath) (b : Option ℕ) (pos : ℕ)
    → member_fits (record { name = name; layout = l; inner = inner; bit_width = b }) ≡ true
    → IsAligned (place (record { name = name; layout = l; inner = inner; bit_width = b }) pos)
unfolding place start_of
IsAligned-start_of name l inner none pos h = (λ e. round_up-mod pos l.align, λ e. cc)
IsAligned-start_of name l inner (some w) pos h =
    (λ e. cc, λ e. ground (arith, round_up-mod pos l.align))

place-IsAligned : (m : Member) (pos : ℕ) → member_fits m ≡ true → IsAligned (place m pos)
place-IsAligned m pos h = IsAligned-start_of m.name m.layout m.inner m.bit_width pos h

struct_places-ge :
    (low pos : ℕ) (ms : List Member)
    → low ≤ pos
    → All (λ (p : Place). low ≤ p.start) (struct_places pos ms)
unfolding struct_places place
struct_places-ge low pos [] h = tt
struct_places-ge low pos (m ∷ ms) h =
    let ge = start_of-ge m pos in
    (omega arith, struct_places-ge low (start_of m pos + width_of m) ms (omega arith))

struct_places-Apart : (pos : ℕ) (ms : List Member) → Apart (struct_places pos ms)
unfolding struct_places place
struct_places-Apart pos [] = tt
struct_places-Apart pos (m ∷ ms) =
    let after = start_of m pos + width_of m in
    (struct_places-ge after after ms (omega arith), struct_places-Apart after ms)

struct_places-IsAligned :
    (pos : ℕ) (ms : List Member) → AllFit ms → All IsAligned (struct_places pos ms)
unfolding struct_places
struct_places-IsAligned pos [] h = tt
struct_places-IsAligned pos (m ∷ ms) h =
    (place-IsAligned m pos h.0, struct_places-IsAligned (start_of m pos + width_of m) ms h.1)

pub struct_end-ge : (pos : ℕ) (ms : List Member) → pos ≤ struct_end pos ms
unfolding struct_end
struct_end-ge pos [] = omega arith
struct_end-ge pos (m ∷ ms) =
    omega (arith, start_of-ge m pos, struct_end-ge (start_of m pos + width_of m) ms)

abbrev pub Within : ℕ → List Place → Type 0
Within limit = All (λ (p : Place). p.start + p.width ≤ limit)

struct_places-Within :
    (limit pos : ℕ) (ms : List Member)
    → struct_end pos ms ≤ limit
    → Within limit (struct_places pos ms)
unfolding struct_places place struct_end
struct_places-Within limit pos [] h = tt
struct_places-Within limit pos (m ∷ ms) h =
    let after = start_of m pos + width_of m in
    let ge = struct_end-ge after ms in (omega arith, struct_places-Within limit after ms h)

larger-ge : (a b : Align) → (bytes a ≤ bytes (larger a b)) × (bytes b ≤ bytes (larger a b))
larger-ge a b = ground arith

max_align-ge : (a : Align) (ms : List Member) → bytes a ≤ bytes (max_align a ms)
unfolding max_align
max_align-ge a [] = omega arith
max_align-ge a (m ∷ ms) =
    omega (arith, (larger-ge a m.layout.align).0, max_align-ge (larger a m.layout.align) ms)

-- No member asks for more than the record has.
abbrev pub Below : Align → List Place → Type 0
Below a = All (λ (p : Place). bytes p.align ≤ bytes a)

struct_places-Below :
    (top a : Align) (pos : ℕ) (ms : List Member)
    → bytes (max_align a ms) ≤ bytes top
    → Below top (struct_places pos ms)
unfolding struct_places place max_align
struct_places-Below top a pos [] h = tt
struct_places-Below top a pos (m ∷ ms) h =
    let big = larger a m.layout.align in
    (
      omega (arith, (larger-ge a m.layout.align).1, max_align-ge big ms),
      struct_places-Below top big (start_of m pos + width_of m) ms h,
    )

-- A record whose places lie within it, aligned, and whose size is a multiple of its alignment, so
-- that they are aligned in each element of an array.
pub record IsPlaced (l : Layout) (places : List Place) : Type 0 where
  pub within : Within (8 * l.size) places
  pub aligned : All IsAligned places
  pub below : Below l.align places
  pub whole : l.size % bytes l.align ≡ 0

pub struct-IsPlaced :
    (a : Align) (ms : List Member)
    → AllFit ms
    → IsPlaced (struct_layout a ms) (struct_places 0 ms) × Apart (struct_places 0 ms)
unfolding struct_layout
struct-IsPlaced a ms h = (
  record {
    within = struct_places-Within _ 0 ms (size-covers (struct_end 0 ms) (max_align a ms));
    aligned = struct_places-IsAligned 0 ms h;
    below = struct_places-Below (max_align a ms) a 0 ms (omega arith);
    whole = size-mod (struct_end 0 ms) (max_align a ms);
  },
  struct_places-Apart 0 ms,
)

round_up-zero : (a : Align) → round_up 0 a ≡ 0
round_up-zero a1 = refl
round_up-zero a2 = refl
round_up-zero a4 = refl
round_up-zero a8 = refl

start_of-zero : (m : Member) → start_of m 0 ≡ 0
unfolding start_of
start_of-zero m = ground (arith, round_up-zero m.layout.align)

pub union_end-ge : (pos : ℕ) (ms : List Member) → pos ≤ union_end pos ms
unfolding union_end
union_end-ge pos [] = omega arith
union_end-ge pos (m ∷ ms) =
    ground (arith, union_end-ge (if ltb pos (width_of m) then width_of m else pos) ms)

union_places-Within :
    (limit pos : ℕ) (ms : List Member) → union_end pos ms ≤ limit → Within limit (union_places ms)
unfolding union_places union_end place
union_places-Within limit pos [] h = tt
union_places-Within limit pos (m ∷ ms) h =
    let next = if ltb pos (width_of m) then width_of m else pos in
    (ground (arith, start_of-zero m, union_end-ge next ms), union_places-Within limit next ms h)

union_places-IsAligned : (ms : List Member) → AllFit ms → All IsAligned (union_places ms)
unfolding union_places
union_places-IsAligned [] h = tt
union_places-IsAligned (m ∷ ms) h = (place-IsAligned m 0 h.0, union_places-IsAligned ms h.1)

union_places-Below :
    (top a : Align) (ms : List Member)
    → bytes (max_align a ms) ≤ bytes top
    → Below top (union_places ms)
unfolding union_places place max_align
union_places-Below top a [] h = tt
union_places-Below top a (m ∷ ms) h =
    let big = larger a m.layout.align in
    (
      omega (arith, (larger-ge a m.layout.align).1, max_align-ge big ms),
      union_places-Below top big ms h,
    )

pub union-IsPlaced : (ms : List Member) → AllFit ms → IsPlaced (union_layout ms) (union_places ms)
unfolding union_layout
union-IsPlaced ms h = record {
  within = union_places-Within _ 0 ms (size-covers (union_end 0 ms) (max_align a1 ms));
  aligned = union_places-IsAligned ms h;
  below = union_places-Below (max_align a1 ms) a1 ms (omega arith);
  whole = size-mod (union_end 0 ms) (max_align a1 ms);
}
