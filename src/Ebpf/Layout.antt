-- ===== src/Ebpf/Layout.antt =====
-- How the compiler lays out the types of ebpf/c/include: the ABI of the two targets, both of which
-- have 64-bit longs and pointers. Offsets are in bits, from the lowest bit of the first byte.
use egressd.Prelude.{
  ℕ, ◌+◌, ◌*◌, ◌/◌, ◌%◌, Bool, true, false, Option, none, some, List, [], ◌∷◌, ◌++◌, map, String,
  ltb, leb, if◌then◌else◌, ◌==◌, nat_comparable, string_comparable, sum_by,
}
use egressd.Ebpf.Ctype.{Align, a1, a2, a4, a8}

abbrev pub bytes : Align → ℕ
bytes a1 = 1
bytes a2 = 2
bytes a4 = 4
bytes a8 = 8

abbrev pub larger : Align → Align → Align
larger a b = if ltb (bytes a) (bytes b) then b else a

abbrev pub round_up : ℕ → Align → ℕ
round_up x a1 = (x + 7) / 8 * 8
round_up x a2 = (x + 15) / 16 * 16
round_up x a4 = (x + 31) / 32 * 32
round_up x a8 = (x + 63) / 64 * 64

pub record Layout : Type 0 where
  pub size : ℕ
  pub align : Align

-- A field that can be reached from a value of some type: the names on the way, its first bit and its
-- width.
pub record FieldPath : Type 0 where
  pub path : List String
  pub start : ℕ
  pub width : ℕ

-- A field with its type measured and what can be reached from it; `none` for a field that is no bit
-- field.
pub record Member : Type 0 where
  pub name : String
  pub layout : Layout
  pub inner : List FieldPath
  pub bit_width : Option ℕ

-- Where a field is: its first bit, its width in bits and its type's alignment.
pub record Place : Type 0 where
  pub name : String
  pub start : ℕ
  pub width : ℕ
  pub align : Align
  pub is_bits : Bool

abbrev pub width_of : Member → ℕ
width_of m = elim m.bit_width [ none ↦ 8 * m.layout.size | some w ↦ w ]

abbrev pub has_width : Member → Bool
has_width m = elim m.bit_width [ none ↦ false | some w ↦ true ]

-- A bit field takes the next bits, unless it would leave the unit of its type.
unfoldable pub start_of : Member → ℕ → ℕ
start_of m pos = elim m.bit_width [
  | none ↦ round_up pos m.layout.align
  | some w ↦
      if leb (pos % (8 * bytes m.layout.align) + w) (8 * bytes m.layout.align)
      then pos
      else round_up pos m.layout.align
]

unfoldable pub place : Member → ℕ → Place
place m pos = record {
  name = m.name;
  start = start_of m pos;
  width = width_of m;
  align = m.layout.align;
  is_bits = has_width m;
}

unfoldable pub struct_places : ℕ → List Member → List Place
struct_places pos [] = []
struct_places pos (m ∷ ms) = place m pos ∷ struct_places (start_of m pos + width_of m) ms

unfoldable pub struct_end : ℕ → List Member → ℕ
struct_end pos [] = pos
struct_end pos (m ∷ ms) = struct_end (start_of m pos + width_of m) ms

unfoldable pub max_align : Align → List Member → Align
max_align a [] = a
max_align a (m ∷ ms) = max_align (larger a m.layout.align) ms

unfoldable pub struct_layout : Align → List Member → Layout
struct_layout a ms =
    let align = max_align a ms in
    record { size = round_up (struct_end 0 ms) align / 8; align = align }

unfoldable pub union_end : ℕ → List Member → ℕ
union_end pos [] = pos
union_end pos (m ∷ ms) = union_end (if ltb pos (width_of m) then width_of m else pos) ms

unfoldable pub union_places : List Member → List Place
union_places [] = []
union_places (m ∷ ms) = place m 0 ∷ union_places ms

unfoldable pub union_layout : List Member → Layout
union_layout ms =
    let align = max_align a1 ms in
    record { size = round_up (union_end 0 ms) align / 8; align = align }

-- `__attribute__((__packed__))`.
unfoldable pub packed_layout : List Member → Layout
packed_layout ms = record { size = (sum_by width_of ms + 7) / 8; align = a1 }

abbrev pub under : String → ℕ → FieldPath → FieldPath
under name at p = record {
  path = if name == "" then p.path else name ∷ p.path;
  start = at + p.start;
  width = p.width;
}

-- The paths through one member. Those through an anonymous one do not name it.
unfoldable pub member_paths : Member → ℕ → List FieldPath
member_paths m at =
    let rest = map (under m.name at) m.inner in
    if m.name == ""
    then rest
    else record { path = m.name ∷ []; start = at; width = width_of m } ∷ rest

unfoldable pub struct_paths : ℕ → List Member → List FieldPath
struct_paths pos [] = []
struct_paths pos (m ∷ ms) =
    member_paths m (start_of m pos) ++ struct_paths (start_of m pos + width_of m) ms

unfoldable pub union_paths : List Member → List FieldPath
union_paths [] = []
union_paths (m ∷ ms) = member_paths m 0 ++ union_paths ms

unfoldable pub packed_paths : ℕ → List Member → List FieldPath
packed_paths pos [] = []
packed_paths pos (m ∷ ms) = member_paths m pos ++ packed_paths (pos + width_of m) ms
