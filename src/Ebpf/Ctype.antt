-- ===== src/Ebpf/Ctype.antt =====
-- The C of the headers under ebpf/c/include, as far as they use it: types, fields, constant
-- expressions and declarations. A pointer keeps the text of what it points to, which no layout
-- depends on. `struct x`, `union x` and `enum x` are the names of tags, and other names are
-- typedefs. Qualifiers such as `const` and `volatile`, and attributes that do not change a layout,
-- are left out.
use egressd.Prelude.{ℕ, List, String}

pub data Base : Type 0 where
  c_bool char signed_char unsigned_char short unsigned_short int unsigned_int long unsigned_long
        long_long unsigned_long_long :
      Base

-- The length of an array or the value of a constant.
pub data Expr : Type 0 where
  lit : ℕ → Expr
  ident : String → Expr
  size_of : Base → Expr
  complement : Expr → Expr
  plus minus shift divide : Expr → Expr → Expr

-- The alignments there are, in bytes.
pub data Align : Type 0 where
  a1 a2 a4 a8 : Align

infixr 67 ◌⨾◌
mutual
  pub data CType : Type 0 where
    base : Base → CType
    pointer : String → CType
    named : String → CType
    array : CType → Expr → CType
    struct_of union_of packed_of : Fields → CType

  -- A bit field has a width; an anonymous field has an empty name.
  pub data Field : Type 0 where
    field : String → CType → Field
    bits : String → CType → ℕ → Field

  pub data Fields : Type 0 where
    end : Fields
    ◌⨾◌ : Field → Fields → Fields

pub data EnumValue : Type 0 where
  next : EnumValue
  is : ℕ → EnumValue
  same_as : String → EnumValue

-- A `constant` is an object with its value, a `macro` one that stands for an expression, and an
-- `alias` one that stands for a path of fields. `struct_def` has the least alignment that an
-- attribute asks for, `a1` where there is none.
pub data Decl : Type 0 where
  typedef : String → CType → Decl
  struct_def : (aligned : Align) → String → Fields → Decl
  union_def : String → Fields → Decl
  enum_def : String → List (String × EnumValue) → Decl
  forward : String → Decl
  constant : String → Expr → Decl
  macro : String → Expr → Decl
  alias : String → List String → Decl
