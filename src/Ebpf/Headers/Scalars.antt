-- ===== src/Ebpf/Headers/Scalars.antt =====
-- ebpf/c/include/vmlinux.h: the names of the integer types.
use egressd.Prelude.{List, [], ◌∷◌}
use egressd.Ebpf.Ctype.{
  c_bool, signed_char, unsigned_char, short, unsigned_short, int, unsigned_int, long, unsigned_long,
  long_long, unsigned_long_long, base, named, is, Decl, typedef, enum_def,
}

abbrev pub scalar_declarations : List Decl
scalar_declarations =
    typedef "__s8" (base signed_char)
    ∷ typedef "s8" (named "__s8")
    ∷ typedef "int8_t" (named "s8")
    ∷ typedef "__s16" (base short)
    ∷ typedef "s16" (named "__s16")
    ∷ typedef "int16_t" (named "s16")
    ∷ typedef "__s32" (base int)
    ∷ typedef "s32" (named "__s32")
    ∷ typedef "int32_t" (named "s32")
    ∷ typedef "__s64" (base long_long)
    ∷ typedef "s64" (named "__s64")
    ∷ typedef "int64_t" (named "s64")
    ∷ typedef "__u8" (base unsigned_char)
    ∷ typedef "u8" (named "__u8")
    ∷ typedef "uint8_t" (named "u8")
    ∷ typedef "u_int8_t" (named "u8")
    ∷ typedef "__u16" (base unsigned_short)
    ∷ typedef "u16" (named "__u16")
    ∷ typedef "__le16" (named "__u16")
    ∷ typedef "__be16" (named "__u16")
    ∷ typedef "uint16_t" (named "u16")
    ∷ typedef "u_int16_t" (named "u16")
    ∷ typedef "__u32" (base unsigned_int)
    ∷ typedef "uint" (base unsigned_int)
    ∷ typedef "u32" (named "__u32")
    ∷ typedef "int32" (named "__u32")
    ∷ typedef "__be32" (named "__u32")
    ∷ typedef "uint32_t" (named "u32")
    ∷ typedef "u_int32_t" (named "u32")
    ∷ typedef "__u64" (base unsigned_long_long)
    ∷ typedef "u64" (named "__u64")
    ∷ typedef "__le64" (named "__u64")
    ∷ typedef "__be64" (named "__u64")
    ∷ typedef "uint64_t" (named "u64")
    ∷ typedef "u_int64_t" (named "u64")
    ∷ typedef "__kernel_long_t" (base long)
    ∷ typedef "__kernel_mode_t" (base unsigned_int)
    ∷ typedef "mode_t" (named "__kernel_mode_t")
    ∷ typedef "__kernel_off_t" (named "__kernel_long_t")
    ∷ typedef "off_t" (named "__kernel_off_t")
    ∷ typedef "__kernel_ulong_t" (base unsigned_long)
    ∷ typedef "bool" (base c_bool)
    ∷ enum_def "" (("false", is 0) ∷ ("true", is 1) ∷ [])
    ∷ []
