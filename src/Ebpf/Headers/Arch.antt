-- ===== src/Ebpf/Headers/Arch.antt =====
-- ebpf/c/include/vmlinux.h: what depends on the target.
use egressd.Prelude.{List, [], ◌∷◌}
use egressd.Ebpf.Ctype.{
  unsigned_long, lit, base, named, array, struct_of, union_of, field, end, ◌⨾◌, a1, Decl,
  struct_def,
}

abbrev pub x86_declarations : List Decl
x86_declarations =
    struct_def a1 "struct thread_info" (field "status" (named "u32") ⨾ end)
    ∷ struct_def a1 "struct pt_regs" (
        field "r15" (base unsigned_long)
        ⨾ field "r14" (base unsigned_long)
        ⨾ field "r13" (base unsigned_long)
        ⨾ field "r12" (base unsigned_long)
        ⨾ field "bp" (base unsigned_long)
        ⨾ field "bx" (base unsigned_long)
        ⨾ field "r11" (base unsigned_long)
        ⨾ field "r10" (base unsigned_long)
        ⨾ field "r9" (base unsigned_long)
        ⨾ field "r8" (base unsigned_long)
        ⨾ field "ax" (base unsigned_long)
        ⨾ field "cx" (base unsigned_long)
        ⨾ field "dx" (base unsigned_long)
        ⨾ field "si" (base unsigned_long)
        ⨾ field "di" (base unsigned_long)
        ⨾ field "orig_ax" (base unsigned_long)
        ⨾ field "ip" (base unsigned_long)
        ⨾ field "cs" (base unsigned_long)
        ⨾ field "flags" (base unsigned_long)
        ⨾ field "sp" (base unsigned_long)
        ⨾ field "ss" (base unsigned_long)
        ⨾ end)
    ∷ []

abbrev pub arm64_declarations : List Decl
arm64_declarations =
    struct_def a1 "struct thread_info" (field "flags" (base unsigned_long) ⨾ end)
    ∷ struct_def a1 "struct user_pt_regs" (
        field "regs" (array (named "__u64") (lit 31))
        ⨾ field "sp" (named "__u64")
        ⨾ field "pc" (named "__u64")
        ⨾ field "pstate" (named "__u64")
        ⨾ end)
    ∷ struct_def a1 "struct pt_regs" (
        field "" (
          union_of (
            field "user_regs" (named "struct user_pt_regs")
            ⨾ field "" (
                struct_of (
                  field "regs" (array (named "u64") (lit 31))
                  ⨾ field "sp" (named "u64")
                  ⨾ field "pc" (named "u64")
                  ⨾ field "pstate" (named "u64")
                  ⨾ end))
            ⨾ end))
        ⨾ field "orig_x0" (named "u64")
        ⨾ field "syscallno" (named "s32")
        ⨾ field "unused2" (named "u32")
        ⨾ field "orig_addr_limit" (named "u64")
        ⨾ field "pmr_save" (named "u64")
        ⨾ field "stackframe" (array (named "u64") (lit 2))
        ⨾ field "lockdep_hardirqs" (named "u64")
        ⨾ field "exit_rcu" (named "u64")
        ⨾ end)
    ∷ []
