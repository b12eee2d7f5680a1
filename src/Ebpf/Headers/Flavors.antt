-- ===== src/Ebpf/Headers/Flavors.antt =====
-- ebpf/c/include/vmlinux_flavors.h: the shapes that types had in other kernels.
use egressd.Prelude.{List, [], ◌∷◌}
use egressd.Ebpf.Ctype.{
  unsigned_int, lit, ident, base, pointer, named, array, struct_of, union_of, field, bits, end, ◌⨾◌,
  next, a1, Decl, typedef, struct_def, union_def, enum_def,
}

abbrev pub flavor_declarations : List Decl
flavor_declarations =
    union_def "union kernfs_node_id" (
      field "" (struct_of (field "ino" (named "u32") ⨾ field "generation" (named "u32") ⨾ end))
      ⨾ field "id" (named "u64")
      ⨾ end)
    ∷ struct_def a1 "struct kernfs_node___older_v55"
        (field "name" (pointer "const char") ⨾ field "id" (named "union kernfs_node_id") ⨾ end)
    ∷ struct_def a1 "struct kernfs_node___rh8" (
        field "name" (pointer "const char")
        ⨾ field "" (
            union_of (
              field "id" (named "u64")
              ⨾ field "rh_kabi_hidden_172"
                  (struct_of (field "id" (named "union kernfs_node_id") ⨾ end))
              ⨾ field "" (union_of (end))
              ⨾ end))
        ⨾ end)
    ∷ struct_def a1 "struct sock___old" (
        field "__sk_common" (named "struct sock_common")
        ⨾ field "__sk_flags_offset" (array (base unsigned_int) (lit 0))
        ⨾ bits "sk_padding" (base unsigned_int) 1
        ⨾ bits "sk_kern_sock" (base unsigned_int) 1
        ⨾ bits "sk_no_check_tx" (base unsigned_int) 1
        ⨾ bits "sk_no_check_rx" (base unsigned_int) 1
        ⨾ bits "sk_userlocks" (base unsigned_int) 4
        ⨾ bits "sk_protocol" (base unsigned_int) 8
        ⨾ bits "sk_type" (base unsigned_int) 16
        ⨾ field "sk_gso_max_segs" (named "u16")
        ⨾ end)
    ∷ enum_def "enum pid_type" (
        ("PIDTYPE_PID", next)
        ∷ ("PIDTYPE_PGID", next)
        ∷ ("PIDTYPE_SID", next)
        ∷ ("PIDTYPE_MAX", next)
        ∷ ("__PIDTYPE_TGID", next)
        ∷ [])
    ∷ struct_def a1 "struct pid_link"
        (field "node" (named "struct hlist_node") ⨾ field "pid" (pointer "struct pid") ⨾ end)
    ∷ struct_def a1 "struct task_struct___older_v50"
        (field "pids" (array (named "struct pid_link") (ident "PIDTYPE_MAX")) ⨾ end)
    ∷ struct_def a1 "struct trace_probe___v53"
        (field "call" (named "struct trace_event_call") ⨾ end)
    ∷ struct_def a1 "struct kernel_cap_struct___older"
        (field "cap" (array (named "__u32") (lit 2)) ⨾ end)
    ∷ typedef "kernel_cap_t___older" (named "struct kernel_cap_struct___older")
    ∷ []
