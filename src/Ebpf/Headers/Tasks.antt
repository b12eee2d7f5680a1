-- ===== src/Ebpf/Headers/Tasks.antt =====
-- ebpf/c/include/vmlinux.h: tasks and their credentials.
use egressd.Prelude.{List, [], ◌∷◌}
use egressd.Ebpf.Ctype.{
  char, int, unsigned_int, unsigned_long, lit, base, pointer, named, array, struct_of, field, end,
  ◌⨾◌, a1, Decl, typedef, struct_def,
}

abbrev pub task_declarations : List Decl
task_declarations =
    struct_def a1 "struct bpf_raw_tracepoint_args"
      (field "args" (array (named "__u64") (lit 0)) ⨾ end)
    ∷ struct_def a1 "struct list_head" (
        field "next" (pointer "struct list_head") ⨾ field "prev" (pointer "struct list_head") ⨾ end)
    ∷ typedef "__kernel_pid_t" (base int)
    ∷ typedef "pid_t" (named "__kernel_pid_t")
    ∷ struct_def a1 "struct hlist_node" (
        field "next" (pointer "struct hlist_node")
        ⨾ field "pprev" (pointer "struct hlist_node *")
        ⨾ end)
    ∷ typedef "__kernel_size_t" (named "__kernel_ulong_t")
    ∷ typedef "size_t" (named "__kernel_size_t")
    ∷ typedef "__kernel_uid32_t" (base unsigned_int)
    ∷ typedef "uid_t" (named "__kernel_uid32_t")
    ∷ typedef "kuid_t" (struct_of (field "val" (named "uid_t") ⨾ end))
    ∷ struct_def a1 "struct task_struct" (
        field "thread_info" (named "struct thread_info")
        ⨾ field "flags" (base unsigned_int)
        ⨾ field "mm" (pointer "struct mm_struct")
        ⨾ field "exit_code" (base int)
        ⨾ field "pid" (named "pid_t")
        ⨾ field "tgid" (named "pid_t")
        ⨾ field "real_parent" (pointer "struct task_struct")
        ⨾ field "group_leader" (pointer "struct task_struct")
        ⨾ field "thread_pid" (pointer "struct pid")
        ⨾ field "thread_group" (named "struct list_head")
        ⨾ field "start_time" (named "u64")
        ⨾ field "real_cred" (pointer "const struct cred")
        ⨾ field "comm" (array (base char) (lit 16))
        ⨾ field "files" (pointer "struct files_struct")
        ⨾ field "nsproxy" (pointer "struct nsproxy")
        ⨾ field "cgroups" (pointer "struct css_set")
        ⨾ field "signal" (pointer "struct signal_struct")
        ⨾ field "stack" (pointer "void")
        ⨾ field "sighand" (pointer "struct sighand_struct")
        ⨾ end)
    ∷ typedef "atomic_t" (struct_of (field "counter" (base int) ⨾ end))
    ∷ struct_def a1 "struct signal_struct" (field "live" (named "atomic_t") ⨾ end)
    ∷ struct_def a1 "struct vm_area_struct"
        (field "vm_flags" (base unsigned_long) ⨾ field "vm_file" (pointer "struct file") ⨾ end)
    ∷ typedef "__kernel_gid32_t" (base unsigned_int)
    ∷ typedef "gid_t" (named "__kernel_gid32_t")
    ∷ typedef "kgid_t" (struct_of (field "val" (named "gid_t") ⨾ end))
    ∷ typedef "kernel_cap_t" (struct_of (field "val" (named "u64") ⨾ end))
    ∷ struct_def a1 "struct cred" (
        field "uid" (named "kuid_t")
        ⨾ field "gid" (named "kgid_t")
        ⨾ field "suid" (named "kuid_t")
        ⨾ field "sgid" (named "kgid_t")
        ⨾ field "euid" (named "kuid_t")
        ⨾ field "egid" (named "kgid_t")
        ⨾ field "fsuid" (named "kuid_t")
        ⨾ field "fsgid" (named "kgid_t")
        ⨾ field "securebits" (base unsigned_int)
        ⨾ field "cap_inheritable" (named "kernel_cap_t")
        ⨾ field "cap_permitted" (named "kernel_cap_t")
        ⨾ field "cap_effective" (named "kernel_cap_t")
        ⨾ field "cap_bset" (named "kernel_cap_t")
        ⨾ field "cap_ambient" (named "kernel_cap_t")
        ⨾ field "user_ns" (pointer "struct user_namespace")
        ⨾ end)
    ∷ []
