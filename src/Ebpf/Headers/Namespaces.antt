-- ===== src/Ebpf/Headers/Namespaces.antt =====
-- ebpf/c/include/vmlinux.h: namespaces and control groups.
use egressd.Prelude.{List, [], ◌∷◌}
use egressd.Ebpf.Ctype.{
  char, unsigned_short, int, unsigned_int, unsigned_long, long_long, lit, base, pointer, named,
  array, field, end, ◌⨾◌, a1, Decl, typedef, struct_def,
}

abbrev pub namespace_declarations : List Decl
namespace_declarations =
    struct_def a1 "struct nsproxy" (
      field "uts_ns" (pointer "struct uts_namespace")
      ⨾ field "ipc_ns" (pointer "struct ipc_namespace")
      ⨾ field "mnt_ns" (pointer "struct mnt_namespace")
      ⨾ field "pid_ns_for_children" (pointer "struct pid_namespace")
      ⨾ field "net_ns" (pointer "struct net")
      ⨾ field "cgroup_ns" (pointer "struct cgroup_namespace")
      ⨾ end)
    ∷ struct_def a1 "struct ns_common" (field "inum" (base unsigned_int) ⨾ end)
    ∷ struct_def a1 "struct pid_namespace"
        (field "level" (base unsigned_int) ⨾ field "ns" (named "struct ns_common") ⨾ end)
    ∷ struct_def a1 "struct upid"
        (field "nr" (base int) ⨾ field "ns" (pointer "struct pid_namespace") ⨾ end)
    ∷ struct_def a1 "struct pid" (
        field "level" (base unsigned_int)
        ⨾ field "numbers" (array (named "struct upid") (lit 1))
        ⨾ end)
    ∷ struct_def a1 "struct mnt_namespace" (field "ns" (named "struct ns_common") ⨾ end)
    ∷ struct_def a1 "struct new_utsname" (field "nodename" (array (base char) (lit 65)) ⨾ end)
    ∷ struct_def a1 "struct uts_namespace"
        (field "name" (named "struct new_utsname") ⨾ field "ns" (named "struct ns_common") ⨾ end)
    ∷ struct_def a1 "struct css_set"
        (field "subsys" (array (pointer "struct cgroup_subsys_state") (lit 12)) ⨾ end)
    ∷ struct_def a1 "struct percpu_ref" (
        field "percpu_count_ptr" (base unsigned_long)
        ⨾ field "data" (pointer "struct percpu_ref_data")
        ⨾ end)
    ∷ struct_def a1 "struct cgroup_subsys_state" (field "cgroup" (pointer "struct cgroup") ⨾ end)
    ∷ struct_def a1 "struct timer_list" (
        field "entry" (named "struct hlist_node")
        ⨾ field "expires" (base unsigned_long)
        ⨾ field "function" (pointer "void (struct timer_list *)")
        ⨾ field "flags" (named "u32")
        ⨾ end)
    ∷ struct_def a1 "struct cgroup_file" (
        field "kn" (pointer "struct kernfs_node")
        ⨾ field "notified_at" (base unsigned_long)
        ⨾ field "notify_timer" (named "struct timer_list")
        ⨾ end)
    ∷ struct_def a1 "struct cgroup" (
        field "kn" (pointer "struct kernfs_node")
        ⨾ field "root" (pointer "struct cgroup_root")
        ⨾ end)
    ∷ typedef "__kernel_loff_t" (base long_long)
    ∷ typedef "loff_t" (named "__kernel_loff_t")
    ∷ typedef "umode_t" (base unsigned_short)
    ∷ []
