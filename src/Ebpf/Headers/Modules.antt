-- ===== src/Ebpf/Headers/Modules.antt =====
-- ebpf/c/include/vmlinux.h: kernel modules, and small types.
use egressd.Prelude.{List, [], ◌∷◌}
use egressd.Ebpf.Ctype.{
  char, unsigned_int, unsigned_long, lit, ident, size_of, minus, base, pointer, named, array,
  struct_of, field, end, ◌⨾◌, a1, a8, Decl, typedef, struct_def, macro,
}

abbrev pub module_declarations : List Decl
module_declarations =
    macro "MODULE_NAME_LEN" (minus (lit 64) (size_of unsigned_long))
    ∷ struct_def a1 "struct module_kobject"
        (field "kobj" (named "struct kobject") ⨾ field "mod" (pointer "struct module") ⨾ end)
    ∷ struct_def a1 "struct kset" (field "list" (named "struct list_head") ⨾ end)
    ∷ struct_def a1 "struct module_layout" (field "base" (pointer "void") ⨾ end)
    ∷ struct_def a1 "struct module" (
        field "list" (named "struct list_head")
        ⨾ field "name" (array (base char) (ident "MODULE_NAME_LEN"))
        ⨾ field "version" (pointer "const char")
        ⨾ field "srcversion" (pointer "const char")
        ⨾ field "mkobj" (named "struct module_kobject")
        ⨾ field "core_layout" (named "struct module_layout")
        ⨾ end)
    ∷ struct_def a8 "struct rb_node" (
        field "rb_right" (pointer "struct rb_node")
        ⨾ field "rb_left" (pointer "struct rb_node")
        ⨾ end)
    ∷ struct_def a1 "struct latch_tree_node"
        (field "node" (array (named "struct rb_node") (lit 2)) ⨾ end)
    ∷ struct_def a1 "struct rb_root" (field "rb_node" (pointer "struct rb_node") ⨾ end)
    ∷ struct_def a1 "struct seqcount" (field "sequence" (base unsigned_int) ⨾ end)
    ∷ typedef "seqcount_t" (named "struct seqcount")
    ∷ typedef "seqcount_latch_t" (
        struct_of
          (field "seqcount" (named "seqcount_t") ⨾ field "sequence" (base unsigned_int) ⨾ end))
    ∷ struct_def a1 "struct latch_tree_root" (
        field "seq" (named "seqcount_latch_t")
        ⨾ field "tree" (array (named "struct rb_root") (lit 2))
        ⨾ end)
    ∷ struct_def a1 "struct mod_tree_node" (
        field "mod" (pointer "struct module") ⨾ field "node" (named "struct latch_tree_node") ⨾ end)
    ∷ struct_def a1 "struct user_namespace" (field "ns" (named "struct ns_common") ⨾ end)
    ∷ struct_def a1 "struct ipc_namespace" (field "ns" (named "struct ns_common") ⨾ end)
    ∷ struct_def a1 "struct net" (field "ns" (named "struct ns_common") ⨾ end)
    ∷ typedef "__wsum" (named "__u32")
    ∷ struct_def a1 "struct cgroup_namespace" (field "ns" (named "struct ns_common") ⨾ end)
    ∷ typedef "sa_family_t" (named "__kernel_sa_family_t")
    ∷ struct_def a1 "struct sockaddr" (field "sa_family" (named "sa_family_t") ⨾ end)
    ∷ struct_def a1 "struct iovec"
        (field "iov_base" (pointer "void") ⨾ field "iov_len" (named "__kernel_size_t") ⨾ end)
    ∷ []
