-- ===== src/Ebpf/Headers/Files.antt =====
-- ebpf/c/include/vmlinux.h: files and pipes.
use egressd.Prelude.{List, [], ◌∷◌}
use egressd.Ebpf.Ctype.{
  int, unsigned_int, base, pointer, named, union_of, field, end, ◌⨾◌, next, a1, Decl, typedef,
  struct_def, enum_def,
}

abbrev pub file_declarations : List Decl
file_declarations =
    struct_def a1 "struct kernfs_node"
      (field "name" (pointer "const char") ⨾ field "id" (named "u64") ⨾ end)
    ∷ struct_def a1 "struct cgroup_root" (field "hierarchy_id" (base int) ⨾ end)
    ∷ struct_def a1 "struct fdtable" (field "fd" (pointer "struct file *") ⨾ end)
    ∷ struct_def a1 "struct files_struct" (field "fdt" (pointer "struct fdtable") ⨾ end)
    ∷ struct_def a1 "struct path"
        (field "mnt" (pointer "struct vfsmount") ⨾ field "dentry" (pointer "struct dentry") ⨾ end)
    ∷ typedef "fmode_t" (base unsigned_int)
    ∷ struct_def a1 "struct dir_context" (end)
    ∷ struct_def a1 "struct file_operations" (
        field "iterate_shared" (pointer "int (struct file *, struct dir_context *)")
        ⨾ field "iterate" (pointer "int (struct file *, struct dir_context *)")
        ⨾ end)
    ∷ struct_def a1 "struct file" (
        field "" (union_of (field "f_iocb_flags" (base unsigned_int) ⨾ end))
        ⨾ field "f_path" (named "struct path")
        ⨾ field "f_inode" (pointer "struct inode")
        ⨾ field "f_op" (pointer "const struct file_operations")
        ⨾ field "f_flags" (base unsigned_int)
        ⨾ field "private_data" (pointer "void")
        ⨾ end)
    ∷ struct_def a1 "struct pipe_inode_info" (
        field "bufs" (pointer "struct pipe_buffer")
        ⨾ field "head" (base int)
        ⨾ field "ring_size" (base int)
        ⨾ field "curbuf" (base unsigned_int)
        ⨾ end)
    ∷ struct_def a1 "struct pipe_inode_info___v54" (
        field "bufs" (pointer "struct pipe_buffer")
        ⨾ field "nrbufs" (base unsigned_int)
        ⨾ field "curbuf" (base unsigned_int)
        ⨾ field "buffers" (base unsigned_int)
        ⨾ end)
    ∷ struct_def a1 "struct pipe_buffer" (
        field "page" (pointer "struct page")
        ⨾ field "offset" (base unsigned_int)
        ⨾ field "len" (base unsigned_int)
        ⨾ field "flags" (base unsigned_int)
        ⨾ end)
    ∷ struct_def a1 "struct public_key_signature" (field "data" (pointer "const void") ⨾ end)
    ∷ enum_def "enum zone_type" (("ZONE_DMA", next) ∷ [])
    ∷ struct_def a1 "struct alloc_context" (field "high_zoneidx" (named "enum zone_type") ⨾ end)
    ∷ []
