-- ===== src/Ebpf/Headers/Inodes.antt =====
-- ebpf/c/include/vmlinux.h: inodes, mounts and directory entries.
use egressd.Prelude.{List, [], ◌∷◌}
use egressd.Ebpf.Ctype.{
  unsigned_long, base, pointer, named, struct_of, union_of, field, end, ◌⨾◌, is, a1, Decl,
  struct_def, enum_def,
}

abbrev pub inode_declarations : List Decl
inode_declarations =
    struct_def a1 "struct inode" (
      field "i_mode" (named "umode_t")
      ⨾ field "i_sb" (pointer "struct super_block")
      ⨾ field "i_ino" (base unsigned_long)
      ⨾ field "i_ctime" (named "struct timespec64")
      ⨾ field "i_size" (named "loff_t")
      ⨾ field "i_fop" (pointer "struct file_operations")
      ⨾ end)
    ∷ struct_def a1 "struct super_block"
        (field "s_dev" (named "dev_t") ⨾ field "s_magic" (base unsigned_long) ⨾ end)
    ∷ struct_def a1 "struct mm_struct" (
        field "" (
          struct_of (
            field "arg_start" (base unsigned_long)
            ⨾ field "arg_end" (base unsigned_long)
            ⨾ field "env_start" (base unsigned_long)
            ⨾ field "env_end" (base unsigned_long)
            ⨾ end))
        ⨾ end)
    ∷ struct_def a1 "struct vfsmount" (field "mnt_root" (pointer "struct dentry") ⨾ end)
    ∷ struct_def a1 "struct mount" (
        field "mnt_parent" (pointer "struct mount")
        ⨾ field "mnt_mountpoint" (pointer "struct dentry")
        ⨾ field "mnt" (named "struct vfsmount")
        ⨾ end)
    ∷ struct_def a1 "struct qstr" (
        field "" (
          union_of (
            field "" (struct_of (field "hash" (named "u32") ⨾ field "len" (named "u32") ⨾ end))
            ⨾ field "hash_len" (named "u64")
            ⨾ end))
        ⨾ field "name" (pointer "const unsigned char")
        ⨾ end)
    ∷ struct_def a1 "struct dentry" (
        field "d_parent" (pointer "struct dentry")
        ⨾ field "d_name" (named "struct qstr")
        ⨾ field "d_inode" (pointer "struct inode")
        ⨾ end)
    ∷ enum_def "enum bpf_func_id" (
        ("BPF_FUNC_probe_write_user", is 36)
        ∷ ("BPF_FUNC_override_return", is 58)
        ∷ ("BPF_FUNC_sk_storage_get", is 107)
        ∷ ("BPF_FUNC_copy_from_user", is 148)
        ∷ ("BPF_FUNC_for_each_map_elem", is 164)
        ∷ [])
    ∷ []
