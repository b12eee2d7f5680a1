-- ===== src/Ebpf/Headers/BpfCommands.antt =====
-- ebpf/c/include/vmlinux.h: the commands of the bpf call.
use egressd.Prelude.{List, [], ◌∷◌}
use egressd.Ebpf.Ctype.{
  char, lit, ident, base, named, array, struct_of, union_of, field, end, ◌⨾◌, next, same_as, Decl,
  union_def, enum_def, macro,
}

abbrev pub bpf_command_declarations : List Decl
bpf_command_declarations =
    enum_def "enum bpf_cmd" (
      ("BPF_MAP_CREATE", next)
      ∷ ("BPF_MAP_LOOKUP_ELEM", next)
      ∷ ("BPF_MAP_UPDATE_ELEM", next)
      ∷ ("BPF_MAP_DELETE_ELEM", next)
      ∷ ("BPF_MAP_GET_NEXT_KEY", next)
      ∷ ("BPF_PROG_LOAD", next)
      ∷ ("BPF_OBJ_PIN", next)
      ∷ ("BPF_OBJ_GET", next)
      ∷ ("BPF_PROG_ATTACH", next)
      ∷ ("BPF_PROG_DETACH", next)
      ∷ ("BPF_PROG_TEST_RUN", next)
      ∷ ("BPF_PROG_RUN", same_as "BPF_PROG_TEST_RUN")
      ∷ ("BPF_PROG_GET_NEXT_ID", next)
      ∷ ("BPF_MAP_GET_NEXT_ID", next)
      ∷ ("BPF_PROG_GET_FD_BY_ID", next)
      ∷ ("BPF_MAP_GET_FD_BY_ID", next)
      ∷ ("BPF_OBJ_GET_INFO_BY_FD", next)
      ∷ ("BPF_PROG_QUERY", next)
      ∷ ("BPF_RAW_TRACEPOINT_OPEN", next)
      ∷ ("BPF_BTF_LOAD", next)
      ∷ ("BPF_BTF_GET_FD_BY_ID", next)
      ∷ ("BPF_TASK_FD_QUERY", next)
      ∷ ("BPF_MAP_LOOKUP_AND_DELETE_ELEM", next)
      ∷ ("BPF_MAP_FREEZE", next)
      ∷ ("BPF_BTF_GET_NEXT_ID", next)
      ∷ ("BPF_MAP_LOOKUP_BATCH", next)
      ∷ ("BPF_MAP_LOOKUP_AND_DELETE_BATCH", next)
      ∷ ("BPF_MAP_UPDATE_BATCH", next)
      ∷ ("BPF_MAP_DELETE_BATCH", next)
      ∷ ("BPF_LINK_CREATE", next)
      ∷ ("BPF_LINK_UPDATE", next)
      ∷ ("BPF_LINK_GET_FD_BY_ID", next)
      ∷ ("BPF_LINK_GET_NEXT_ID", next)
      ∷ ("BPF_ENABLE_STATS", next)
      ∷ ("BPF_ITER_CREATE", next)
      ∷ ("BPF_LINK_DETACH", next)
      ∷ ("BPF_PROG_BIND_MAP", next)
      ∷ [])
    ∷ macro "BPF_OBJ_NAME_LEN" (lit 16)
    ∷ union_def "union bpf_attr" (
        field "" (
          struct_of (
            field "insn_cnt" (named "__u32")
            ⨾ field "insns" (named "__u64")
            ⨾ field "prog_name" (array (base char) (ident "BPF_OBJ_NAME_LEN"))
            ⨾ end))
        ⨾ field "link_create" (
            struct_of (
              field "prog_fd" (named "__u32")
              ⨾ field "" (union_of (field "target_fd" (named "__u32") ⨾ end))
              ⨾ end))
        ⨾ end)
    ∷ []
