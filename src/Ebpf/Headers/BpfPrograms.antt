-- ===== src/Ebpf/Headers/BpfPrograms.antt =====
-- ebpf/c/include/vmlinux.h: the types of eBPF programs, and events.
use egressd.Prelude.{List, [], ◌∷◌}
use egressd.Ebpf.Ctype.{
  char, int, unsigned_long, lit, ident, shift, base, pointer, named, array, union_of, field, bits,
  end, ◌⨾◌, next, a1, Decl, struct_def, enum_def, constant,
}

abbrev pub bpf_program_declarations : List Decl
bpf_program_declarations =
    enum_def "enum bpf_prog_type" (
      ("BPF_PROG_TYPE_UNSPEC", next)
      ∷ ("BPF_PROG_TYPE_SOCKET_FILTER", next)
      ∷ ("BPF_PROG_TYPE_KPROBE", next)
      ∷ ("BPF_PROG_TYPE_SCHED_CLS", next)
      ∷ ("BPF_PROG_TYPE_SCHED_ACT", next)
      ∷ ("BPF_PROG_TYPE_TRACEPOINT", next)
      ∷ ("BPF_PROG_TYPE_XDP", next)
      ∷ ("BPF_PROG_TYPE_PERF_EVENT", next)
      ∷ ("BPF_PROG_TYPE_CGROUP_SKB", next)
      ∷ ("BPF_PROG_TYPE_CGROUP_SOCK", next)
      ∷ ("BPF_PROG_TYPE_LWT_IN", next)
      ∷ ("BPF_PROG_TYPE_LWT_OUT", next)
      ∷ ("BPF_PROG_TYPE_LWT_XMIT", next)
      ∷ ("BPF_PROG_TYPE_SOCK_OPS", next)
      ∷ ("BPF_PROG_TYPE_SK_SKB", next)
      ∷ ("BPF_PROG_TYPE_CGROUP_DEVICE", next)
      ∷ ("BPF_PROG_TYPE_SK_MSG", next)
      ∷ ("BPF_PROG_TYPE_RAW_TRACEPOINT", next)
      ∷ ("BPF_PROG_TYPE_CGROUP_SOCK_ADDR", next)
      ∷ ("BPF_PROG_TYPE_LWT_SEG6LOCAL", next)
      ∷ ("BPF_PROG_TYPE_LIRC_MODE2", next)
      ∷ ("BPF_PROG_TYPE_SK_REUSEPORT", next)
      ∷ ("BPF_PROG_TYPE_FLOW_DISSECTOR", next)
      ∷ ("BPF_PROG_TYPE_CGROUP_SYSCTL", next)
      ∷ ("BPF_PROG_TYPE_RAW_TRACEPOINT_WRITABLE", next)
      ∷ ("BPF_PROG_TYPE_CGROUP_SOCKOPT", next)
      ∷ ("BPF_PROG_TYPE_TRACING", next)
      ∷ ("BPF_PROG_TYPE_STRUCT_OPS", next)
      ∷ ("BPF_PROG_TYPE_EXT", next)
      ∷ ("BPF_PROG_TYPE_LSM", next)
      ∷ ("BPF_PROG_TYPE_SK_LOOKUP", next)
      ∷ ("BPF_PROG_TYPE_SYSCALL", next)
      ∷ [])
    ∷ struct_def a1 "struct bpf_prog_aux" (
        field "id" (named "u32")
        ⨾ field "name" (array (base char) (ident "BPF_OBJ_NAME_LEN"))
        ⨾ end)
    ∷ struct_def a1 "struct bpf_prog" (
        field "type" (named "enum bpf_prog_type")
        ⨾ field "aux" (pointer "struct bpf_prog_aux")
        ⨾ end)
    ∷ struct_def a1 "struct tracepoint" (field "name" (pointer "const char") ⨾ end)
    ∷ struct_def a1 "struct trace_event_class" (field "system" (pointer "const char") ⨾ end)
    ∷ struct_def a1 "struct trace_event_call" (
        field "class" (pointer "struct trace_event_class")
        ⨾ field "" (
            union_of
              (field "name" (pointer "char") ⨾ field "tp" (pointer "struct tracepoint") ⨾ end))
        ⨾ field "module" (pointer "void")
        ⨾ field "flags" (base int)
        ⨾ end)
    ∷ struct_def a1 "struct trace_probe" (field "list" (named "struct list_head") ⨾ end)
    ∷ struct_def a1 "struct trace_probe_event" (
        field "call" (named "struct trace_event_call")
        ⨾ field "probes" (named "struct list_head")
        ⨾ end)
    ∷ struct_def a1 "struct uprobe_consumer" (
        field "ret_handler"
          (pointer "int (struct uprobe_consumer *self, unsigned long func, struct pt_regs *regs)")
        ⨾ end)
    ∷ struct_def a1 "struct trace_uprobe" (
        field "consumer" (named "struct uprobe_consumer")
        ⨾ field "filename" (pointer "char")
        ⨾ field "offset" (base unsigned_long)
        ⨾ field "tp" (named "struct trace_probe")
        ⨾ end)
    ∷ struct_def a1 "struct kretprobe"
        (field "kp" (named "struct kprobe") ⨾ field "handler" (named "kretprobe_handler_t") ⨾ end)
    ∷ struct_def a1 "struct trace_kprobe" (
        field "rp" (named "struct kretprobe")
        ⨾ field "symbol" (pointer "const char")
        ⨾ field "tp" (named "struct trace_probe")
        ⨾ end)
    ∷ struct_def a1 "struct perf_event" (field "tp_event" (pointer "struct trace_event_call") ⨾ end)
    ∷ struct_def a1 "struct bpf_verifier_env" (field "prog" (pointer "struct bpf_prog") ⨾ end)
    ∷ struct_def a1 "struct bpf_insn" (
        field "code" (named "__u8")
        ⨾ bits "dst_reg" (named "__u8") 4
        ⨾ bits "src_reg" (named "__u8") 4
        ⨾ field "off" (named "__s16")
        ⨾ field "imm" (named "__s32")
        ⨾ end)
    ∷ constant "TRACE_EVENT_FL_TRACEPOINT_BIT" (lit 4)
    ∷ constant "TRACE_EVENT_FL_TRACEPOINT" (shift (lit 1) (ident "TRACE_EVENT_FL_TRACEPOINT_BIT"))
    ∷ []
