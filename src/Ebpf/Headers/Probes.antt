-- ===== src/Ebpf/Headers/Probes.antt =====
-- ebpf/c/include/vmlinux.h: probes, files of sequences and signals.
use egressd.Prelude.{List, [], ◌∷◌}
use egressd.Ebpf.Ctype.{
  unsigned_char, int, unsigned_long, lit, ident, divide, base, pointer, named, array, struct_of,
  field, end, ◌⨾◌, is, a1, Decl, typedef, struct_def, enum_def, forward, macro,
}

abbrev pub probe_declarations : List Decl
probe_declarations =
    struct_def a1 "struct ethhdr" (
      field "h_dest" (array (base unsigned_char) (lit 6))
      ⨾ field "h_source" (array (base unsigned_char) (lit 6))
      ⨾ field "h_proto" (named "__be16")
      ⨾ end)
    ∷ typedef "__sum16" (named "__u16")
    ∷ enum_def "enum kernel_read_file_id" (
        ("READING_UNKNOWN", is 0)
        ∷ ("READING_FIRMWARE", is 1)
        ∷ ("READING_MODULE", is 2)
        ∷ ("READING_KEXEC_IMAGE", is 3)
        ∷ ("READING_KEXEC_INITRAMFS", is 4)
        ∷ ("READING_POLICY", is 5)
        ∷ ("READING_X509_CERTIFICATE", is 6)
        ∷ ("READING_MAX_ID", is 7)
        ∷ [])
    ∷ struct_def a1 "struct kretprobe_instance" (end)
    ∷ typedef "kprobe_opcode_t" (base int)
    ∷ forward "struct kprobe"
    ∷ typedef "kprobe_pre_handler_t" (pointer "int (struct kprobe *, struct pt_regs *)")
    ∷ typedef "kprobe_post_handler_t"
        (pointer "void (struct kprobe *, struct pt_regs *, unsigned long flags)")
    ∷ typedef "kretprobe_handler_t" (pointer "int (struct kretprobe_instance *, struct pt_regs *)")
    ∷ struct_def a1 "struct kprobe" (
        field "addr" (pointer "kprobe_opcode_t")
        ⨾ field "symbol_name" (pointer "const char")
        ⨾ field "pre_handler" (named "kprobe_pre_handler_t")
        ⨾ field "post_handler" (named "kprobe_post_handler_t")
        ⨾ end)
    ∷ struct_def a1 "struct seq_file" (end)
    ∷ struct_def a1 "struct seq_operations" (
        field "start" (pointer "void * (struct seq_file *m, loff_t *pos)")
        ⨾ field "stop" (pointer "void (struct seq_file *m, void *v)")
        ⨾ field "next" (pointer "void * (struct seq_file *m, void *v, loff_t *pos)")
        ⨾ field "show" (pointer "int (struct seq_file *m, void *v)")
        ⨾ end)
    ∷ enum_def "enum bpf_attach_type"
        (("BPF_CGROUP_INET_INGRESS", is 0) ∷ ("BPF_CGROUP_INET_EGRESS", is 1) ∷ [])
    ∷ enum_def "enum bpf_hdr_start_off"
        (("BPF_HDR_START_MAC", is 0) ∷ ("BPF_HDR_START_NET", is 1) ∷ [])
    ∷ macro "_NSIG" (lit 64)
    ∷ macro "_NSIG_BPW" (lit 64)
    ∷ macro "_NSIG_WORDS" (divide (ident "_NSIG") (ident "_NSIG_BPW"))
    ∷ typedef "sigset_t"
        (struct_of (field "sig" (array (base unsigned_long) (ident "_NSIG_WORDS")) ⨾ end))
    ∷ struct_def a1 "struct sigaction" (
        field "sa_handler" (pointer "void")
        ⨾ field "sa_flags" (base unsigned_long)
        ⨾ field "sa_mask" (named "sigset_t")
        ⨾ end)
    ∷ struct_def a1 "struct k_sigaction" (field "sa" (named "struct sigaction") ⨾ end)
    ∷ struct_def a1 "struct sighand_struct"
        (field "action" (array (named "struct k_sigaction") (ident "_NSIG")) ⨾ end)
    ∷ []
