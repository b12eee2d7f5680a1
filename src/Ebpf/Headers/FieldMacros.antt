-- ===== src/Ebpf/Headers/FieldMacros.antt =====
-- ebpf/c/include/vmlinux_missing.h: macros for paths of fields, and some constants.
use egressd.Prelude.{List, [], ◌∷◌}
use egressd.Ebpf.Ctype.{lit, complement, Decl, macro, alias}

abbrev pub field_macros : List Decl
field_macros =
    macro "ULLONG_MAX" (complement (lit 0))
    ∷ alias "inet_daddr" ("sk" ∷ "__sk_common" ∷ "skc_daddr" ∷ [])
    ∷ alias "inet_rcv_saddr" ("sk" ∷ "__sk_common" ∷ "skc_rcv_saddr" ∷ [])
    ∷ alias "inet_dport" ("sk" ∷ "__sk_common" ∷ "skc_dport" ∷ [])
    ∷ alias "inet_num" ("sk" ∷ "__sk_common" ∷ "skc_num" ∷ [])
    ∷ alias "sk_node" ("__sk_common" ∷ "skc_node" ∷ [])
    ∷ alias "sk_nulls_node" ("__sk_common" ∷ "skc_nulls_node" ∷ [])
    ∷ alias "sk_refcnt" ("__sk_common" ∷ "skc_refcnt" ∷ [])
    ∷ alias "sk_tx_queue_mapping" ("__sk_common" ∷ "skc_tx_queue_mapping" ∷ [])
    ∷ alias "sk_dontcopy_begin" ("__sk_common" ∷ "skc_dontcopy_begin" ∷ [])
    ∷ alias "sk_dontcopy_end" ("__sk_common" ∷ "skc_dontcopy_end" ∷ [])
    ∷ alias "sk_hash" ("__sk_common" ∷ "skc_hash" ∷ [])
    ∷ alias "sk_portpair" ("__sk_common" ∷ "skc_portpair" ∷ [])
    ∷ alias "sk_num" ("__sk_common" ∷ "skc_num" ∷ [])
    ∷ alias "sk_dport" ("__sk_common" ∷ "skc_dport" ∷ [])
    ∷ alias "sk_addrpair" ("__sk_common" ∷ "skc_addrpair" ∷ [])
    ∷ alias "sk_daddr" ("__sk_common" ∷ "skc_daddr" ∷ [])
    ∷ alias "sk_rcv_saddr" ("__sk_common" ∷ "skc_rcv_saddr" ∷ [])
    ∷ alias "sk_family" ("__sk_common" ∷ "skc_family" ∷ [])
    ∷ alias "sk_state" ("__sk_common" ∷ "skc_state" ∷ [])
    ∷ alias "sk_reuse" ("__sk_common" ∷ "skc_reuse" ∷ [])
    ∷ alias "sk_reuseport" ("__sk_common" ∷ "skc_reuseport" ∷ [])
    ∷ alias "sk_ipv6only" ("__sk_common" ∷ "skc_ipv6only" ∷ [])
    ∷ alias "sk_net_refcnt" ("__sk_common" ∷ "skc_net_refcnt" ∷ [])
    ∷ alias "sk_bound_dev_if" ("__sk_common" ∷ "skc_bound_dev_if" ∷ [])
    ∷ alias "sk_bind_node" ("__sk_common" ∷ "skc_bind_node" ∷ [])
    ∷ alias "sk_prot" ("__sk_common" ∷ "skc_prot" ∷ [])
    ∷ alias "sk_net" ("__sk_common" ∷ "skc_net" ∷ [])
    ∷ alias "sk_v6_daddr" ("__sk_common" ∷ "skc_v6_daddr" ∷ [])
    ∷ alias "sk_v6_rcv_saddr" ("__sk_common" ∷ "skc_v6_rcv_saddr" ∷ [])
    ∷ alias "sk_cookie" ("__sk_common" ∷ "skc_cookie" ∷ [])
    ∷ alias "sk_incoming_cpu" ("__sk_common" ∷ "skc_incoming_cpu" ∷ [])
    ∷ alias "sk_flags" ("__sk_common" ∷ "skc_flags" ∷ [])
    ∷ alias "sk_rxhash" ("__sk_common" ∷ "skc_rxhash" ∷ [])
    ∷ macro "ICMP_ECHO" (lit 8)
    ∷ macro "ICMP_EXT_ECHO" (lit 42)
    ∷ macro "ICMPV6_ECHO_REQUEST" (lit 128)
    ∷ macro "PF_KTHREAD" (lit 2097152)
    ∷ macro "TASK_COMM_LEN" (lit 16)
    ∷ macro "PROC_SUPER_MAGIC" (lit 40864)
    ∷ []
