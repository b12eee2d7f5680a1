-- ===== src/Ebpf/Headers/Numbers.antt =====
-- ebpf/c/include/vmlinux.h: the constants of maps, sockets and protocols.
use egressd.Prelude.{List, [], ◌∷◌}
use egressd.Ebpf.Ctype.{is, Decl, enum_def}

abbrev pub number_declarations : List Decl
number_declarations =
    enum_def ""
      (("BPF_ANY", is 0) ∷ ("BPF_NOEXIST", is 1) ∷ ("BPF_EXIST", is 2) ∷ ("BPF_F_LOCK", is 4) ∷ [])
    ∷ enum_def "" (("BPF_F_USER_STACK", is 256) ∷ [])
    ∷ enum_def "" (("BPF_F_CURRENT_CPU", is 4294967295) ∷ [])
    ∷ enum_def "" (
        ("TCP_ESTABLISHED", is 1)
        ∷ ("TCP_SYN_SENT", is 2)
        ∷ ("TCP_SYN_RECV", is 3)
        ∷ ("TCP_FIN_WAIT1", is 4)
        ∷ ("TCP_FIN_WAIT2", is 5)
        ∷ ("TCP_TIME_WAIT", is 6)
        ∷ ("TCP_CLOSE", is 7)
        ∷ ("TCP_CLOSE_WAIT", is 8)
        ∷ ("TCP_LAST_ACK", is 9)
        ∷ ("TCP_LISTEN", is 10)
        ∷ ("TCP_CLOSING", is 11)
        ∷ ("TCP_NEW_SYN_RECV", is 12)
        ∷ ("TCP_MAX_STATES", is 13)
        ∷ [])
    ∷ enum_def "enum sock_type" (
        ("SOCK_STREAM", is 1)
        ∷ ("SOCK_DGRAM", is 2)
        ∷ ("SOCK_RAW", is 3)
        ∷ ("SOCK_RDM", is 4)
        ∷ ("SOCK_SEQPACKET", is 5)
        ∷ ("SOCK_DCCP", is 6)
        ∷ ("SOCK_PACKET", is 10)
        ∷ [])
    ∷ enum_def "" (
        ("IPPROTO_IP", is 0)
        ∷ ("IPPROTO_ICMP", is 1)
        ∷ ("IPPROTO_IGMP", is 2)
        ∷ ("IPPROTO_IPIP", is 4)
        ∷ ("IPPROTO_TCP", is 6)
        ∷ ("IPPROTO_EGP", is 8)
        ∷ ("IPPROTO_PUP", is 12)
        ∷ ("IPPROTO_UDP", is 17)
        ∷ ("IPPROTO_IDP", is 22)
        ∷ ("IPPROTO_TP", is 29)
        ∷ ("IPPROTO_DCCP", is 33)
        ∷ ("IPPROTO_IPV6", is 41)
        ∷ ("IPPROTO_RSVP", is 46)
        ∷ ("IPPROTO_GRE", is 47)
        ∷ ("IPPROTO_ESP", is 50)
        ∷ ("IPPROTO_AH", is 51)
        ∷ ("IPPROTO_MTP", is 92)
        ∷ ("IPPROTO_BEETPH", is 94)
        ∷ ("IPPROTO_ENCAP", is 98)
        ∷ ("IPPROTO_PIM", is 103)
        ∷ ("IPPROTO_COMP", is 108)
        ∷ ("IPPROTO_SCTP", is 132)
        ∷ ("IPPROTO_UDPLITE", is 136)
        ∷ ("IPPROTO_MPLS", is 137)
        ∷ ("IPPROTO_ETHERNET", is 143)
        ∷ ("IPPROTO_RAW", is 255)
        ∷ ("IPPROTO_MPTCP", is 262)
        ∷ ("IPPROTO_MAX", is 263)
        ∷ [])
    ∷ enum_def "" (
        ("TCPF_ESTABLISHED", is 2)
        ∷ ("TCPF_SYN_SENT", is 4)
        ∷ ("TCPF_FIN_WAIT1", is 16)
        ∷ ("TCPF_FIN_WAIT2", is 32)
        ∷ ("TCPF_TIME_WAIT", is 64)
        ∷ ("TCPF_CLOSE", is 128)
        ∷ ("TCPF_CLOSE_WAIT", is 256)
        ∷ ("TCPF_LAST_ACK", is 512)
        ∷ ("TCPF_LISTEN", is 1024)
        ∷ ("TCPF_CLOSING", is 2048)
        ∷ ("TCPF_NEW_SYN_RECV", is 4096)
        ∷ [])
    ∷ []
