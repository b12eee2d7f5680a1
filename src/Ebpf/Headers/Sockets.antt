-- ===== src/Ebpf/Headers/Sockets.antt =====
-- ebpf/c/include/vmlinux.h: sockets, their addresses and buffers.
use egressd.Prelude.{List, [], ◌∷◌}
use egressd.Ebpf.Ctype.{
  char, unsigned_char, unsigned_short, int, long, long_long, lit, base, pointer, named, array,
  struct_of, union_of, field, end, ◌⨾◌, a1, Decl, typedef, struct_def,
}

abbrev pub socket_declarations : List Decl
socket_declarations =
    struct_def a1 "struct socket"
      (field "sk" (pointer "struct sock") ⨾ field "file" (pointer "struct file") ⨾ end)
    ∷ typedef "possible_net_t" (struct_of (field "net" (pointer "struct net") ⨾ end))
    ∷ struct_def a1 "struct in6_addr" (
        field "in6_u" (
          union_of (
            field "u6_addr8" (array (named "__u8") (lit 16))
            ⨾ field "u6_addr16" (array (named "__be16") (lit 8))
            ⨾ field "u6_addr32" (array (named "__be32") (lit 4))
            ⨾ end))
        ⨾ end)
    ∷ struct_def a1 "struct sock_common" (
        field "" (
          union_of (
            field "" (
              struct_of
                (field "skc_daddr" (named "__be32") ⨾ field "skc_rcv_saddr" (named "__be32") ⨾ end))
            ⨾ end))
        ⨾ field "" (
            union_of (
              field "" (
                struct_of
                  (field "skc_dport" (named "__be16") ⨾ field "skc_num" (named "__u16") ⨾ end))
              ⨾ end))
        ⨾ field "skc_family" (base unsigned_short)
        ⨾ field "skc_state" (base unsigned_char)
        ⨾ field "skc_bound_dev_if" (base int)
        ⨾ field "skc_v6_daddr" (named "struct in6_addr")
        ⨾ field "skc_v6_rcv_saddr" (named "struct in6_addr")
        ⨾ end)
    ∷ struct_def a1 "struct kobject"
        (field "name" (pointer "const char") ⨾ field "entry" (named "struct list_head") ⨾ end)
    ∷ struct_def a1 "struct device"
        (field "parent" (pointer "struct device") ⨾ field "kobj" (named "struct kobject") ⨾ end)
    ∷ struct_def a1 "struct sock" (
        field "__sk_common" (named "struct sock_common")
        ⨾ field "sk_type" (named "u16")
        ⨾ field "sk_protocol" (named "u16")
        ⨾ field "sk_socket" (pointer "struct socket")
        ⨾ end)
    ∷ typedef "__kernel_dev_t" (named "u32")
    ∷ typedef "dev_t" (named "__kernel_dev_t")
    ∷ struct_def a1 "struct inet_sock" (
        field "sk" (named "struct sock")
        ⨾ field "pinet6" (pointer "struct ipv6_pinfo")
        ⨾ field "inet_saddr" (named "__be32")
        ⨾ field "inet_sport" (named "__be16")
        ⨾ end)
    ∷ typedef "__kernel_sa_family_t" (base unsigned_short)
    ∷ struct_def a1 "struct in_addr" (field "s_addr" (named "__be32") ⨾ end)
    ∷ struct_def a1 "struct sockaddr_in" (
        field "sin_family" (named "__kernel_sa_family_t")
        ⨾ field "sin_port" (named "__be16")
        ⨾ field "sin_addr" (named "struct in_addr")
        ⨾ field "__pad" (array (base unsigned_char) (lit 8))
        ⨾ end)
    ∷ struct_def a1 "struct unix_sock" (field "addr" (pointer "struct unix_address") ⨾ end)
    ∷ struct_def a1 "struct sockaddr_un" (
        field "sun_family" (named "__kernel_sa_family_t")
        ⨾ field "sun_path" (array (base char) (lit 108))
        ⨾ end)
    ∷ struct_def a1 "struct unix_address"
        (field "len" (base int) ⨾ field "name" (array (named "struct sockaddr_un") (lit 0)) ⨾ end)
    ∷ struct_def a1 "struct ipv6_pinfo"
        (field "saddr" (named "struct in6_addr") ⨾ field "flow_label" (named "__be32") ⨾ end)
    ∷ struct_def a1 "struct sockaddr_in6" (
        field "sin6_family" (base unsigned_short)
        ⨾ field "sin6_port" (named "__be16")
        ⨾ field "sin6_flowinfo" (named "__be32")
        ⨾ field "sin6_addr" (named "struct in6_addr")
        ⨾ field "sin6_scope_id" (named "__u32")
        ⨾ end)
    ∷ struct_def a1 "struct msghdr" (field "msg_name" (pointer "void") ⨾ end)
    ∷ typedef "ktime_t" (named "s64")
    ∷ struct_def a1 "struct sk_buff" (
        field "transport_header" (named "__u16")
        ⨾ field "network_header" (named "__u16")
        ⨾ field "" (
            union_of (field "tstamp" (named "ktime_t") ⨾ field "skb_mstamp_ns" (named "u64") ⨾ end))
        ⨾ field "head" (pointer "unsigned char")
        ⨾ field "data" (pointer "unsigned char")
        ⨾ field "len" (named "u32")
        ⨾ field "mac_len" (named "u16")
        ⨾ field "hdr_len" (named "u16")
        ⨾ end)
    ∷ struct_def a1 "struct linux_binprm" (
        field "file" (pointer "struct file")
        ⨾ field "argc" (base int)
        ⨾ field "envc" (base int)
        ⨾ field "filename" (pointer "const char")
        ⨾ field "interp" (pointer "const char")
        ⨾ end)
    ∷ typedef "time64_t" (named "__s64")
    ∷ struct_def a1 "struct timespec64"
        (field "tv_sec" (named "time64_t") ⨾ field "tv_nsec" (base long) ⨾ end)
    ∷ typedef "__kernel_time64_t" (base long_long)
    ∷ struct_def a1 "struct __kernel_timespec"
        (field "tv_sec" (named "__kernel_time64_t") ⨾ field "tv_nsec" (base long_long) ⨾ end)
    ∷ []
