-- ===== src/Ebpf/Headers/Network.antt =====
-- ebpf/c/include/vmlinux.h: the complete protocol headers.
use egressd.Prelude.{List, [], ◌∷◌}
use egressd.Ebpf.Ctype.{
  lit, named, array, struct_of, union_of, field, bits, end, ◌⨾◌, a1, Decl, struct_def,
}

abbrev pub network_declarations : List Decl
network_declarations =
    struct_def a1 "struct iphdr" (
      bits "ihl" (named "__u8") 4
      ⨾ bits "version" (named "__u8") 4
      ⨾ field "tos" (named "__u8")
      ⨾ field "tot_len" (named "__be16")
      ⨾ field "id" (named "__be16")
      ⨾ field "frag_off" (named "__be16")
      ⨾ field "ttl" (named "__u8")
      ⨾ field "protocol" (named "__u8")
      ⨾ field "check" (named "__sum16")
      ⨾ field "saddr" (named "__be32")
      ⨾ field "daddr" (named "__be32")
      ⨾ end)
    ∷ struct_def a1 "struct ipv6hdr" (
        bits "priority" (named "__u8") 4
        ⨾ bits "version" (named "__u8") 4
        ⨾ field "flow_lbl" (array (named "__u8") (lit 3))
        ⨾ field "payload_len" (named "__be16")
        ⨾ field "nexthdr" (named "__u8")
        ⨾ field "hop_limit" (named "__u8")
        ⨾ field "saddr" (named "struct in6_addr")
        ⨾ field "daddr" (named "struct in6_addr")
        ⨾ end)
    ∷ struct_def a1 "struct tcphdr" (
        field "source" (named "__be16")
        ⨾ field "dest" (named "__be16")
        ⨾ field "seq" (named "__be32")
        ⨾ field "ack_seq" (named "__be32")
        ⨾ bits "res1" (named "__u16") 4
        ⨾ bits "doff" (named "__u16") 4
        ⨾ bits "fin" (named "__u16") 1
        ⨾ bits "syn" (named "__u16") 1
        ⨾ bits "rst" (named "__u16") 1
        ⨾ bits "psh" (named "__u16") 1
        ⨾ bits "ack" (named "__u16") 1
        ⨾ bits "urg" (named "__u16") 1
        ⨾ bits "ece" (named "__u16") 1
        ⨾ bits "cwr" (named "__u16") 1
        ⨾ field "window" (named "__be16")
        ⨾ field "check" (named "__sum16")
        ⨾ field "urg_ptr" (named "__be16")
        ⨾ end)
    ∷ struct_def a1 "struct udphdr" (
        field "source" (named "__be16")
        ⨾ field "dest" (named "__be16")
        ⨾ field "len" (named "__be16")
        ⨾ field "check" (named "__sum16")
        ⨾ end)
    ∷ struct_def a1 "struct icmphdr" (
        field "type" (named "__u8")
        ⨾ field "code" (named "__u8")
        ⨾ field "checksum" (named "__sum16")
        ⨾ field "un" (
            union_of (
              field "echo"
                (struct_of (field "id" (named "__be16") ⨾ field "sequence" (named "__be16") ⨾ end))
              ⨾ field "gateway" (named "__be32")
              ⨾ field "frag" (
                  struct_of
                    (field "__unused" (named "__be16") ⨾ field "mtu" (named "__be16") ⨾ end))
              ⨾ field "reserved" (array (named "__u8") (lit 4))
              ⨾ end))
        ⨾ end)
    ∷ struct_def a1 "struct icmpv6_echo"
        (field "identifier" (named "__be16") ⨾ field "sequence" (named "__be16") ⨾ end)
    ∷ struct_def a1 "struct icmpv6_nd_advt" (
        bits "reserved" (named "__u32") 5
        ⨾ bits "override" (named "__u32") 1
        ⨾ bits "solicited" (named "__u32") 1
        ⨾ bits "router" (named "__u32") 1
        ⨾ bits "reserved2" (named "__u32") 24
        ⨾ end)
    ∷ struct_def a1 "struct icmpv6_nd_ra" (
        field "hop_limit" (named "__u8")
        ⨾ bits "reserved" (named "__u8") 3
        ⨾ bits "router_pref" (named "__u8") 2
        ⨾ bits "home_agent" (named "__u8") 1
        ⨾ bits "other" (named "__u8") 1
        ⨾ bits "managed" (named "__u8") 1
        ⨾ field "rt_lifetime" (named "__be16")
        ⨾ end)
    ∷ struct_def a1 "struct icmp6hdr" (
        field "icmp6_type" (named "__u8")
        ⨾ field "icmp6_code" (named "__u8")
        ⨾ field "icmp6_cksum" (named "__sum16")
        ⨾ field "icmp6_dataun" (
            union_of (
              field "un_data32" (array (named "__be32") (lit 1))
              ⨾ field "un_data16" (array (named "__be16") (lit 2))
              ⨾ field "un_data8" (array (named "__u8") (lit 4))
              ⨾ field "u_echo" (named "struct icmpv6_echo")
              ⨾ field "u_nd_advt" (named "struct icmpv6_nd_advt")
              ⨾ field "u_nd_ra" (named "struct icmpv6_nd_ra")
              ⨾ end))
        ⨾ end)
    ∷ []
