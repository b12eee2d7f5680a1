-- ===== src/Ebpf/Headers/Types.antt =====
-- ebpf/c/include/types.h: the program's own types.
use egressd.Prelude.{List, [], ◌∷◌}
use egressd.Ebpf.Ctype.{
  lit, named, array, union_of, packed_of, field, end, ◌⨾◌, a1, Decl, typedef, struct_def, union_def,
}

abbrev pub type_declarations : List Decl
type_declarations =
    struct_def a1 "struct event_context"
      (field "pid" (named "u32") ⨾ field "eventid" (named "u32") ⨾ end)
    ∷ typedef "event_context_t" (named "struct event_context")
    ∷ typedef "struct net_event_context"
        (packed_of (field "" (packed_of (field "bytes" (named "u32") ⨾ end)) ⨾ end))
    ∷ typedef "net_event_context_t" (named "struct net_event_context")
    ∷ union_def "union iphdrs_t"
        (field "iphdr" (named "struct iphdr") ⨾ field "ipv6hdr" (named "struct ipv6hdr") ⨾ end)
    ∷ typedef "iphdrs" (named "union iphdrs_t")
    ∷ union_def "union protohdrs_t" (
        field "tcphdr" (named "struct tcphdr")
        ⨾ field "udphdr" (named "struct udphdr")
        ⨾ field "icmphdr" (named "struct icmphdr")
        ⨾ field "icmp6hdr" (named "struct icmp6hdr")
        ⨾ field "" (union_of (field "tcp_extra" (array (named "u8") (lit 40)) ⨾ end))
        ⨾ end)
    ∷ typedef "protohdrs" (named "union protohdrs_t")
    ∷ struct_def a1 "struct nethdrs_t"
        (field "iphdrs" (named "iphdrs") ⨾ field "protohdrs" (named "protohdrs") ⨾ end)
    ∷ typedef "nethdrs" (named "struct nethdrs_t")
    ∷ []
