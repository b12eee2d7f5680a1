-- ===== src/Ebpf/Headers/ProtocolMacros.antt =====
-- ebpf/c/include/vmlinux_missing.h: the protocols that may be missing.
use egressd.Prelude.{List, [], ◌∷◌}
use egressd.Ebpf.Ctype.{lit, Decl, macro}

abbrev pub protocol_macros : List Decl
protocol_macros =
    macro "IPPROTO_IPIP" (lit 4)
    ∷ macro "IPPROTO_DCCP" (lit 33)
    ∷ macro "IPPROTO_IPV6" (lit 41)
    ∷ macro "IPPROTO_ICMPV6" (lit 58)
    ∷ macro "IPPROTO_SCTP" (lit 132)
    ∷ macro "IPPROTO_UDPLITE" (lit 136)
    ∷ macro "IPPROTO_HOPOPTS" (lit 0)
    ∷ macro "IPPROTO_ROUTING" (lit 43)
    ∷ macro "IPPROTO_FRAGMENT" (lit 44)
    ∷ macro "IPPROTO_ICMPV6" (lit 58)
    ∷ macro "IPPROTO_NONE" (lit 59)
    ∷ macro "IPPROTO_DSTOPTS" (lit 60)
    ∷ macro "IPPROTO_MH" (lit 135)
    ∷ []
