-- ===== src/Ebpf/Headers/FamilyMacros.antt =====
-- ebpf/c/include/vmlinux_missing.h: the families of protocols and of addresses.
use egressd.Prelude.{List, [], ◌∷◌}
use egressd.Ebpf.Ctype.{lit, ident, Decl, macro}

abbrev pub family_macros : List Decl
family_macros =
    macro "PF_UNSPEC" (lit 0)
    ∷ macro "PF_LOCAL" (lit 1)
    ∷ macro "PF_UNIX" (ident "PF_LOCAL")
    ∷ macro "PF_FILE" (ident "PF_LOCAL")
    ∷ macro "PF_INET" (lit 2)
    ∷ macro "PF_BRIDGE" (lit 7)
    ∷ macro "PF_INET6" (lit 10)
    ∷ macro "PF_KEY" (lit 15)
    ∷ macro "PF_NETLINK" (lit 16)
    ∷ macro "PF_ROUTE" (ident "PF_NETLINK")
    ∷ macro "PF_PACKET" (lit 17)
    ∷ macro "PF_IB" (lit 27)
    ∷ macro "PF_MPLS" (lit 28)
    ∷ macro "PF_BLUETOOTH" (lit 31)
    ∷ macro "PF_VSOCK" (lit 40)
    ∷ macro "PF_XDP" (lit 44)
    ∷ macro "AF_UNSPEC" (ident "PF_UNSPEC")
    ∷ macro "AF_LOCAL" (ident "PF_LOCAL")
    ∷ macro "AF_UNIX" (ident "PF_UNIX")
    ∷ macro "AF_FILE" (ident "PF_FILE")
    ∷ macro "AF_INET" (ident "PF_INET")
    ∷ macro "AF_INET6" (ident "PF_INET6")
    ∷ macro "AF_KEY" (ident "PF_KEY")
    ∷ macro "AF_NETLINK" (ident "PF_NETLINK")
    ∷ macro "AF_ROUTE" (ident "PF_ROUTE")
    ∷ macro "AF_PACKET" (ident "PF_PACKET")
    ∷ macro "AF_IB" (ident "PF_IB")
    ∷ macro "AF_MPLS" (ident "PF_MPLS")
    ∷ macro "AF_BLUETOOTH" (ident "PF_BLUETOOTH")
    ∷ macro "AF_VSOCK" (ident "PF_VSOCK")
    ∷ macro "AF_XDP" (ident "PF_XDP")
    ∷ []
