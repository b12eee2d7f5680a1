-- ===== src/Ebpf/Headers/FlagMacros.antt =====
-- ebpf/c/include/vmlinux_missing.h: flags, verdicts and modes of files.
use egressd.Prelude.{List, [], ◌∷◌}
use egressd.Ebpf.Ctype.{lit, minus, Decl, macro, alias}

abbrev pub flag_macros : List Decl
flag_macros =
    macro "VM_NONE" (lit 0)
    ∷ macro "VM_READ" (lit 1)
    ∷ macro "VM_WRITE" (lit 2)
    ∷ macro "VM_EXEC" (lit 4)
    ∷ macro "VM_SHARED" (lit 8)
    ∷ macro "TC_ACT_UNSPEC" (minus (lit 0) (lit 1))
    ∷ macro "TC_ACT_OK" (lit 0)
    ∷ macro "TC_ACT_RECLASSIFY" (lit 1)
    ∷ macro "TC_ACT_SHOT" (lit 2)
    ∷ macro "TC_ACT_PIPE" (lit 3)
    ∷ macro "TC_ACT_STOLEN" (lit 4)
    ∷ macro "TC_ACT_QUEUED" (lit 5)
    ∷ macro "TC_ACT_REPEAT" (lit 6)
    ∷ macro "TC_ACT_REDIRECT" (lit 7)
    ∷ macro "ETH_P_IP" (lit 2048)
    ∷ macro "ETH_P_IPV6" (lit 34525)
    ∷ alias "s6_addr" ("in6_u" ∷ "u6_addr8" ∷ [])
    ∷ alias "s6_addr16" ("in6_u" ∷ "u6_addr16" ∷ [])
    ∷ alias "s6_addr32" ("in6_u" ∷ "u6_addr32" ∷ [])
    ∷ alias "__user" []
    ∷ macro "S_IFMT" (lit 61440)
    ∷ macro "S_IFSOCK" (lit 49152)
    ∷ macro "S_IFLNK" (lit 40960)
    ∷ macro "S_IFREG" (lit 32768)
    ∷ macro "S_IFBLK" (lit 24576)
    ∷ macro "S_IFDIR" (lit 16384)
    ∷ macro "S_IFCHR" (lit 8192)
    ∷ macro "S_IFIFO" (lit 4096)
    ∷ macro "S_ISUID" (lit 2048)
    ∷ macro "S_ISGID" (lit 1024)
    ∷ macro "S_ISVTX" (lit 512)
    ∷ macro "CAP_OPT_NONE" (lit 0)
    ∷ macro "CAP_OPT_NOAUDIT" (lit 2)
    ∷ macro "CAP_OPT_INSETID" (lit 4)
    ∷ []

abbrev pub pipe_macros : List Decl
pipe_macros = macro "PIPE_BUF_FLAG_CAN_MERGE" (lit 16) ∷ []
