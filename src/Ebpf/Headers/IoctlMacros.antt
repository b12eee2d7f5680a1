-- ===== src/Ebpf/Headers/IoctlMacros.antt =====
-- ebpf/c/include/vmlinux_missing.h: the fields of the number of an ioctl, and the types of
-- performance events.
use egressd.Prelude.{List, [], ◌∷◌}
use egressd.Ebpf.Ctype.{lit, ident, plus, is, next, Decl, macro, enum_def}

abbrev pub ioctl_constants : List Decl
ioctl_constants =
    macro "_IOC_NRBITS" (lit 8)
    ∷ macro "_IOC_TYPEBITS" (lit 8)
    ∷ macro "_IOC_SIZEBITS" (lit 14)
    ∷ macro "_IOC_NRSHIFT" (lit 0)
    ∷ macro "_IOC_TYPESHIFT" (plus (ident "_IOC_NRSHIFT") (ident "_IOC_NRBITS"))
    ∷ macro "_IOC_SIZESHIFT" (plus (ident "_IOC_TYPESHIFT") (ident "_IOC_TYPEBITS"))
    ∷ macro "_IOC_DIRSHIFT" (plus (ident "_IOC_SIZESHIFT") (ident "_IOC_SIZEBITS"))
    ∷ macro "_IOC_WRITE" (lit 1)
    ∷ []

abbrev pub perf_types : List Decl
perf_types =
    enum_def "enum perf_type_id" (
      ("PERF_TYPE_HARDWARE", is 0)
      ∷ ("PERF_TYPE_SOFTWARE", is 1)
      ∷ ("PERF_TYPE_TRACEPOINT", is 2)
      ∷ ("PERF_TYPE_HW_CACHE", is 3)
      ∷ ("PERF_TYPE_RAW", is 4)
      ∷ ("PERF_TYPE_BREAKPOINT", is 5)
      ∷ ("PERF_TYPE_MAX", next)
      ∷ [])
    ∷ []
