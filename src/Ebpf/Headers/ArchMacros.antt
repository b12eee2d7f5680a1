-- ===== src/Ebpf/Headers/ArchMacros.antt =====
-- ebpf/c/include/vmlinux_missing.h: pages and stacks, by target. The literals `_AC(1, UL)` and
-- `_UL(1)` are 1.
use egressd.Prelude.{List, [], ◌∷◌}
use egressd.Ebpf.Ctype.{lit, ident, complement, plus, minus, shift, Decl, macro}

abbrev pub x86_macros : List Decl
x86_macros =
    macro "TS_COMPAT" (lit 2)
    ∷ macro "KASAN_STACK_ORDER" (lit 0)
    ∷ macro "THREAD_SIZE_ORDER" (plus (lit 2) (ident "KASAN_STACK_ORDER"))
    ∷ macro "THREAD_SIZE" (shift (ident "PAGE_SIZE") (ident "THREAD_SIZE_ORDER"))
    ∷ macro "PAGE_SHIFT" (lit 12)
    ∷ macro "PAGE_SIZE" (shift (lit 1) (ident "PAGE_SHIFT"))
    ∷ macro "PAGE_MASK" (complement (minus (ident "PAGE_SIZE") (lit 1)))
    ∷ macro "TOP_OF_KERNEL_STACK_PADDING" (lit 0)
    ∷ []

abbrev pub arm64_macros : List Decl
arm64_macros =
    macro "PAGE_SHIFT" (lit 12)
    ∷ macro "PAGE_SIZE" (shift (lit 1) (ident "PAGE_SHIFT"))
    ∷ macro "_TIF_32BIT" (shift (lit 1) (lit 22))
    ∷ macro "MIN_THREAD_SHIFT" (lit 14)
    ∷ macro "THREAD_SHIFT" (ident "MIN_THREAD_SHIFT")
    ∷ macro "THREAD_SIZE" (shift (lit 1) (ident "THREAD_SHIFT"))
    ∷ []
