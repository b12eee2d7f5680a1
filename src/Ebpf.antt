-- ===== src/Ebpf.antt =====
-- The eBPF program of ebpf/c, and the headers that it is compiled with.
pub mod Ctype
pub mod Layout
pub mod Declare
pub mod LayoutLaws
pub mod Headers
pub mod Maps
pub mod Program
pub mod DeclareLaws
pub mod Egress
pub mod EgressLaws
pub mod Reads
pub mod Missing
pub mod ReadLaws
pub mod MissingLaws
pub mod WireLaws
pub mod MacroLaws
pub mod MapLaws
pub mod IoctlLaws
pub mod AbiLaws
