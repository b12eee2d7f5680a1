-- ===== src/Ebpf/Headers.antt =====
-- The headers that the program is compiled with: ebpf/c/include/vmlinux.h, vmlinux_flavors.h,
-- vmlinux_missing.h and types.h, declaration by declaration, in the order in which egressd.c
-- includes them.
pub mod Scalars
pub mod Arch
pub mod Numbers
pub mod Tasks
pub mod Namespaces
pub mod Files
pub mod Sockets
pub mod Inodes
pub mod Modules
pub mod BpfMaps
pub mod Probes
pub mod BpfCommands
pub mod BpfPrograms
pub mod Network
pub mod Flavors
pub mod FieldMacros
pub mod IoctlMacros
pub mod ArchMacros
pub mod FlagMacros
pub mod FamilyMacros
pub mod ProtocolMacros
pub mod Types
