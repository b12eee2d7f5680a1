-- ===== src/Ebpf/Program.antt =====
-- The headers together, as ebpf/c/egressd.c includes them: vmlinux.h for one of the two targets,
-- vmlinux_flavors.h, vmlinux_missing.h, maps.h and types.h.
use egressd.Prelude.{Option, some, List, [], ◌∷◌, nat_comparable, string_comparable}
use egressd.Ebpf.Ctype.{Decl}
use egressd.Ebpf.Declare.{Env, empty_env, declare, ◌>>=◌}
use egressd.Ebpf.Headers.Scalars.{scalar_declarations}
use egressd.Ebpf.Headers.Arch.{x86_declarations, arm64_declarations}
use egressd.Ebpf.Headers.Numbers.{number_declarations}
use egressd.Ebpf.Headers.Tasks.{task_declarations}
use egressd.Ebpf.Headers.Namespaces.{namespace_declarations}
use egressd.Ebpf.Headers.Files.{file_declarations}
use egressd.Ebpf.Headers.Sockets.{socket_declarations}
use egressd.Ebpf.Headers.Inodes.{inode_declarations}
use egressd.Ebpf.Headers.Modules.{module_declarations}
use egressd.Ebpf.Headers.BpfMaps.{bpf_map_declarations}
use egressd.Ebpf.Headers.Probes.{probe_declarations}
use egressd.Ebpf.Headers.BpfCommands.{bpf_command_declarations}
use egressd.Ebpf.Headers.BpfPrograms.{bpf_program_declarations}
use egressd.Ebpf.Headers.Network.{network_declarations}
use egressd.Ebpf.Headers.Flavors.{flavor_declarations}
use egressd.Ebpf.Headers.FieldMacros.{field_macros}
use egressd.Ebpf.Headers.IoctlMacros.{ioctl_constants, perf_types}
use egressd.Ebpf.Headers.ArchMacros.{x86_macros, arm64_macros}
use egressd.Ebpf.Headers.FlagMacros.{flag_macros, pipe_macros}
use egressd.Ebpf.Headers.FamilyMacros.{family_macros}
use egressd.Ebpf.Headers.ProtocolMacros.{protocol_macros}
use egressd.Ebpf.Maps.{stack_limits, stack_trace_types}
use egressd.Ebpf.Headers.Types.{type_declarations}

-- `__TARGET_ARCH_x86` and `__TARGET_ARCH_arm64`.
pub data Arch : Type 0 where
  x86 arm64 : Arch

unfoldable pub arch_declarations : Arch → List Decl
arch_declarations x86 = x86_declarations
arch_declarations arm64 = arm64_declarations

unfoldable pub arch_macros : Arch → List Decl
arch_macros x86 = x86_macros
arch_macros arm64 = arm64_macros

-- The parts of the headers, in order.
unfoldable pub parts : Arch → List (List Decl)
parts arch =
    scalar_declarations
    ∷ arch_declarations arch
    ∷ number_declarations
    ∷ task_declarations
    ∷ namespace_declarations
    ∷ file_declarations
    ∷ socket_declarations
    ∷ inode_declarations
    ∷ module_declarations
    ∷ bpf_map_declarations
    ∷ probe_declarations
    ∷ bpf_command_declarations
    ∷ bpf_program_declarations
    ∷ network_declarations
    ∷ flavor_declarations
    ∷ field_macros
    ∷ ioctl_constants
    ∷ perf_types
    ∷ arch_macros arch
    ∷ flag_macros
    ∷ pipe_macros
    ∷ family_macros
    ∷ protocol_macros
    ∷ stack_limits
    ∷ stack_trace_types
    ∷ type_declarations
    ∷ []

unfoldable pub declare_parts : List (List Decl) → Env → Option Env
declare_parts [] env = some env
declare_parts (ds ∷ rest) env = declare ds env >>= declare_parts rest

unfoldable pub program_env : Arch → Option Env
program_env arch = declare_parts (parts arch) empty_env
