-- ===== src/Tests/Headers.antt =====
-- The headers of ebpf/c/include at concrete inputs.
use egressd.Prelude.{
  ℕ, ◌+◌, ◌/◌, ◌%◌, ◌^◌, ◌<◌, ◌≡◌, refl, some, arith, nat_comparable, string_comparable, All,
}
use egressd.Prelude.Table.{lookup}
use egressd.Ebpf.Ctype.{named}
use egressd.Ebpf.Declare.{Env, declare, declare_one, measure, enumerate, eval}
use egressd.Ebpf.Program.{
  x86, arm64, arch_declarations, arch_macros, parts, declare_parts, program_env,
}
use egressd.Ebpf.Egress.{Memory, ntohs_at}
use egressd.Ebpf.ReadLaws.{in_program, Reads, ReadsPort, HaveSizes, ip_field, read-nethdrs}
use egressd.Ebpf.Missing.{ipv6_addr_any, ioc_typecheck, iow, perf_event_ioc_set_bpf, ioc}
use egressd.Ebpf.MissingLaws.{zero_bytes, ipv6_addr_any-zero_bytes}
use egressd.Ebpf.IoctlLaws.{iow_fields}
use egressd.Ebpf.WireLaws.{wire_headers, HasNoGaps, wire_headers-HasNoGaps}
use egressd.Ebpf.MacroLaws.{IsSettled, macros-IsSettled}
use egressd.Ebpf.Maps.{size_or_zero, map_attr, events}
use egressd.Ebpf.MapLaws.{HasBytes, MacrosAskFor, AsksFor, map_attr-macros}

-- A memory that starts with the byte 0x45 of an IP header without options.
abbrev counting : Memory
counting i = (69 + i) % 256

counting_bytes : (i : ℕ) → counting i < 256
counting_bytes i = omega arith

abbrev zeros : Memory
zeros i = 0

macros-IsSettled_example :
    (env : Env) × (program_env arm64 ≡ some env) × All (IsSettled env) env.macros
macros-IsSettled_example = macros-IsSettled arm64

wire_headers-HasNoGaps_example :
    (env : Env) × (program_env x86 ≡ some env) × All (HasNoGaps env) wire_headers
wire_headers-HasNoGaps_example = wire_headers-HasNoGaps x86

read-nethdrs_example :
    Reads x86 "nethdrs" (ip_field "version") counting 4
    × Reads x86 "nethdrs" (ip_field "ihl") counting 5
    × Reads x86 "nethdrs" (ip_field "protocol") counting 78
    × ReadsPort x86 "source" counting 28014
    × ReadsPort x86 "dest" counting 28528
    × HaveSizes x86
unfolding ntohs_at
read-nethdrs_example = read-nethdrs x86 counting counting_bytes

ipv6_addr_any-zero_bytes_example :
    in_program x86 (λ env. ipv6_addr_any env zeros) ≡ some (zero_bytes zeros 0 16)
ipv6_addr_any-zero_bytes_example = ipv6_addr_any-zero_bytes zeros (λ i. omega arith) x86

u32_bytes : in_program x86 (λ env. ioc_typecheck env (named "__u32")) ≡ some 4
unfolding in_program ioc_typecheck program_env declare_parts parts arch_declarations arch_macros
    declare declare_one measure lookup enumerate eval
u32_bytes = refl

iow_fields_example :
    (n : ℕ) × (in_program x86 (λ env. iow env 36 8 (named "__u32")) ≡ some n)
    × (n / 2 ^ 30 ≡ 1)
    × (n / 2 ^ 16 % 2 ^ 14 ≡ 4)
    × (n / 2 ^ 8 % 2 ^ 8 ≡ 36)
    × (n % 2 ^ 8 ≡ 8)
iow_fields_example =
    iow_fields x86 36 8 4 (named "__u32") (omega arith) (omega arith) (omega arith) u32_bytes

key_bytes : HasBytes x86 (named "u32") 4
unfolding in_program size_or_zero program_env declare_parts parts arch_declarations arch_macros
    declare declare_one measure lookup enumerate eval
key_bytes = refl

value_bytes : HasBytes x86 (named "u64") 8
unfolding in_program size_or_zero program_env declare_parts parts arch_declarations arch_macros
    declare declare_one measure lookup enumerate eval
value_bytes = refl

map_attr-macros_example : MacrosAskFor x86 "totals" (named "u32") (named "u64") 1024 4 8
map_attr-macros_example =
    map_attr-macros x86 "totals" (named "u32") (named "u64") 1024 4 8 key_bytes value_bytes

-- The request number of linux/perf_event.h.
set_bpf : in_program arm64 perf_event_ioc_set_bpf ≡ some 0x40042408
unfolding in_program perf_event_ioc_set_bpf iow ioc ioc_typecheck program_env declare_parts parts
    arch_declarations arch_macros declare declare_one measure lookup enumerate eval
set_bpf = refl

-- The map of the program.
events_map : AsksFor x86 events 4 4 4 1024
unfolding in_program size_or_zero map_attr program_env declare_parts parts arch_declarations
    arch_macros declare declare_one measure lookup enumerate eval
events_map = refl
