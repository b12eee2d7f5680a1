-- ===== src/Ebpf/MapLaws.antt =====
-- What the maps that ebpf/c/include/maps.h defines ask of the kernel.
use egressd.Prelude.{ℕ, ◌≡◌, refl, Option, none, some, String, nat_comparable, string_comparable}
use egressd.Prelude.Table.{lookup}
use egressd.Ebpf.Ctype.{CType, base, int, named, ident}
use egressd.Ebpf.Declare.{
  Env, declare, declare_one, measure, enumerate, eval, expansion_depth, ◌>>=◌,
}
use egressd.Ebpf.Program.{
  Arch, x86, arm64, arch_declarations, arch_macros, parts, declare_parts, program_env,
}
use egressd.Ebpf.Maps.{
  MapDef, bpf_hash, bpf_lru_hash, bpf_array, bpf_percpu_array, bpf_prog_array, bpf_perf_output,
  bpf_queue, bpf_stack, bpf_stack_trace, size_or_zero, map_attr,
}
use egressd.Ebpf.ReadLaws.{in_program}

abbrev HasKind : Option Env → String → ℕ → Type 0
HasKind o name n = (o >>= λ env. eval expansion_depth env (ident name)) ≡ some n

abbrev Takes : Option Env → CType → ℕ → Type 0
Takes o t n = (o >>= λ env. size_or_zero env (some t)) ≡ some n

abbrev IsMade : Option Env → MapDef → ℕ → ℕ → ℕ → ℕ → Type 0
IsMade o def kind key value n =
    (o >>= λ env. map_attr env def)
    ≡ some (record { map_type = kind; key_size = key; value_size = value; entries = n })

-- `value` takes n bytes on a target, as a map's key or value.
abbrev pub HasBytes : Arch → CType → ℕ → Type 0
HasBytes arch t n = in_program arch (λ env. size_or_zero env (some t)) ≡ some n

-- The kernel is asked for a map of that type, those sizes and that many entries.
abbrev pub AsksFor : Arch → MapDef → ℕ → ℕ → ℕ → ℕ → Type 0
AsksFor arch def kind key value n =
    in_program arch (λ env. map_attr env def)
    ≡ some (record { map_type = kind; key_size = key; value_size = value; entries = n })

program_env-kinds :
    (arch : Arch)
    → HasKind (program_env arch) "BPF_MAP_TYPE_HASH" 1
      × HasKind (program_env arch) "BPF_MAP_TYPE_ARRAY" 2
      × HasKind (program_env arch) "BPF_MAP_TYPE_PROG_ARRAY" 3
      × HasKind (program_env arch) "BPF_MAP_TYPE_PERF_EVENT_ARRAY" 4
      × HasKind (program_env arch) "BPF_MAP_TYPE_PERCPU_ARRAY" 6
      × HasKind (program_env arch) "BPF_MAP_TYPE_STACK_TRACE" 7
      × HasKind (program_env arch) "BPF_MAP_TYPE_LRU_HASH" 9
      × HasKind (program_env arch) "BPF_MAP_TYPE_QUEUE" 22
      × HasKind (program_env arch) "BPF_MAP_TYPE_STACK" 23
      × Takes (program_env arch) (named "u32") 4
      × Takes (program_env arch) (named "__u32") 4
      × Takes (program_env arch) (base int) 4
      × Takes (program_env arch) (named "stack_trace_t") 160
unfolding program_env declare_parts parts arch_declarations arch_macros declare declare_one measure
    lookup enumerate eval size_or_zero
program_env-kinds x86 =
    (refl, refl, refl, refl, refl, refl, refl, refl, refl, refl, refl, refl, refl)
program_env-kinds arm64 =
    (refl, refl, refl, refl, refl, refl, refl, refl, refl, refl, refl, refl, refl)

made :
    (o : Option Env) (def : MapDef) (kind key value : ℕ)
    → (o >>= λ env. eval expansion_depth env def.kind) ≡ some kind
    → (o >>= λ env. size_or_zero env def.key) ≡ some key
    → (o >>= λ env. size_or_zero env (some def.value)) ≡ some value
    → IsMade o def kind key value def.max_entries
unfolding map_attr
made none def kind key value e f g = cc
made (some env) def kind key value e f g = rw (e, f, g)

no_key :
    (o : Option Env) (n : ℕ) (t : CType)
    → Takes o t n
    → (o >>= λ env. size_or_zero env none) ≡ some 0
unfolding size_or_zero
no_key none n t e = cc
no_key (some env) n t e = refl

-- The two hashes have keys of k bytes, the arrays of four, the queue and the stack none; the values
-- have v bytes or, where the macro fixes them, four, or 160 for a stack trace.
abbrev pub MacrosAskFor : Arch → String → CType → CType → ℕ → ℕ → ℕ → Type 0
MacrosAskFor arch name key value n k v =
    AsksFor arch (bpf_hash name key value n) 1 k v n
    × AsksFor arch (bpf_lru_hash name key value n) 9 k v n
    × AsksFor arch (bpf_array name value n) 2 4 v n
    × AsksFor arch (bpf_percpu_array name value n) 6 4 v n
    × AsksFor arch (bpf_prog_array name n) 3 4 4 n
    × AsksFor arch (bpf_perf_output name n) 4 4 4 n
    × AsksFor arch (bpf_queue name value n) 22 0 v n
    × AsksFor arch (bpf_stack name value n) 23 0 v n
    × AsksFor arch (bpf_stack_trace name n) 7 4 160 n

-- On both targets, for a key type of k bytes and a value type of v bytes, each macro of maps.h asks
-- for a map of the type that it is named for, by the kernel's number, with n entries: the two hashes
-- with keys of k bytes, the arrays with keys of four, the queue and the stack without keys; with
-- values of v bytes or, where the macro fixes the value, of four, or 160 for a stack trace.
pub map_attr-macros :
    (arch : Arch) (name : String) (key value : CType) (n k v : ℕ)
    → HasBytes arch key k
    → HasBytes arch value v
    → MacrosAskFor arch name key value n k v
unfolding in_program
map_attr-macros arch name key value n k v takes_k takes_v =
    let o = program_env arch in
    let (hash, arr, prog, perf, percpu, trace, lru, queue, stack, u32, uu32, int4, frames) =
      program_env-kinds arch in
    let keyless = no_key o v value takes_v in
    (
      made o (bpf_hash name key value n) 1 k v hash takes_k takes_v,
      made o (bpf_lru_hash name key value n) 9 k v lru takes_k takes_v,
      made o (bpf_array name value n) 2 4 v arr u32 takes_v,
      made o (bpf_percpu_array name value n) 6 4 v percpu u32 takes_v,
      made o (bpf_prog_array name n) 3 4 4 prog u32 u32,
      made o (bpf_perf_output name n) 4 4 4 perf int4 uu32,
      made o (bpf_queue name value n) 22 0 v queue keyless takes_v,
      made o (bpf_stack name value n) 23 0 v stack keyless takes_v,
      made o (bpf_stack_trace name n) 7 4 160 trace u32 frames,
    )
