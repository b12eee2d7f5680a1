-- ===== src/Ebpf/Maps.antt =====
-- The macros of ebpf/c/include/maps.h, each the definition of a map, and the map of egressd.c.
use egressd.Prelude.{
  ℕ, Option, none, some, List, [], ◌∷◌, String, nat_comparable, string_comparable,
}
use egressd.Ebpf.Ctype.{Expr, lit, ident, CType, base, int, named, array, Decl, typedef, macro}
use egressd.Ebpf.Declare.{Env, eval, expansion_depth, measure, ◌>>=◌}

-- An object of section `.maps`: its members `type` and `max_entries`, whose types are pointers to
-- arrays of that length, and `key` and `value`, which point to those types.
pub record MapDef : Type 0 where
  pub name : String
  pub kind : Expr
  pub max_entries : ℕ
  pub key : Option CType
  pub value : CType

abbrev pub bpf_map : String → String → CType → CType → ℕ → MapDef
bpf_map name kind key value n = record {
  name = name;
  kind = ident kind;
  max_entries = n;
  key = some key;
  value = value;
}

abbrev pub bpf_map_no_key : String → String → CType → ℕ → MapDef
bpf_map_no_key name kind value n = record {
  name = name;
  kind = ident kind;
  max_entries = n;
  key = none;
  value = value;
}

abbrev pub bpf_hash : String → CType → CType → ℕ → MapDef
bpf_hash name key value n = bpf_map name "BPF_MAP_TYPE_HASH" key value n

abbrev pub bpf_lru_hash : String → CType → CType → ℕ → MapDef
bpf_lru_hash name key value n = bpf_map name "BPF_MAP_TYPE_LRU_HASH" key value n

abbrev pub bpf_array : String → CType → ℕ → MapDef
bpf_array name value n = bpf_map name "BPF_MAP_TYPE_ARRAY" (named "u32") value n

abbrev pub bpf_percpu_array : String → CType → ℕ → MapDef
bpf_percpu_array name value n = bpf_map name "BPF_MAP_TYPE_PERCPU_ARRAY" (named "u32") value n

abbrev pub bpf_prog_array : String → ℕ → MapDef
bpf_prog_array name n = bpf_map name "BPF_MAP_TYPE_PROG_ARRAY" (named "u32") (named "u32") n

abbrev pub bpf_perf_output : String → ℕ → MapDef
bpf_perf_output name n = bpf_map name "BPF_MAP_TYPE_PERF_EVENT_ARRAY" (base int) (named "__u32") n

abbrev pub bpf_queue : String → CType → ℕ → MapDef
bpf_queue name value n = bpf_map_no_key name "BPF_MAP_TYPE_QUEUE" value n

abbrev pub bpf_stack : String → CType → ℕ → MapDef
bpf_stack name value n = bpf_map_no_key name "BPF_MAP_TYPE_STACK" value n

abbrev pub bpf_stack_trace : String → ℕ → MapDef
bpf_stack_trace name n =
    bpf_map name "BPF_MAP_TYPE_STACK_TRACE" (named "u32") (named "stack_trace_t") n

abbrev pub stack_limits : List Decl
stack_limits = macro "MAX_STACK_ADDRESSES" (lit 1024) ∷ macro "MAX_STACK_DEPTH" (lit 20) ∷ []

abbrev pub stack_trace_types : List Decl
stack_trace_types = typedef "stack_trace_t" (array (named "__u64") (ident "MAX_STACK_DEPTH")) ∷ []

abbrev pub events : MapDef
events = bpf_perf_output "events" 1024

-- What the kernel is asked for when the map is made; a map without keys has keys of size 0.
pub record MapAttr : Type 0 where
  pub map_type : ℕ
  pub key_size : ℕ
  pub value_size : ℕ
  pub entries : ℕ

unfoldable pub size_or_zero : Env → Option CType → Option ℕ
size_or_zero env none = some 0
size_or_zero env (some t) = do sh ← measure env t; some sh.layout.size

unfoldable pub map_attr : Env → MapDef → Option MapAttr
map_attr env def = do
  kind ← eval expansion_depth env def.kind
  key ← size_or_zero env def.key
  value ← size_or_zero env (some def.value)
  some (record { map_type = kind; key_size = key; value_size = value; entries = def.max_entries })
