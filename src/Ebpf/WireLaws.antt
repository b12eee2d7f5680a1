-- ===== src/Ebpf/WireLaws.antt =====
-- The headers of the protocols, in the order of their fields.
use egressd.Prelude.{
  every, every-All, ℕ, ◌+◌, ◌*◌, ◌≤◌, ◌≡◌, refl, Bool, true, false, ◌&&◌, Option, none, some, List,
  [], ◌∷◌, arith, String, ltb, leb, if◌then◌else◌, ◌==◌, nat_comparable, string_comparable, All,
}
use egressd.Prelude.Table.{lookup}
use egressd.Ebpf.Layout.{
  Place, place, start_of, struct_places, union_layout, max_align, struct_layout, struct_end,
  union_end,
}
use egressd.Ebpf.Declare.{
  Env, Record, struct_record, union_record, declare, declare_one, measure, enumerate, eval,
}
use egressd.Ebpf.Program.{
  Arch, x86, arm64, arch_declarations, arch_macros, parts, declare_parts, program_env,
}
use egressd.Ebpf.ReadLaws.{in_program}
use egressd.Ebpf.DeclareLaws.{bind-some, some-inj}

pub places_of : Record → List Place
places_of (struct_record l ms) = struct_places 0 ms
places_of (union_record l ms) = []

pub size_in_bits : Record → ℕ
size_in_bits (struct_record l ms) = 8 * l.size
size_in_bits (union_record l ms) = 8 * l.size

-- How many of the fields a bit belongs to.
pub covering : ℕ → List Place → ℕ
covering b [] = 0
covering b (p ∷ ps) = (if leb p.start b && ltb b (p.start + p.width) then 1 else 0) + covering b ps

-- Each field starts where the one before it ends, and the last one ends at the limit.
tiles : ℕ → List Place → ℕ → Bool
tiles pos [] limit = pos == limit
tiles pos (p ∷ ps) limit = p.start == pos && tiles (pos + p.width) ps limit

tiles-covering :
    (b pos limit : ℕ) (ps : List Place)
    → tiles pos ps limit ≡ true
    → (pos ≤ limit) × (covering b ps ≡ (if leb pos b && ltb b limit then 1 else 0))
unfolding tiles covering
tiles-covering b pos limit [] e = (ground arith, ground arith)
tiles-covering b pos limit (p ∷ ps) e =
    let rest = tiles-covering b (pos + p.width) limit ps (ground arith) in
    (ground (arith, rest.0), ground (arith, rest.0, rest.1))

-- The structs whose bytes are copied from packets, with those that they hold.
abbrev pub wire_headers : List String
wire_headers =
    "struct iphdr" ∷ "struct ipv6hdr" ∷ "struct tcphdr" ∷ "struct udphdr" ∷ "struct icmphdr"
    ∷ "struct icmp6hdr" ∷ "struct icmpv6_echo" ∷ "struct icmpv6_nd_advt" ∷ "struct icmpv6_nd_ra"
    ∷ "struct in6_addr" ∷ []

-- Each bit of the struct belongs to one field, and no bit after it to any.
abbrev pub HasNoGaps : Env → String → Type 0
HasNoGaps env name =
    (r : Record) × (lookup name env.records ≡ some r)
    × ((b : ℕ) → covering b (places_of r) ≡ (if ltb b (size_in_bits r) then 1 else 0))

is_tiled : Option Record → Bool
is_tiled none = false
is_tiled (some r) = tiles 0 (places_of r) (size_in_bits r)

is_tiled-covering :
    (o : Option Record)
    → is_tiled o ≡ true
    → (r : Record) × (o ≡ some r)
      × ((b : ℕ) → covering b (places_of r) ≡ (if ltb b (size_in_bits r) then 1 else 0))
unfolding is_tiled
is_tiled-covering none e = cc
is_tiled-covering (some r) e =
    (r, refl, λ b. ground (arith, (tiles-covering b 0 (size_in_bits r) (places_of r) e).1))

all_tiled :
    (arch : Arch)
    → in_program arch
        (λ env. some (every (λ name. is_tiled (lookup name env.records)) wire_headers))
      ≡ some true
unfolding is_tiled tiles places_of size_in_bits in_program program_env declare_parts parts
    arch_declarations arch_macros declare declare_one measure lookup enumerate eval struct_places
    place start_of struct_layout max_align struct_end union_layout union_end
all_tiled x86 = refl
all_tiled arm64 = refl

-- On both targets the structs of protocol headers have no padding: each of their bits belongs to
-- exactly one of their fields, and no field goes beyond them.
pub wire_headers-HasNoGaps :
    (arch : Arch) → (env : Env) × (program_env arch ≡ some env) × All (HasNoGaps env) wire_headers
unfolding in_program
wire_headers-HasNoGaps arch =
    let (env, accepted, checked) = bind-some (program_env arch) _ (all_tiled arch) in
    (
      env,
      accepted,
      every-All (λ name. is_tiled (lookup name env.records)) wire_headers
          (λ name. is_tiled-covering (lookup name env.records)) (some-inj checked),
    )
