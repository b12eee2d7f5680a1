-- ===== src/Ebpf/ReadLaws.antt =====
-- The addresses and sizes that the model of ebpf/c/egressd.c uses are those of the headers.
use egressd.Prelude.{
  ℕ, ◌+◌, ◌*◌, ◌/◌, ◌%◌, ◌<◌, ◌≡◌, refl, ap, ◌∙◌, Option, none, some, List, [], ◌∷◌, arith, String,
  nat_comparable, string_comparable,
}
use egressd.Ebpf.Layout.{
  FieldPath, struct_paths, member_paths, union_paths, start_of, union_layout, max_align,
  struct_layout, struct_end, union_end, packed_layout,
}
use egressd.Ebpf.Declare.{Env, declare, declare_one, measure, enumerate, eval, ◌>>=◌}
use egressd.Ebpf.Program.{
  Arch, x86, arm64, arch_declarations, arch_macros, parts, declare_parts, program_env,
}
use egressd.Prelude.Table.{lookup}
use egressd.Ebpf.Reads.{
  same_path, find_path, expand, locate, size_of_type, le_bytes, read_bits, read,
}
use egressd.Ebpf.Egress.{Memory, ntohs_at, iphdr_size, udphdr_size, iphdrs_size, nethdrs_size}

-- With the declarations that egressd.c is compiled with.
unfoldable pub in_program {ℓ} : {A : Type ℓ} → Arch → (Env → Option A) → Option A
in_program arch f = program_env arch >>= f

abbrev pub spot : List String → ℕ → ℕ → Option FieldPath
spot path start width = some (record { path = path; start = start; width = width })

pub in_program-read :
    (arch : Arch) (type : String) (path found : List String) (start width : ℕ) (mem : Memory)
    → in_program arch (λ env. locate env type path) ≡ spot found start width
    → in_program arch (λ env. read env type path mem) ≡ some (read_bits mem start width)
unfolding in_program read
in_program-read arch type path found start width mem e = go (program_env arch) e
  where
    go :
        (o : Option Env)
        → (o >>= λ env. locate env type path) ≡ spot found start width
        → (o >>= λ env. locate env type path >>= λ p. some (read_bits mem p.start p.width))
          ≡ some (read_bits mem start width)
    go none e = cc
    go (some env) e = rw e refl

-- Where a field is, on a target.
abbrev pub IsAt : Arch → String → List String → List String → ℕ → ℕ → Type 0
IsAt arch type path found start width =
    in_program arch (λ env. locate env type path) ≡ spot found start width

-- What a field holds, on a target.
abbrev pub Reads : Arch → String → List String → Memory → ℕ → Type 0
Reads arch type path mem n = in_program arch (λ env. read env type path mem) ≡ some n

abbrev pub HasSize : Arch → String → ℕ → Type 0
HasSize arch type n = in_program arch (λ env. size_of_type env type) ≡ some n

abbrev pub ip_field : String → List String
ip_field name = "iphdrs" ∷ "iphdr" ∷ name ∷ []

abbrev pub udp_field : String → List String
udp_field name = "protohdrs" ∷ "udphdr" ∷ name ∷ []

nethdrs_places :
    (arch : Arch)
    → IsAt arch "nethdrs" (ip_field "version") (ip_field "version") 4 4
      × IsAt arch "nethdrs" (ip_field "ihl") (ip_field "ihl") 0 4
      × IsAt arch "nethdrs" (ip_field "protocol") (ip_field "protocol") 72 8
      × IsAt arch "nethdrs" (udp_field "source") (udp_field "source") 320 16
      × IsAt arch "nethdrs" (udp_field "dest") (udp_field "dest") 336 16
unfolding in_program program_env declare_parts parts arch_declarations arch_macros declare
    declare_one measure lookup enumerate eval locate expand find_path same_path struct_paths
    member_paths union_paths start_of union_layout max_align struct_layout union_end struct_end
nethdrs_places x86 = (refl, refl, refl, refl, refl)
nethdrs_places arm64 = (refl, refl, refl, refl, refl)

abbrev pub HaveSizes : Arch → Type 0
HaveSizes arch =
    HasSize arch "struct iphdr" iphdr_size
    × HasSize arch "struct udphdr" udphdr_size
    × HasSize arch "iphdrs" iphdrs_size
    × HasSize arch "nethdrs" nethdrs_size
    × HasSize arch "net_event_context_t" 4

pub nethdrs_sizes : (arch : Arch) → HaveSizes arch
unfolding in_program program_env declare_parts parts arch_declarations arch_macros declare
    declare_one measure lookup enumerate eval size_of_type struct_layout max_align struct_end
    start_of union_layout union_end packed_layout
nethdrs_sizes x86 = (refl, refl, refl, refl, refl)
nethdrs_sizes arm64 = (refl, refl, refl, refl, refl)

-- The value of a field of two bytes, as `bpf_ntohs` turns it around.
abbrev pub ReadsPort : Arch → String → Memory → ℕ → Type 0
ReadsPort arch name mem port =
    (x : ℕ) × Reads arch "nethdrs" (udp_field name) mem x × (port ≡ x % 256 * 256 + x / 256 % 256)

-- On both targets and whatever bytes `nethdrs` holds, the model of the program takes the fields
-- `version`, `ihl` and `protocol` of the IP header and the ports of the UDP header from where the
-- headers put them, bit fields and byte order included, and the sizes that it loads and the size of
-- `nethdrs` are those of the headers.
pub read-nethdrs :
    (arch : Arch) (mem : Memory)
    → ((i : ℕ) → mem i < 256)
    → Reads arch "nethdrs" (ip_field "version") mem (mem 0 / 16)
      × Reads arch "nethdrs" (ip_field "ihl") mem (mem 0 % 16)
      × Reads arch "nethdrs" (ip_field "protocol") mem (mem 9)
      × ReadsPort arch "source" mem (ntohs_at mem iphdrs_size)
      × ReadsPort arch "dest" mem (ntohs_at mem (iphdrs_size + 2))
      × HaveSizes arch
unfolding read_bits le_bytes ntohs_at
read-nethdrs arch mem byte =
    let (version, ihl, protocol, source, dest) = nethdrs_places arch in
    (
      in_program-read arch "nethdrs" _ _ 4 4 mem version ∙ ap some (omega (arith, byte 0)),
      in_program-read arch "nethdrs" _ _ 0 4 mem ihl ∙ ap some (omega (arith, byte 0)),
      in_program-read arch "nethdrs" _ _ 72 8 mem protocol ∙ ap some (omega (arith, byte 9)),
      (_, in_program-read arch "nethdrs" _ _ 320 16 mem source, omega (arith, byte 40, byte 41)),
      (_, in_program-read arch "nethdrs" _ _ 336 16 mem dest, omega (arith, byte 42, byte 43)),
      nethdrs_sizes arch,
    )
