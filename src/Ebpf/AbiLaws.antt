-- ===== src/Ebpf/AbiLaws.antt =====
-- The types of ebpf/c/include that the kernel and the network lay out for the program.
use egressd.Prelude.{
  ℕ, ◌*◌, ◌≡◌, Bool, false, ◌&&◌, Option, none, some, List, [], ◌∷◌, String, ◌==◌, nat_comparable,
  string_comparable, All,
}
use egressd.Prelude.{every}
use egressd.Ebpf.Layout.{FieldPath}
use egressd.Ebpf.Declare.{Env}
use egressd.Ebpf.Reads.{locate, size_of_type}

-- Where an interface puts a field, in bytes.
pub record FieldAt : Type 0 where
  pub path : List String
  pub offset : ℕ
  pub size : ℕ

pub record Interface : Type 0 where
  pub type : String
  pub size : ℕ
  pub fields : List FieldAt

abbrev at : String → ℕ → ℕ → FieldAt
at name offset size = record { path = name ∷ []; offset = offset; size = size }

-- `struct __sk_buff` of include/uapi/linux/bpf.h, the context of the program.
abbrev sk_buff : Interface
sk_buff = record {
  type = "struct __sk_buff";
  size = 184;
  fields =
      at "len" 0 4
      ∷ at "pkt_type" 4 4
      ∷ at "mark" 8 4
      ∷ at "queue_mapping" 12 4
      ∷ at "protocol" 16 4
      ∷ at "vlan_present" 20 4
      ∷ at "vlan_tci" 24 4
      ∷ at "vlan_proto" 28 4
      ∷ at "priority" 32 4
      ∷ at "ingress_ifindex" 36 4
      ∷ at "ifindex" 40 4
      ∷ at "tc_index" 44 4
      ∷ at "cb" 48 20
      ∷ at "hash" 68 4
      ∷ at "tc_classid" 72 4
      ∷ at "data" 76 4
      ∷ at "data_end" 80 4
      ∷ at "napi_id" 84 4
      ∷ at "family" 88 4
      ∷ at "remote_ip4" 92 4
      ∷ at "local_ip4" 96 4
      ∷ at "remote_ip6" 100 16
      ∷ at "local_ip6" 116 16
      ∷ at "remote_port" 132 4
      ∷ at "local_port" 136 4
      ∷ at "data_meta" 140 4
      ∷ at "flow_keys" 144 8
      ∷ at "tstamp" 152 8
      ∷ at "wire_len" 160 4
      ∷ at "gso_segs" 164 4
      ∷ at "sk" 168 8
      ∷ at "gso_size" 176 4
      ∷ [];
}

-- The frame of Ethernet, and the headers of RFC 791, RFC 8200, RFC 768, RFC 9293 and RFC 792.
abbrev ethhdr : Interface
ethhdr = record {
  type = "struct ethhdr";
  size = 14;
  fields = at "h_dest" 0 6 ∷ at "h_source" 6 6 ∷ at "h_proto" 12 2 ∷ [];
}

abbrev iphdr : Interface
iphdr = record {
  type = "struct iphdr";
  size = 20;
  fields =
      at "tos" 1 1
      ∷ at "tot_len" 2 2
      ∷ at "id" 4 2
      ∷ at "frag_off" 6 2
      ∷ at "ttl" 8 1
      ∷ at "protocol" 9 1
      ∷ at "check" 10 2
      ∷ at "saddr" 12 4
      ∷ at "daddr" 16 4
      ∷ [];
}

abbrev ipv6hdr : Interface
ipv6hdr = record {
  type = "struct ipv6hdr";
  size = 40;
  fields =
      at "flow_lbl" 1 3
      ∷ at "payload_len" 4 2
      ∷ at "nexthdr" 6 1
      ∷ at "hop_limit" 7 1
      ∷ at "saddr" 8 16
      ∷ at "daddr" 24 16
      ∷ [];
}

abbrev icmphdr : Interface
icmphdr = record {
  type = "struct icmphdr";
  size = 8;
  fields = at "type" 0 1 ∷ at "code" 1 1 ∷ at "checksum" 2 2 ∷ at "un" 4 4 ∷ [];
}

-- The addresses of sockets, of include/uapi/linux/in.h, in6.h and un.h, and `struct __kernel_timespec`
-- of time_types.h.
abbrev sockaddr_in : Interface
sockaddr_in = record {
  type = "struct sockaddr_in";
  size = 16;
  fields = at "sin_family" 0 2 ∷ at "sin_port" 2 2 ∷ at "sin_addr" 4 4 ∷ at "__pad" 8 8 ∷ [];
}

abbrev sockaddr_in6 : Interface
sockaddr_in6 = record {
  type = "struct sockaddr_in6";
  size = 28;
  fields =
      at "sin6_family" 0 2
      ∷ at "sin6_port" 2 2
      ∷ at "sin6_flowinfo" 4 4
      ∷ at "sin6_addr" 8 16
      ∷ at "sin6_scope_id" 24 4
      ∷ [];
}

abbrev sockaddr_un : Interface
sockaddr_un = record {
  type = "struct sockaddr_un";
  size = 110;
  fields = at "sun_family" 0 2 ∷ at "sun_path" 2 108 ∷ [];
}

abbrev kernel_timespec : Interface
kernel_timespec = record {
  type = "struct __kernel_timespec";
  size = 16;
  fields = at "tv_sec" 0 8 ∷ at "tv_nsec" 8 8 ∷ [];
}

abbrev udphdr : Interface
udphdr = record {
  type = "struct udphdr";
  size = 8;
  fields = at "source" 0 2 ∷ at "dest" 2 2 ∷ at "len" 4 2 ∷ at "check" 6 2 ∷ [];
}

abbrev tcphdr : Interface
tcphdr = record {
  type = "struct tcphdr";
  size = 20;
  fields =
      at "source" 0 2
      ∷ at "dest" 2 2
      ∷ at "seq" 4 4
      ∷ at "ack_seq" 8 4
      ∷ at "window" 14 2
      ∷ at "check" 16 2
      ∷ at "urg_ptr" 18 2
      ∷ [];
}

abbrev pub interfaces : List Interface
interfaces =
    sk_buff ∷ ethhdr ∷ iphdr ∷ ipv6hdr ∷ udphdr ∷ tcphdr ∷ icmphdr ∷ sockaddr_in ∷ sockaddr_in6
    ∷ sockaddr_un ∷ kernel_timespec ∷ []

-- The type has the size of the interface, and each field lies where the interface puts it.
abbrev pub Follows : Env → Interface → Type 0
Follows env i =
    (size_of_type env i.type ≡ some i.size)
    × All
        (λ (f : FieldAt).
          (p : FieldPath) × (locate env i.type f.path ≡ some p)
          × (p.start ≡ 8 * f.offset)
          × (p.width ≡ 8 * f.size))
        i.fields

is_at : Option FieldPath → FieldAt → Bool
is_at none f = false
is_at (some p) f = p.start == 8 * f.offset && p.width == 8 * f.size

has_size : Option ℕ → ℕ → Bool
has_size none n = false
has_size (some m) n = m == n

follows : Env → Interface → Bool
follows env i =
    has_size (size_of_type env i.type) i.size
    && every (λ (f : FieldAt). is_at (locate env i.type f.path) f) i.fields
