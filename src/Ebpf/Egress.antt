-- ===== src/Ebpf/Egress.antt =====
-- ebpf/c/egressd.c: `cgroup_skb_generic`, the program that looks at each packet that enters the
-- cgroup and reports DNS answers. The kernel's helpers are parameters; the packet headers live in
-- a `nethdrs` of ebpf/c/include/types.h, a memory of 80 bytes. Arithmetic on `u32` stays small.
use Prim.Native.Nat.{bit_or}
use egressd.Prelude.{
  ℕ, ◌+◌, ◌-◌, ◌*◌, ◌/◌, ◌%◌, ◌^◌, Bool, not, ◌&&◌, List, [], ◌∷◌, ltb, leb, if◌then◌else◌, ◌==◌,
  nat_comparable, string_comparable,
}

-- What `bpf_skb_load_bytes_relative` does: it fails or not, and writes `len` bytes.
pub record Load : Type 0 where
  pub failed : Bool
  pub written : ℕ → ℕ

-- `struct __sk_buff`, with the socket pointers (nil or not) in place of the sockets, and the
-- helper that copies bytes of the packet: offset and length, from the network header on.
pub record SkBuff : Type 0 where
  pub family : ℕ
  pub len : ℕ
  pub sk : Bool
  pub fullsock : Bool
  pub load_bytes : ℕ → ℕ → Load

-- One record of the `events` map: the flags, and the payload `net_event_context_t`.
pub record PerfEvent : Type 0 where
  pub flags : ℕ
  pub bytes : ℕ

-- A run ends with a verdict and the events it put out, or writes out of bounds.
pub data Run : Type 0 where
  out_of_bounds : Run
  returns : ℕ → List PerfEvent → Run

abbrev pub pf_inet : ℕ
pf_inet = 2

abbrev pub ipproto_udp : ℕ
ipproto_udp = 17

abbrev pub udp_port_dns : ℕ
udp_port_dns = 53

abbrev pub bpf_f_current_cpu : ℕ
bpf_f_current_cpu = 4294967295

-- `sizeof` of `struct iphdr`, `struct udphdr`, `iphdrs` (its largest member is `struct ipv6hdr`),
-- `protohdrs` (its largest member is `tcp_extra`) and `nethdrs`.
abbrev pub iphdr_size : ℕ
iphdr_size = 20

abbrev pub udphdr_size : ℕ
udphdr_size = 8

abbrev pub iphdrs_size : ℕ
iphdrs_size = 40

abbrev pub nethdrs_size : ℕ
nethdrs_size = iphdrs_size + 40

abbrev pub Memory : Type 0
Memory = ℕ → ℕ

unfoldable pub write_at : ℕ → ℕ → (ℕ → ℕ) → Memory → Memory
write_at dest size written mem i =
    if leb dest i && ltb i (dest + size) then written (i - dest) else mem i

-- A load into `nethdrs` and what follows it.
unfoldable pub load_into : ℕ → ℕ → Load → Memory → (Memory → Run) → Run
load_into dest size load mem next =
    if leb (dest + size) nethdrs_size
    then next (write_at dest size load.written mem)
    else out_of_bounds

abbrev pub pass : Run
pass = returns 1 []

-- `bpf_ntohs` of the two bytes at an address, read on a little-endian CPU and swapped.
unfoldable pub ntohs_at : Memory → ℕ → ℕ
ntohs_at mem i = let x = mem i + 256 * mem (i + 1) in x % 256 * 256 + x / 256 % 256

-- The output of the event. `flags |= (u64) data_size << 32`.
unfoldable pub emit : SkBuff → Run
emit ctx =
    let flags = bit_or bpf_f_current_cpu (ctx.len * 2 ^ 32) in
    returns 1 (record { flags = flags; bytes = ctx.len } ∷ [])

unfoldable pub check_ports : SkBuff → Memory → Run
check_ports ctx mem =
    let src_port = ntohs_at mem iphdrs_size in
    let dst_port = ntohs_at mem (iphdrs_size + 2) in
    if (if ltb src_port dst_port then src_port else dst_port) == udp_port_dns
    then emit ctx
    else pass

-- The UDP header, at `prev_hdr_size` in the packet.
unfoldable pub load_l4 : SkBuff → ℕ → Memory → Run
load_l4 ctx prev_hdr_size mem =
    if not (mem 9 == ipproto_udp)
    then pass
    else let l4 = ctx.load_bytes prev_hdr_size udphdr_size in
      load_into iphdrs_size udphdr_size l4 mem
        (λ mem'. if l4.failed then pass else check_ports ctx mem')

-- The header again, where it has options; this load's result is not looked at.
unfoldable pub reload_l3 : SkBuff → Memory → Run
reload_l3 ctx mem =
    let ihl = mem 0 % 16 in
    if not (mem 0 / 16 == 4)
    then pass
    else if ltb 5 ihl
    then load_into 0 (ihl * 4) (ctx.load_bytes 0 (ihl * 4)) mem (load_l4 ctx (ihl * 4))
    else load_l4 ctx iphdr_size mem

unfoldable pub cgroup_skb_generic : SkBuff → Run
cgroup_skb_generic ctx =
    if not (ctx.family == pf_inet)
    then pass
    else if not ctx.sk
    then pass
    else if not ctx.fullsock
    then pass
    else let l3 = ctx.load_bytes 0 iphdr_size in
      load_into 0 iphdr_size l3 (λ i. 0) (λ mem. if l3.failed then pass else reload_l3 ctx mem)

unfoldable pub cgroup_ingress : SkBuff → Run
cgroup_ingress skb = cgroup_skb_generic skb

-- An `int`, as its bit pattern; `bpf_get_current_pid_tgid` has the process in its upper half.
unfoldable pub get_pid : ℕ → ℕ
get_pid pid_tgid = pid_tgid / 2 ^ 32 % 2 ^ 32
