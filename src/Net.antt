-- ===== src/Net.antt =====
-- Addresses: the third-party package inet.af/netaddr as a parameter, with the laws of its
-- documentation that the program relies on, and the program's own conversions between an
-- address and the int32 of the wire format (dns/resolutions.go, exporter/exporter.go).
pub mod Ip32
use egressd.Prelude.{
  nat_comparable, ℕ, ◌+◌, ◌*◌, ◌/◌, ◌%◌, ◌^◌, ◌<◌, ◌≡◌, Bool, Option, String, Comparable, ◌&&◌,
  List, ◌==◌,
}

-- The four bytes of `As4`, the most significant one first.
pub record Quad : Type 0 where
  pub b0 : ℕ
  pub b1 : ℕ
  pub b2 : ℕ
  pub b3 : ℕ

abbrev pub IsQuad : Quad → Type 0
IsQuad q = (q.b0 < 256) × (q.b1 < 256) × (q.b2 < 256) × (q.b3 < 256)

-- `netaddr.IP`, at IPv4 addresses. `from_std_ip` is `FromStdIP`: `none` stands for all that is not an
-- IPv4 address, that is its failure, whose zero address `As4` panics on, and an IPv6 address, on
-- which it panics as well.
pub record NetAddr : Type 1 where
  pub IP : Type 0
  pub ip_eq : Comparable IP
  pub as4 : IP → Quad
  pub ipv4 : Quad → IP
  pub to_string : IP → String
  pub parse_ip : String → Option IP
  pub from_std_ip : List ℕ → Option IP
  pub is_private : IP → Bool
  pub is_loopback : IP → Bool
  pub is_multicast : IP → Bool
  pub is_link_local_unicast : IP → Bool
  pub is_link_local_multicast : IP → Bool
  pub is_interface_local_multicast : IP → Bool
  pub as4-IsQuad : (ip : IP) → IsQuad (as4 ip)
  pub as4-ipv4 : (q : Quad) → IsQuad q → as4 (ipv4 q) ≡ q
  pub ipv4-as4 : (ip : IP) → ipv4 (as4 ip) ≡ ip

-- `netaddr.IPPort`.
pub record IpPort (IP : Type 0) : Type 0 where
  pub ip : IP
  pub port : ℕ

-- An int32 is its bit pattern, a number below 2 ^ 32.
unfoldable pub to_ip_int32 : (net : NetAddr) → net.IP → ℕ
to_ip_int32 net ip = let b = net.as4 ip in b.b0 * 2 ^ 24 + b.b1 * 2 ^ 16 + b.b2 * 2 ^ 8 + b.b3

-- `binary.BigEndian.PutUint32`, and the address of the four bytes.
unfoldable pub ip_from_int32 : (net : NetAddr) → ℕ → net.IP
ip_from_int32 net v =
    net.ipv4
      (record { b0 = v / 2 ^ 24 % 256; b1 = v / 2 ^ 16 % 256; b2 = v / 2 ^ 8 % 256; b3 = v % 256 })

unfoldable pub same_port : (net : NetAddr) → IpPort net.IP → IpPort net.IP → Bool
same_port net a b = net.ip_eq.same a.ip b.ip && a.port == b.port
