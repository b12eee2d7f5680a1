-- ===== src/Net/Ip32.antt =====
-- The conversions between addresses and int32 of dns/resolutions.go and exporter/exporter.go.
use egressd.Prelude.{
  ℕ, ◌+◌, ◌*◌, ◌/◌, ◌%◌, ◌^◌, ◌<◌, ◌≡◌, ap, ◌∙◌, arith, nat_comparable, string_comparable,
}
use egressd.Net.{Quad, IsQuad, NetAddr, to_ip_int32, ip_from_int32}

abbrev split_quad : ℕ → Quad
split_quad v = record {
  b0 = v / 2 ^ 24 % 256;
  b1 = v / 2 ^ 16 % 256;
  b2 = v / 2 ^ 8 % 256;
  b3 = v % 256;
}

abbrev join_quad : Quad → ℕ
join_quad b = b.b0 * 2 ^ 24 + b.b1 * 2 ^ 16 + b.b2 * 2 ^ 8 + b.b3

split-join : (q : Quad) → IsQuad q → split_quad (join_quad q) ≡ q
split-join q h = ground arith

module _ (net : NetAddr) where
  -- An address survives the way through the wire format: the exporter reads back the address
  -- that the collector wrote.
  pub ip_from_int32-to_ip_int32 : (ip : net.IP) → ip_from_int32 net (to_ip_int32 net ip) ≡ ip
  unfolding to_ip_int32 ip_from_int32
  ip_from_int32-to_ip_int32 ip =
      ap net.ipv4 (split-join (net.as4 ip) (net.as4-IsQuad ip)) ∙ net.ipv4-as4 ip

  -- An int32 of the wire format is the number of the address that it stands for.
  pub to_ip_int32-ip_from_int32 : (v : ℕ) → v < 2 ^ 32 → to_ip_int32 net (ip_from_int32 net v) ≡ v
  unfolding to_ip_int32 ip_from_int32
  to_ip_int32-ip_from_int32 v h =
      ap join_quad (net.as4-ipv4 (split_quad v) (omega arith)) ∙ omega arith
