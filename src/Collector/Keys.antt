-- ===== src/Collector/Keys.antt =====
-- The map keys of collector/collector.go: which connections, and which groups, share the bytes
-- that are hashed.
use egressd.Prelude.{
  ℕ, ◌^◌, ◌<◌, ◌≡◌, sym, ap, ◌∙◌, ◌↔◌, List, ◌++◌, arith, nat_comparable, string_comparable,
}
use egressd.Net.{NetAddr, Quad}
use egressd.Conntrack.{Entry, IsEntry}
use egressd.Collector.{entry_bytes, group_bytes, quad_bytes, put_uint16}

quad_bytes-injective :
    (p q : Quad) (xs ys : List ℕ) → quad_bytes p ++ xs ≡ quad_bytes q ++ ys → (p ≡ q) × (xs ≡ ys)
quad_bytes-injective p q xs ys h = (ground arith, ground arith)

put_uint16-injective :
    (a b : ℕ) (xs ys : List ℕ)
    → a < 2 ^ 16
    → b < 2 ^ 16
    → put_uint16 a ++ xs ≡ put_uint16 b ++ ys
    → (a ≡ b) × (xs ≡ ys)
put_uint16-injective a b xs ys ha hb h = (ground arith, ground arith)

module _ (net : NetAddr) where
  open net use {IP, as4}

  as4-injective : (a b : IP) → as4 a ≡ as4 b → a ≡ b
  as4-injective a b h = sym (net.ipv4-as4 a) ∙ (ap net.ipv4 h ∙ net.ipv4-as4 b)

  -- Two connections write the same bytes to the hash of the entry key exactly when they have the
  -- same source, destination (address and port) and protocol.
  pub entry_bytes_iff :
      (hash : List ℕ → ℕ) (a b : Entry IP)
      → IsEntry a
      → IsEntry b
      → (entry_bytes net hash a ≡ entry_bytes net hash b)
        ↔ ((a.src ≡ b.src) × (a.dst ≡ b.dst) × (a.proto ≡ b.proto))
  unfolding entry_bytes
  entry_bytes_iff hash a b ha hb = (forth, λ e. ground arith)
    where
      forth :
          entry_bytes net hash a ≡ entry_bytes net hash b
          → (a.src ≡ b.src) × (a.dst ≡ b.dst) × (a.proto ≡ b.proto)
      forth e =
          let (s, e1) = quad_bytes-injective _ _ _ _ e in
          let (sp, e2) =
            put_uint16-injective a.src.port b.src.port _ _ ha.src_port hb.src_port e1 in
          let (d, e3) = quad_bytes-injective _ _ _ _ e2 in
          let (dp, e4) =
            put_uint16-injective a.dst.port b.dst.port _ _ ha.dst_port hb.dst_port e3 in
          let src = as4-injective a.src.ip b.src.ip s in
          let dst = as4-injective a.dst.ip b.dst.ip d in (ground arith, ground arith, ground arith)

  -- Two connections are in the same group, up to collisions of the hash, exactly when they have
  -- the same source address, destination address and protocol: the ports play no part.
  pub group_bytes_iff :
      (hash : List ℕ → ℕ) (a b : Entry IP)
      → (group_bytes net hash a ≡ group_bytes net hash b)
        ↔ ((a.src.ip ≡ b.src.ip) × (a.dst.ip ≡ b.dst.ip) × (a.proto ≡ b.proto))
  unfolding group_bytes
  group_bytes_iff hash a b = (forth, λ e. ground arith)
    where
      forth :
          group_bytes net hash a ≡ group_bytes net hash b
          → (a.src.ip ≡ b.src.ip) × (a.dst.ip ≡ b.dst.ip) × (a.proto ≡ b.proto)
      forth e =
          let (s, e1) = quad_bytes-injective _ _ _ _ e in
          let (d, e2) = quad_bytes-injective _ _ _ _ e1 in
          let src = as4-injective a.src.ip b.src.ip s in
          let dst = as4-injective a.dst.ip b.dst.ip d in (src, dst, ground arith)
