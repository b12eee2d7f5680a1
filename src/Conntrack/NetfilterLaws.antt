-- ===== src/Conntrack/NetfilterLaws.antt =====
-- Which record a session of conntrack/nf_conntrack.go stands for, and which sessions stand for one.
use egressd.Prelude.{
  ℕ, ◌+◌, ◌*◌, ◌≡◌, refl, Bool, true, false, not, ◌&&◌, Option, none, some, List, arith,
  nat_comparable, string_comparable,
}
use egressd.Net.{NetAddr, IpPort, same_port}
use egressd.Conntrack.{Entry}
use egressd.Conntrack.Netfilter.{
  ProtoTuple, IpTuple, Con, Result, ok, nil_dereference, deref, expiry, is_skipped, remap,
  session_entry, ◌>>=◌ as result_bind,
}

abbrev is_set {ℓ} : {A : Type ℓ} → Option A → Bool
is_set none = false
is_set (some a) = true

abbrev has_ports : Option ProtoTuple → Bool
has_ports none = false
has_ports (some p) = is_set p.src_port && is_set p.dst_port

abbrev has_source : Option IpTuple → Bool
has_source none = false
has_source (some o) = is_set o.src && has_ports o.proto

abbrev has_target : Option IpTuple → Bool
has_target none = false
has_target (some r) = is_set r.dst && has_ports r.proto

-- The session has an origin with a source and both ports, a reply with a destination and both ports,
-- and both counters.
pub passes : Con → Bool
passes sess =
    has_source sess.origin
    && has_target sess.reply
    && is_set sess.counter_origin
    && is_set sess.counter_reply

pub is_skipped_lem : (sess : Con) → is_skipped sess ≡ not (passes sess)
unfolding is_skipped passes
is_skipped_lem sess = ground arith

infixl 5 ◌>>=◌
abbrev ◌>>=◌ {ℓ κ} : {A : Type ℓ} {B : Type κ} → Option A → (A → Option B) → Option B
none >>= f = none
some a >>= f = f a

abbrev pub read {ℓ} : {A : Type ℓ} → Option A → Result A
read none = nil_dereference
read (some a) = ok a

read-bind {ℓ κ} :
    {A : Type ℓ} {B : Type κ} (o : Option A) {f : A → Result B} (g : A → Option B)
    → ((a : A) → f a ≡ read (g a))
    → result_bind (deref o) f ≡ read (o >>= g)
read-bind none g h = refl
read-bind (some a) g h = h a

module _ (net : NetAddr) (ip_from_std_ip : List ℕ → net.IP) (now : ℕ) where
  open net use {IP}

  -- The record of a session: from the source of its origin to the source of its replies, with the
  -- counters of both; there is none where the session lacks one of these.
  pub record_of : Con → Option (Entry IP)
  record_of sess = do
    origin ← sess.origin
    sent ← sess.counter_origin
    reply ← sess.reply
    received ← sess.counter_reply
    proto ← origin.proto
    src ← origin.src
    src_port ← proto.src_port
    _ ← origin.dst
    _ ← proto.dst_port
    tx_bytes ← sent.bytes
    tx_packets ← sent.packets
    rx_bytes ← received.bytes
    rx_packets ← received.packets
    number ← proto.number
    reply_proto ← reply.proto
    reply_src ← reply.src
    reply_port ← reply_proto.src_port
    some (record {
      src = record { ip = ip_from_std_ip src; port = src_port };
      dst = record { ip = ip_from_std_ip reply_src; port = reply_port };
      tx_bytes = tx_bytes;
      tx_packets = tx_packets;
      rx_bytes = rx_bytes;
      rx_packets = rx_packets;
      lifetime = elim sess.timeout [ none ↦ 0 | some timeout ↦ now + 1000000000 * timeout ];
      proto = number;
    })

  remap_lem : (a b : IpPort IP) → remap net ip_from_std_ip now a b ≡ b
  unfolding remap same_port
  remap_lem a b = ground (arith, net.ip_eq.same_iff a.ip b.ip)

  lifetime_lem :
      (timeout : Option ℕ)
      → expiry now timeout ≡ elim timeout [ none ↦ 0 | some t ↦ now + 1000000000 * t ]
  lifetime_lem none = refl
  lifetime_lem (some t) = refl

  -- Reading a session for its record panics exactly where it stands for none.
  pub session_entry-record_of :
      (sess : Con) → session_entry net ip_from_std_ip now sess ≡ read (record_of sess)
  unfolding session_entry record_of
  session_entry-record_of sess = read-bind sess.origin _ λ origin.
      read-bind sess.counter_origin _ λ sent. read-bind sess.reply _ λ reply.
        read-bind sess.counter_reply _ λ received. read-bind origin.proto _ λ proto.
          read-bind origin.src _ λ src. read-bind proto.src_port _ λ src_port.
            read-bind origin.dst _ λ dst. read-bind proto.dst_port _ λ dst_port.
              read-bind sent.bytes _ λ tx_bytes. read-bind sent.packets _ λ tx_packets.
                read-bind received.bytes _ λ rx_bytes. read-bind received.packets _ λ rx_packets.
                  read-bind proto.number _ λ number. read-bind reply.proto _ λ reply_proto.
                    read-bind reply.src _ λ reply_src.
                      read-bind reply_proto.src_port _
                        λ reply_port. rw (remap_lem, lifetime_lem) refl
