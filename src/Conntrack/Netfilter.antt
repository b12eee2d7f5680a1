-- ===== src/Conntrack/Netfilter.antt =====
-- conntrack/nf_conntrack.go: `netfilterClient.ListEntries`. The session types are those of
-- github.com/florianl/go-conntrack, whose fields are pointers: `none` is nil. Reading through a
-- nil pointer is a panic.
use egressd.Prelude.{
  ℕ, ◌+◌, ◌*◌, Bool, true, false, not, ◌||◌, Option, none, some, List, [], ◌∷◌, ◌++◌, if◌then◌else◌,
  nat_comparable, string_comparable,
}
use egressd.Net.{NetAddr, IpPort, same_port}
use egressd.Conntrack.{Entry, EntriesFilter}

pub record ProtoTuple : Type 0 where
  pub number : Option ℕ
  pub src_port : Option ℕ
  pub dst_port : Option ℕ

-- The addresses are `net.IP`, that is bytes.
pub record IpTuple : Type 0 where
  pub src : Option (List ℕ)
  pub dst : Option (List ℕ)
  pub proto : Option ProtoTuple

pub record TrafficCounter : Type 0 where
  pub packets : Option ℕ
  pub bytes : Option ℕ

pub record Con : Type 0 where
  pub origin : Option IpTuple
  pub reply : Option IpTuple
  pub counter_origin : Option TrafficCounter
  pub counter_reply : Option TrafficCounter
  pub timeout : Option ℕ

pub data Result {ℓ} (A : Type ℓ) : Type ℓ where
  ok : A → Result A
  dump_failed : Result A
  nil_dereference : Result A

infixl 5 ◌>>=◌
abbrev pub ◌>>=◌ {ℓ κ} : {A : Type ℓ} {B : Type κ} → Result A → (A → Result B) → Result B
ok a >>= f = f a
dump_failed >>= f = dump_failed
nil_dereference >>= f = nil_dereference

abbrev pub deref {ℓ} : {A : Type ℓ} → Option A → Result A
deref none = nil_dereference
deref (some a) = ok a

abbrev pub is_nil {ℓ} : {A : Type ℓ} → Option A → Bool
is_nil none = true
is_nil (some a) = false

-- `sess.Origin.Proto == nil || ….SrcPort == nil || ….DstPort == nil`.
abbrev lacks_ports : Option ProtoTuple → Bool
lacks_ports none = true
lacks_ports (some p) = is_nil p.src_port || is_nil p.dst_port

abbrev lacks_origin : Option IpTuple → Bool
lacks_origin none = true
lacks_origin (some o) = is_nil o.src || lacks_ports o.proto

abbrev lacks_reply : Option IpTuple → Bool
lacks_reply none = true
lacks_reply (some r) = is_nil r.dst || lacks_ports r.proto

-- The test by which the loop skips a session.
unfoldable pub is_skipped : Con → Bool
is_skipped sess =
    lacks_origin sess.origin
    || lacks_reply sess.reply
    || is_nil sess.counter_origin
    || is_nil sess.counter_reply

-- `netaddr.IPPortFrom`.
abbrev pub ip_port : {IP : Type 0} → IP → ℕ → IpPort IP
ip_port ip port = record { ip = ip; port = port }

-- `now.Add(time.Second * timeout)`, in nanoseconds; the field stays unset where there is no timeout.
abbrev pub expiry : ℕ → Option ℕ → ℕ
expiry now none = 0
expiry now (some timeout) = now + 1000000000 * timeout

-- `ip_from_std_ip` is `ipFromStdIP`, which drops whether `netaddr.FromStdIP` succeeds. The dump asks
-- for IPv4 alone, so that its result is an address of `net`; what it gives for other bytes is left
-- open.
module _ (net : NetAddr) (ip_from_std_ip : List ℕ → net.IP) (now : ℕ) where
  open net use {IP}

  -- `if entry.Dst != replySrc { entry.Dst = replySrc }`.
  unfoldable pub remap : IpPort IP → IpPort IP → IpPort IP
  remap dst reply_src = if not (same_port net dst reply_src) then reply_src else dst

  -- The first record of a session, before and after the destination is set to the reply's source.
  unfoldable pub session_entry : Con → Result (Entry IP)
  session_entry sess = do
    origin ← deref sess.origin
    origin_counter ← deref sess.counter_origin
    reply ← deref sess.reply
    reply_counter ← deref sess.counter_reply
    origin_proto ← deref origin.proto
    src ← deref origin.src
    src_port ← deref origin_proto.src_port
    dst ← deref origin.dst
    dst_port ← deref origin_proto.dst_port
    tx_bytes ← deref origin_counter.bytes
    tx_packets ← deref origin_counter.packets
    rx_bytes ← deref reply_counter.bytes
    rx_packets ← deref reply_counter.packets
    number ← deref origin_proto.number
    reply_proto ← deref reply.proto
    reply_ip ← deref reply.src
    reply_port ← deref reply_proto.src_port
    ok (record {
      src = ip_port (ip_from_std_ip src) src_port;
      dst =
          remap (ip_port (ip_from_std_ip dst) dst_port)
            (ip_port (ip_from_std_ip reply_ip) reply_port);
      tx_bytes = tx_bytes;
      tx_packets = tx_packets;
      rx_bytes = rx_bytes;
      rx_packets = rx_packets;
      lifetime = expiry now sess.timeout;
      proto = number;
    })

  -- The second record, the same flow seen from its destination.
  unfoldable pub mirror : Entry IP → Entry IP
  mirror e = record {
    src = e.dst;
    dst = e.src;
    tx_bytes = e.rx_bytes;
    tx_packets = e.rx_packets;
    rx_bytes = e.tx_bytes;
    rx_packets = e.tx_packets;
    lifetime = e.lifetime;
    proto = e.proto;
  }

  unfoldable pub list_sessions :
      EntriesFilter IP → List Con → List (Entry IP) → Result (List (Entry IP))
  unfolding mirror
  list_sessions filter [] res = ok res
  list_sessions filter (sess ∷ sessions) res = elim (is_skipped sess) [
    | true ↦ list_sessions filter sessions res
    | false ↦ session_entry sess >>= λ entry.
        let res1 = if filter entry then res ++ entry ∷ [] else res in
        let entry2 = mirror entry in
        list_sessions filter sessions (if filter entry2 then res1 ++ entry2 ∷ [] else res1)
  ]

  -- `none` is an error of the dump.
  unfoldable pub list_entries : Option (List Con) → EntriesFilter IP → Result (List (Entry IP))
  list_entries none filter = dump_failed
  list_entries (some sessions) filter = list_sessions filter sessions []
