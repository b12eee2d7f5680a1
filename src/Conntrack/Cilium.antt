-- ===== src/Conntrack/Cilium.antt =====
-- `listRecords` of conntrack/cilium_conntrack_linux.go and `kernelTimeDiffSecondsFunc` of
-- conntrack/time.go. The maps and their keys are those of github.com/cilium/cilium, with `none` for
-- an error.
use egressd.Prelude.{
  ℕ, ◌+◌, ◌-◌, ◌*◌, ◌/◌, ◌%◌, ◌^◌, Bool, true, false, Option, none, some, List, [], ◌∷◌, ◌++◌, leb,
  if◌then◌else◌, ◌==◌, nat_comparable, string_comparable,
}
use egressd.Net.{NetAddr, Quad}
use egressd.Conntrack.{Entry, EntriesFilter}
use egressd.Conntrack.Netfilter.{ip_port}

pub data ClockSource : Type 0 where
  ktime jiffies other_source : ClockSource

-- An int64 is its bit pattern; `wrap64` is what an operation leaves of a result.
abbrev pub wrap64 : ℕ → ℕ
wrap64 x = x % 2 ^ 64

abbrev pub is_negative : ℕ → Bool
is_negative x = leb (2 ^ 63) x

unfoldable pub difference : ℕ → ℕ → ℕ
difference t now = wrap64 (t + (2 ^ 64 - wrap64 now))

-- `diff << 8` and the quotient by `hertz`, which truncates towards zero. `hertz` is not 0.
unfoldable pub jiffies_seconds : ℕ → ℕ → ℕ
jiffies_seconds hertz diff =
    let shifted = wrap64 (diff * 256) in
    if is_negative shifted then wrap64 (2 ^ 64 - (2 ^ 64 - shifted) / hertz) else shifted / hertz

-- The two clocks are what `getMtime` and `probes.Jiffies` answer.
unfoldable pub kernel_time_diff_seconds_func :
    (hertz : ℕ) (mtime jiffies_now : Option ℕ) → ClockSource → Option (ℕ → ℕ)
kernel_time_diff_seconds_func hertz mtime jiffies_now ktime = elim mtime [
  | none ↦ none
  | some now ↦ some (λ t. difference t (now / 1000000000))
]
kernel_time_diff_seconds_func hertz mtime jiffies_now jiffies = elim jiffies_now [
  | none ↦ none
  | some now ↦ some (λ t. jiffies_seconds hertz (difference t now))
]
kernel_time_diff_seconds_func hertz mtime jiffies_now other_source = none

-- `ctmap.CtKey4Global` in host order, and `ctmap.CtEntry`.
pub record CtKey : Type 0 where
  pub next_header : ℕ
  pub source_addr : Quad
  pub dest_addr : Quad
  pub source_port : ℕ
  pub dest_port : ℕ

pub record CtEntry : Type 0 where
  pub tx_bytes : ℕ
  pub tx_packets : ℕ
  pub rx_bytes : ℕ
  pub rx_packets : ℕ
  pub lifetime : ℕ

-- What opening a map comes to, its path included.
pub data Opened : Type 0 where
  opened not_exist other_failure : Opened

pub record CtMap : Type 0 where
  pub open_result : Opened
  pub dump : Option (List (CtKey × CtEntry))

pub data ListError : Type 0 where
  time_diff_failed unable_to_open collecting : ListError

pub data Listed (A : Type 0) : Type 0 where
  listed : A → Listed A
  failed : ListError → Listed A

-- `now.Add(time.Duration(expireSeconds) * time.Second)`: the product wraps, and a negative duration
-- leads back. Times count from the zero time of Go, so that none comes before it here.
unfoldable pub expires : ℕ → ℕ → ℕ
expires now expire_seconds =
    let duration = wrap64 (expire_seconds * 1000000000) in
    if is_negative duration then now - (2 ^ 64 - duration) else now + duration

module _ (net : NetAddr) (now : ℕ) (time_diff : ℕ → ℕ) (filter : EntriesFilter net.IP) where
  open net use {IP}

  -- The addresses are swapped on purpose, and the ports are not.
  unfoldable pub ct_record : CtKey × CtEntry → Entry IP
  ct_record (k, val) = record {
    src = ip_port (net.ipv4 k.dest_addr) k.source_port;
    dst = ip_port (net.ipv4 k.source_addr) k.dest_port;
    tx_bytes = val.tx_bytes;
    tx_packets = val.tx_packets;
    rx_bytes = val.rx_bytes;
    rx_packets = val.rx_packets;
    lifetime = expires now (time_diff val.lifetime);
    proto = k.next_header % 256;
  }

  -- The callback of a dump.
  unfoldable pub callback : List (Entry IP) → CtKey × CtEntry → List (Entry IP)
  callback entries kv =
      if kv.0.next_header == 0
      then entries
      else if filter (ct_record kv)
      then entries ++ ct_record kv ∷ []
      else entries

  unfoldable pub dump_with_callback : List (Entry IP) → List (CtKey × CtEntry) → List (Entry IP)
  dump_with_callback entries [] = entries
  dump_with_callback entries (kv ∷ kvs) = dump_with_callback (callback entries kv) kvs

  abbrev pub is_missing : Opened → Bool
  is_missing not_exist = true
  is_missing opened = false
  is_missing other_failure = false

  -- The loop over the maps. Only a map that does not exist ends it before its dump.
  unfoldable pub list_maps : List CtMap → List (Entry IP) → Listed (List (Entry IP))
  list_maps [] entries = listed entries
  list_maps (m ∷ maps) entries =
      if is_missing m.open_result then failed unable_to_open else elim m.dump [
        | none ↦ failed collecting
        | some kvs ↦ list_maps maps (dump_with_callback entries kvs)
      ]

unfoldable pub list_records :
    (net : NetAddr) (now : ℕ)
    → Option (ℕ → ℕ)
    → EntriesFilter net.IP
    → List CtMap
    → Listed (List (Entry net.IP))
list_records net now none filter maps = failed time_diff_failed
list_records net now (some time_diff) filter maps = list_maps net now time_diff filter maps []
