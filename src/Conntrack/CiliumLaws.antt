-- ===== src/Conntrack/CiliumLaws.antt =====
-- Which records `listRecords` of conntrack/cilium_conntrack_linux.go returns.
use egressd.Prelude.{appends}
use mathlib.Core.List.{append_assoc}
use egressd.Prelude.{
  ℕ, ◌+◌, ◌-◌, ◌*◌, ◌%◌, ◌≡◌, refl, sym, ap, ◌∙◌, inl, inr, not, none, some, List, [], ◌∷◌, ◌++◌,
  map, arith, ltb, if◌then◌else◌, ◌==◌, nat_comparable, string_comparable, Bool-cases, Option-cases,
  keep,
}
use egressd.Net.{NetAddr}
use egressd.Conntrack.{Entry, EntriesFilter}
use egressd.Conntrack.Cilium.{
  CtKey, CtEntry, CtMap, unable_to_open, collecting, Listed, listed, failed, expires, ct_record,
  callback, dump_with_callback, is_missing, list_maps, list_records,
}

module _ (net : NetAddr) (now : ℕ) (time_diff : ℕ → ℕ) (filter : EntriesFilter net.IP) where
  open net use {IP}

  abbrev pub and_then :
      List (CtKey × CtEntry) → Listed (List (CtKey × CtEntry)) → Listed (List (CtKey × CtEntry))
  and_then kvs (listed more) = listed (kvs ++ more)
  and_then kvs (failed e) = failed e

  -- What the maps hold together, or the failure of the first of them that fails.
  unfoldable pub contents : List CtMap → Listed (List (CtKey × CtEntry))
  contents [] = listed []
  contents (m ∷ maps) =
      let rest = contents maps in
      if is_missing net now time_diff filter m.open_result
      then failed unable_to_open
      else elim m.dump [ none ↦ failed collecting | some kvs ↦ and_then kvs rest ]

  -- The time so many seconds away, as an int64 of nanoseconds has it: the product is taken modulo
  -- 2 ^ 64, and from 2 ^ 63 on it is negative.
  abbrev pub lifetime_of : ℕ → ℕ
  lifetime_of seconds =
      let nanoseconds = seconds * 1000000000 % 18446744073709551616 in
      if ltb nanoseconds 9223372036854775808
      then now + nanoseconds
      else now - (18446744073709551616 - nanoseconds)

  -- The record of a key and its value: from the key's destination address at its source port to its
  -- source address at its destination port, with the counters of the value.
  abbrev pub record_of : CtKey × CtEntry → Entry IP
  record_of (k, val) = record {
    src = record { ip = net.ipv4 k.dest_addr; port = k.source_port };
    dst = record { ip = net.ipv4 k.source_addr; port = k.dest_port };
    tx_bytes = val.tx_bytes;
    tx_packets = val.tx_packets;
    rx_bytes = val.rx_bytes;
    rx_packets = val.rx_packets;
    lifetime = lifetime_of (time_diff val.lifetime);
    proto = k.next_header % 256;
  }

  expires_lem : (seconds : ℕ) → expires now seconds ≡ lifetime_of seconds
  unfolding expires
  expires_lem seconds = ground arith

  ct_record-record_of :
      (kv : CtKey × CtEntry) → ct_record net now time_diff filter kv ≡ record_of kv
  unfolding ct_record
  ct_record-record_of (k, val) = rw (expires_lem (time_diff val.lifetime)) refl

  -- The records of the keys that have a protocol, by the filter.
  abbrev pub kept : List (CtKey × CtEntry) → List (Entry IP)
  kept kvs =
      keep filter (map record_of (keep (λ (kv : CtKey × CtEntry). not (kv.0.next_header == 0)) kvs))

  abbrev pub all_kept : List (Entry IP) → Listed (List (CtKey × CtEntry)) → Listed (List (Entry IP))
  all_kept entries (listed kvs) = listed (entries ++ kept kvs)
  all_kept entries (failed e) = failed e

  abbrev dumped : List (Entry IP) → List (CtKey × CtEntry) → List (Entry IP)
  dumped = dump_with_callback net now time_diff filter

  dump_with_callback-kept :
      (kvs : List (CtKey × CtEntry)) (entries : List (Entry IP))
      → dumped entries kvs ≡ entries ++ kept kvs
  unfolding dump_with_callback callback
  dump_with_callback-kept [] entries = simp appends
  dump_with_callback-kept (kv ∷ kvs) entries =
      let r = record_of kv in
      ground (
        arith,
        ct_record-record_of kv,
        dump_with_callback-kept kvs (callback net now time_diff filter entries kv),
        append_assoc entries (r ∷ []) (kept kvs),
      )

  dump_with_callback-append :
      (kvs more : List (CtKey × CtEntry)) (entries : List (Entry IP))
      → dumped entries (kvs ++ more) ≡ dumped (dumped entries kvs) more
  unfolding dump_with_callback
  dump_with_callback-append [] more entries = refl
  dump_with_callback-append (kv ∷ kvs) more entries = dump_with_callback-append kvs more _

  all_kept-and_then :
      (kvs : List (CtKey × CtEntry)) (rest : Listed (List (CtKey × CtEntry)))
      (entries : List (Entry IP))
      → all_kept (dumped entries kvs) rest ≡ all_kept entries (and_then kvs rest)
  all_kept-and_then kvs (failed e) entries = refl
  all_kept-and_then kvs (listed more) entries = ap listed (
      sym (dump_with_callback-kept more (dumped entries kvs))
      ∙ sym (dump_with_callback-append kvs more entries)
      ∙ dump_with_callback-kept (kvs ++ more) entries)

  list_maps-all_kept :
      (maps : List CtMap) (entries : List (Entry IP))
      → list_maps net now time_diff filter maps entries ≡ all_kept entries (contents maps)
  unfolding list_maps contents
  list_maps-all_kept [] entries = ap listed (simp appends)
  list_maps-all_kept (m ∷ maps) entries =
      elim (Bool-cases (is_missing net now time_diff filter m.open_result)) [
        | inl missing ↦ ground arith
        | inr present ↦ elim (Option-cases m.dump) [
          | inl none_ ↦ ground arith
          | inr (kvs, d) ↦ ground (
            arith,
            list_maps-all_kept maps (dumped entries kvs),
            all_kept-and_then kvs (contents maps) entries,
          )
        ]
      ]

  -- Where the kernel's clock can be read, the result is the failure of the first of the maps that
  -- is missing or cannot be dumped, or else the records of all the maps, in order, whose key has a
  -- protocol and which pass the filter. A record goes from the key's destination to its source, but
  -- with the ports as they are, and expires at the time of its lifetime, with the product by the
  -- nanoseconds of a second taken as an int64. A map that cannot be opened for another reason counts
  -- for what its dump gives.
  pub list_records-all_kept :
      (maps : List CtMap)
      → list_records net now (some time_diff) filter maps ≡ all_kept [] (contents maps)
  unfolding list_records
  list_records-all_kept maps = list_maps-all_kept maps []
