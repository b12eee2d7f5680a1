-- ===== src/Tests/Conntrack.antt =====
-- The theorems on the conntrack clients at concrete sessions.
use egressd.Prelude.{
  ℕ, ◌+◌, ◌-◌, ◌*◌, ◌/◌, ◌≤◌, ◌<◌, ◌≡◌, refl, ◌≢◌, ◌⊎◌, true, none, some, List, [], ◌∷◌, arith, ltb,
  nat_comparable, string_comparable, any, keep, All,
}
use egressd.Conntrack.{Entry, all_entries}
use egressd.Conntrack.Netfilter.{
  ProtoTuple, TrafficCounter, Con, ok, nil_dereference, is_skipped, session_entry, list_entries,
  list_sessions, remap,
}
use egressd.Net.{same_port}
use egressd.Conntrack.NetfilterList.{is_unreadable, entries_of, outcome, list_entries-outcome}
use egressd.Conntrack.KernelHz.{
  u16_mod, hz_values, ok as hz_ok, err as hz_err, values_empty, nearest, get_kernel_hz, init_hertz,
  nearest_loop, distance,
}
use egressd.Conntrack.Nearest.{gap, Closest, nearest-Closest, IsHz, init_hertz-pos}
use egressd.Conntrack.Cilium.{
  CtKey, CtEntry, opened, other_failure, CtMap, listed, difference, jiffies_seconds, expires,
  list_records,
}
use egressd.Conntrack.CiliumLaws.{contents, list_records-all_kept}
use egressd.Tests.Net.{Address, address, quad_of, test_net, pod_ip, public_ip, at_port}

abbrev udp : ℕ → ℕ → ProtoTuple
udp a b = record { number = some 17; src_port = some a; dst_port = some b }

abbrev counted : ℕ → ℕ → TrafficCounter
counted packets bytes = record { packets = some packets; bytes = some bytes }

abbrev pod_bytes : List ℕ
pod_bytes = 10 ∷ 0 ∷ 0 ∷ 7 ∷ []

abbrev public_bytes : List ℕ
public_bytes = 8 ∷ 8 ∷ 4 ∷ 4 ∷ []

abbrev ip_from_std_ip : List ℕ → Address
ip_from_std_ip bytes = address (quad_of bytes)

abbrev session : Con
session = record {
  origin =
      some (record { src = some pod_bytes; dst = some public_bytes; proto = some (udp 40000 53) });
  reply =
      some (record { src = some public_bytes; dst = some pod_bytes; proto = some (udp 53 40000) });
  counter_origin = some (counted 1 60);
  counter_reply = some (counted 1 200);
  timeout = some 30;
}

-- A session whose reply has no source passes the test.
abbrev torn : Con
torn = record session {
  reply = some (record { src = none; dst = some pod_bytes; proto = some (udp 53 40000) });
}

abbrev first_record : Entry Address
first_record = record {
  src = at_port pod_ip 40000;
  dst = at_port public_ip 53;
  tx_bytes = 60;
  tx_packets = 1;
  rx_bytes = 200;
  rx_packets = 1;
  lifetime = 30000000007;
  proto = 17;
}

session_read : session_entry test_net ip_from_std_ip 7 session ≡ ok first_record
unfolding session_entry remap same_port
session_read = refl

torn_panics :
    list_entries test_net ip_from_std_ip 7 (some (session ∷ torn ∷ [])) all_entries
    ≡ nil_dereference
unfolding session_entry remap same_port list_entries list_sessions is_skipped
torn_panics = refl

list_entries-outcome_example :
    list_entries test_net ip_from_std_ip 7 (some (session ∷ [])) all_entries
    ≡ outcome
        (any (is_unreadable test_net ip_from_std_ip 7) (session ∷ []))
        (keep all_entries (entries_of test_net ip_from_std_ip 7 (session ∷ [])))
list_entries-outcome_example =
    list_entries-outcome test_net ip_from_std_ip 7 all_entries (some (session ∷ []))

abbrev both_records : List (Entry Address)
both_records =
    first_record
    ∷ record {
      src = at_port public_ip 53;
      dst = at_port pod_ip 40000;
      tx_bytes = 200;
      tx_packets = 1;
      rx_bytes = 60;
      rx_packets = 1;
      lifetime = 30000000007;
      proto = 17;
    }
    ∷ []

session_listed :
    list_entries test_net ip_from_std_ip 7 (some (session ∷ [])) all_entries ≡ ok both_records
unfolding session_entry remap same_port list_entries list_sessions is_skipped all_entries
session_listed = refl

nearest-Closest_example :
    ((hz_values ≡ []) × (nearest 275 hz_values ≡ hz_err values_empty))
    ⊎ (hz_values ≢ [])
      × (r : ℕ) × (nearest 275 hz_values ≡ hz_ok r)
      × (Closest 275 hz_values r ⊎ (All (λ w. u16_mod - 1 ≤ gap 275 w) hz_values × (r ≡ 0)))
nearest-Closest_example = nearest-Closest 275 hz_values (omega arith) (omega arith)

-- 275 is as far from 300 as from 250: the earlier entry wins.
nearest_tie : nearest 275 hz_values ≡ hz_ok 300
unfolding nearest nearest_loop distance
nearest_tie = refl

-- No entry is closer than the greatest distance, so 0 is returned, which is no entry.
nearest_none : nearest 0 (65535 ∷ []) ≡ hz_ok 0
unfolding nearest nearest_loop distance
nearest_none = refl

abbrev rounded : ℕ → ℕ → ℕ
rounded kd td = (kd * 2000000000 + td) / (2 * td)

init_hertz-pos_example :
    let hz = init_hertz (
      get_kernel_hz rounded true
        (some (record { k = 100; t = 0 }))
        (some (record { k = 125; t = 100000000 }))) in
    ((hz ≡ 1) ⊎ IsHz hz) × (0 < hz)
init_hertz-pos_example =
    init_hertz-pos rounded true (some (record { k = 100; t = 0 }))
      (some (record { k = 125; t = 100000000 }))

abbrev tracked : CtKey × CtEntry
tracked = (
  record {
    next_header = 6;
    source_addr = record { b0 = 8; b1 = 8; b2 = 4; b3 = 4 };
    dest_addr = record { b0 = 10; b1 = 0; b2 = 0; b3 = 7 };
    source_port = 40000;
    dest_port = 443;
  },
  record { tx_bytes = 60; tx_packets = 1; rx_bytes = 200; rx_packets = 1; lifetime = 130 },
)

abbrev untracked : CtKey × CtEntry
untracked = (record tracked.0 { next_header = 0 }, tracked.1)

abbrev ct_maps : List CtMap
ct_maps =
    record { open_result = opened; dump = some (untracked ∷ tracked ∷ []) }
    ∷ record { open_result = other_failure; dump = some [] }
    ∷ []

list_records-all_kept_example :
    list_records test_net 7 (some (λ t. difference t 100)) all_entries ct_maps
    ≡ listed (
        record {
          src = at_port pod_ip 40000;
          dst = at_port public_ip 443;
          tx_bytes = 60;
          tx_packets = 1;
          rx_bytes = 200;
          rx_packets = 1;
          lifetime = 30000000007;
          proto = 6;
        }
        ∷ [])
unfolding contents expires difference all_entries
list_records-all_kept_example =
    list_records-all_kept test_net 7 (λ t. difference t 100) all_entries ct_maps

-- A lifetime ten seconds ago in jiffies of 256 Hz.
past_jiffies : expires 100000000000 (jiffies_seconds 256 (difference 90 100)) ≡ 90000000000
unfolding expires jiffies_seconds difference
past_jiffies = refl

-- At 1 Hz, what a lifetime 2 ^ 28 ticks ahead comes to in nanoseconds exceeds an int64, and the
-- record has expired already.
overflow_expires :
    ltb
      (expires 100000000000000000000 (jiffies_seconds 1 (difference 268435456 0)))
      100000000000000000000
    ≡ true
unfolding expires jiffies_seconds difference
overflow_expires = refl
