-- ===== src/Conntrack/NetfilterList.antt =====
-- The loop of `netfilterClient.ListEntries` in conntrack/nf_conntrack.go against the list of
-- records that the sessions stand for.
use egressd.Prelude.{appends}
use mathlib.Core.List.{append_assoc}
use egressd.Prelude.{
  ℕ, ◌≡◌, refl, ap, ◌∙◌, inl, inr, Bool, true, false, ◌&&◌, Option, none, some, List, [], ◌∷◌, ◌++◌,
  arith, if◌then◌else◌, nat_comparable, string_comparable, Bool-cases, Option-cases, any, keep,
}
use egressd.Net.{NetAddr}
use egressd.Conntrack.{Entry, EntriesFilter}
use egressd.Conntrack.Netfilter.{
  Con, Result, ok, dump_failed, nil_dereference, mirror, list_sessions, list_entries,
}
use egressd.Conntrack.NetfilterLaws.{passes, is_skipped_lem, record_of, session_entry-record_of}

-- Nothing but a panic where some session cannot be read.
abbrev pub outcome : {IP : Type 0} → Bool → List (Entry IP) → Result (List (Entry IP))
outcome panics es = if panics then nil_dereference else ok es

module _ (net : NetAddr) (ip_from_std_ip : List ℕ → net.IP) (now : ℕ) where
  open net use {IP}

  -- A session that passes the test of the loop and stands for no record.
  pub is_unreadable : Con → Bool
  is_unreadable sess =
      passes sess && elim (record_of net ip_from_std_ip now sess) [ none ↦ true | some e ↦ false ]

  -- The record of a session and its reverse, which swaps the ends and the counters.
  abbrev both_records : Option (Entry IP) → List (Entry IP)
  both_records none = []
  both_records (some e) =
      e
      ∷ record e {
        src = e.dst;
        dst = e.src;
        tx_bytes = e.rx_bytes;
        tx_packets = e.rx_packets;
        rx_bytes = e.tx_bytes;
        rx_packets = e.tx_packets;
      }
      ∷ []

  -- Two records for each session that passes the test, in the order of the dump.
  pub entries_of : List Con → List (Entry IP)
  entries_of [] = []
  entries_of (sess ∷ sessions) =
      (if passes sess then both_records (record_of net ip_from_std_ip now sess) else [])
      ++ entries_of sessions

  -- `append` under the filter, once.
  abbrev push : EntriesFilter IP → Entry IP → List (Entry IP) → List (Entry IP)
  push filter e res = if filter e then res ++ e ∷ [] else res

  push-append :
      (filter : EntriesFilter IP) (e : Entry IP) (res es : List (Entry IP))
      → push filter e res ++ keep filter es ≡ res ++ keep filter (e ∷ es)
  push-append filter e res es = ground (arith, append_assoc res (e ∷ []) (keep filter es))

  push_both :
      (filter : EntriesFilter IP) (e f : Entry IP) (res es : List (Entry IP))
      → push filter f (push filter e res) ++ keep filter es ≡ res ++ keep filter (e ∷ f ∷ es)
  push_both filter e f res es =
      push-append filter f (push filter e res) es ∙ push-append filter e res (f ∷ es)

  list_sessions-outcome :
      (filter : EntriesFilter IP) (sessions : List Con) (res : List (Entry IP))
      → list_sessions net ip_from_std_ip now filter sessions res
        ≡ outcome (any is_unreadable sessions) (res ++ keep filter (entries_of sessions))
  unfolding list_sessions entries_of is_unreadable mirror
  list_sessions-outcome filter [] res = ap ok (simp appends)
  list_sessions-outcome filter (sess ∷ sessions) res = elim (Bool-cases (passes sess)) [
    | inr skipped ↦ ground (arith, is_skipped_lem sess, list_sessions-outcome filter sessions res)
    | inl kept ↦ elim (Option-cases (record_of net ip_from_std_ip now sess)) [
      | inl none_ ↦
          ground (arith, is_skipped_lem sess, session_entry-record_of net ip_from_std_ip now sess)
      | inr (e, read_) ↦
          let m = mirror net ip_from_std_ip now e in
          let res' = push filter m (push filter e res) in
          ground (
            arith,
            is_skipped_lem sess,
            session_entry-record_of net ip_from_std_ip now sess,
            push_both filter e m res (entries_of sessions),
            list_sessions-outcome filter sessions res',
          )
    ]
  ]

  -- `ListEntries` fails when the dump fails. It passes over the sessions without a source, a
  -- destination of the replies, their ports or a counter. It panics when one of the others lacks a
  -- pointer that the code reads without a test. Otherwise it returns, in the order of the dump,
  -- those records that the filter accepts among two for each of the others: the first goes from its
  -- source to where the replies come from, with the counters of both ways and the expiry of its
  -- timeout, and the second is the reverse of the first.
  pub list_entries-outcome :
      (filter : EntriesFilter IP) (dump : Option (List Con))
      → list_entries net ip_from_std_ip now dump filter ≡ elim dump [
        | none ↦ dump_failed
        | some sessions ↦ outcome (any is_unreadable sessions) (keep filter (entries_of sessions))
      ]
  unfolding list_entries
  list_entries-outcome filter none = refl
  list_entries-outcome filter (some sessions) = list_sessions-outcome filter sessions []
