-- ===== src/Collector/Climb.antt =====
-- One connection over its successive readings by `collect` of collector/collector.go.
use egressd.Prelude.{
  ℕ, ◌+◌, ◌-◌, ◌≤◌, ◌<◌, ◌≡◌, refl, ◌∙◌, false, Option, none, some, List, [], ◌∷◌, arith,
  nat_comparable, string_comparable, All,
}
use egressd.Prelude.Table.{lookup, insert, or_zero, lookup-insert}
use egressd.Net.{NetAddr}
use egressd.Conntrack.{
  Entry, IsEntry, Counter, tx_bytes, tx_packets, rx_bytes, rx_packets, read, u64_mod,
}
use egressd.Collector.{Config, Collector, conntrack_entry_key}
use egressd.Collector.Collect.{traffic_since, group_public, collect_conn}
use egressd.Collector.Traffic.{read_traffic, growth_lem, is_skipping, recorded_conn, recorded}

-- The rises of a counter over its readings from `n` on; a reading below the last one adds nothing.
pub climbs : {IP : Type 0} → Counter → ℕ → List (Entry IP) → ℕ
climbs k n [] = 0
climbs k n (e ∷ es) = (read k e - n) + climbs k (read k e) es

pub last_reading : {IP : Type 0} → Counter → ℕ → List (Entry IP) → ℕ
last_reading k n [] = n
last_reading k n (e ∷ es) = last_reading k (read k e) es

-- The counter never falls.
abbrev pub Rising : {IP : Type 0} → Counter → ℕ → List (Entry IP) → Type 0
Rising k n [] = Unit {0}
Rising k n (e ∷ es) = (n ≤ read k e) × Rising k (read k e) es

climbs-Rising :
    {IP : Type 0} (k : Counter) (n : ℕ) (es : List (Entry IP))
    → Rising k n es
    → climbs k n es + n ≡ last_reading k n es
unfolding climbs last_reading
climbs-Rising k n [] h = omega arith
climbs-Rising k n (e ∷ es) h = omega (arith, climbs-Rising k (read k e) es h.1)

read-lt : {IP : Type 0} (k : Counter) (e : Entry IP) → IsEntry e → read k e < u64_mod
read-lt tx_bytes e h = h.tx_bytes
read-lt tx_packets e h = h.tx_packets
read-lt rx_bytes e h = h.rx_bytes
read-lt rx_packets e h = h.rx_packets

traffic-climb :
    {IP : Type 0} (k : Counter) (cached : Option (Entry IP)) (e : Entry IP)
    → IsEntry e
    → read_traffic k (traffic_since cached e) ≡ read k e - or_zero (read k) cached
unfolding traffic_since
traffic-climb tx_bytes none e h = omega arith
traffic-climb tx_packets none e h = omega arith
traffic-climb rx_bytes none e h = omega arith
traffic-climb rx_packets none e h = omega arith
traffic-climb tx_bytes (some c) e h = growth_lem e.tx_bytes c.tx_bytes h.tx_bytes
traffic-climb tx_packets (some c) e h = growth_lem e.tx_packets c.tx_packets h.tx_packets
traffic-climb rx_bytes (some c) e h = growth_lem e.rx_bytes c.rx_bytes h.rx_bytes
traffic-climb rx_packets (some c) e h = growth_lem e.rx_packets c.rx_packets h.rx_packets

read-group_public :
    (net : NetAddr) (k : Counter) (cfg : Config) (e : Entry net.IP)
    → read k (group_public net cfg e) ≡ read k e
unfolding group_public
read-group_public net tx_bytes cfg e = ground arith
read-group_public net tx_packets cfg e = ground arith
read-group_public net rx_bytes cfg e = ground arith
read-group_public net rx_packets cfg e = ground arith

module _ (net : NetAddr) (hash : List ℕ → ℕ) (k : Counter) (key : ℕ) where
  open net use {IP}

  abbrev pub OfKey : List (Entry IP) → Type 0
  OfKey = All (λ e. (conntrack_entry_key net hash e ≡ key) × IsEntry e)

  abbrev pub last_seen : Collector IP → ℕ
  last_seen c = or_zero (read k) (lookup key c.entries_cache)

  collect_conn-last_seen :
      (c : Collector IP) (e : Entry IP)
      → conntrack_entry_key net hash e ≡ key
      → (last_seen (collect_conn net hash c e) ≡ read k e)
        × (is_skipping (collect_conn net hash c e) ≡ is_skipping c)
  unfolding collect_conn
  collect_conn-last_seen c e h =
      let grouped = group_public net c.cfg e in
      ground (
        arith,
        lookup-insert (conntrack_entry_key net hash e) key e c.entries_cache,
        lookup-insert (conntrack_entry_key net hash e) key grouped c.entries_cache,
        lookup-insert (conntrack_entry_key net hash e) key grouped
            (insert (conntrack_entry_key net hash e) e c.entries_cache),
        read-group_public net k c.cfg e,
      )

  -- Outside the first collection of delta mode, the readings of one connection add the rises of
  -- each counter, starting from the reading that the cache holds (0 where it holds none).
  recorded-climbs :
      (c : Collector IP) (es : List (Entry IP))
      → is_skipping c ≡ false
      → OfKey es
      → recorded net hash k c es ≡ climbs k (last_seen c) es
  unfolding recorded recorded_conn climbs
  recorded-climbs c [] s h = refl
  recorded-climbs c (e ∷ es) s h =
      let (seen, same) = collect_conn-last_seen c e h.0.0 in
      ground (
        arith,
        traffic-climb k (lookup key c.entries_cache) e h.0.1,
        recorded-climbs (collect_conn net hash c e) es (same ∙ s) h.1,
      )

  -- Successive readings of one connection, outside a first collection in delta mode, whose counter
  -- never falls from the cached reading on, are recorded as the last reading less the cached one,
  -- however many there are in between.
  pub recorded-last_reading :
      (c : Collector IP) (es : List (Entry IP))
      → is_skipping c ≡ false
      → OfKey es
      → Rising k (last_seen c) es
      → recorded net hash k c es + last_seen c ≡ last_reading k (last_seen c) es
  recorded-last_reading c es s h r =
      omega (arith, recorded-climbs c es s h, climbs-Rising k (last_seen c) es r)
