-- ===== src/Dns/Names.antt =====
-- Which name an address gets: dns/resolutions.go on the node, exporter/ip2dns.go in the exporter.
use egressd.Prelude.{
  ℕ, ◌+◌, ◌≤◌, ◌<◌, ◌≡◌, refl, ap, ◌∙◌, ◌≢◌, ◌⊎◌, inl, inr, Bool, true, false, Option, none, some,
  List, [], ◌∷◌, ◌++◌, map, arith, String, if◌then◌else◌, ◌==◌, nat_comparable, string_comparable,
  nat_beq_iff, Bool-cases, Option-cases, All, contains,
}
use egressd.Net.{NetAddr, to_ip_int32}
use egressd.Dns.{Cache}
use egressd.Collector.Handler.{Ip2Domain}
use egressd.Dns.Resolutions.{
  DnsType, a, cname, other_type, Answer, default_dns_ttl, or_name, Ip2Dns, handle_type,
  handle_answers, record_of, records, storage_dns_ttl, fill, storage_lookup,
}

abbrev pub address_answer : String → List ℕ → Answer
address_answer name ip = record { name = name; type = a; ip = ip; cname_target = "" }

abbrev pub cname_answer : String → String → Answer
cname_answer name target = record { name = name; type = cname; ip = []; cname_target = target }

module _ (net : NetAddr) (ips : Cache ℕ String) (names : Cache String String) where
  -- The data of an address answer is an IPv4 address.
  abbrev is_readable : DnsType → List ℕ → Bool
  is_readable a ip = elim (net.from_std_ip ip) [ none ↦ false | some addr ↦ true ]
  is_readable cname ip = true
  is_readable other_type ip = true

  abbrev pub IsReadable : Answer → Type 0
  IsReadable answer = is_readable answer.type answer.ip ≡ true

  handle_type-some :
      (now : ℕ) (answer : Answer) (type : DnsType) (d : Ip2Dns net ips names)
      → is_readable type answer.ip ≡ true
      → (e : Ip2Dns net ips names) × (handle_type net ips names now answer type d ≡ some e)
  unfolding handle_type
  handle_type-some now answer a d h = elim (Option-cases (net.from_std_ip answer.ip)) [
    | inl unread ↦ absurd (ground (arith, unread))
    | inr (addr, read) ↦ rw (handle_type, read) (_, refl)
  ]
  handle_type-some now answer cname d h = (_, refl)
  handle_type-some now answer other_type d h = (_, refl)

  -- The loop comes to the last two answers if the data of each address answer before them is an
  -- IPv4 address.
  handle_answers-append :
      (now : ℕ) (xs ys : List Answer) (d : Ip2Dns net ips names)
      → All IsReadable xs
      → (e : Ip2Dns net ips names) × (handle_answers net ips names now (xs ++ ys) d
          ≡ handle_answers net ips names now ys e)
  unfolding handle_answers
  handle_answers-append now [] ys d h = (d, refl)
  handle_answers-append now (x ∷ xs) ys d h =
      let (e, first) = handle_type-some now x x.type d h.0 in
      rw (handle_answers, first) (handle_answers-append now xs ys e h.1)

  -- An address answer that follows a CNAME answer for its name is kept under the owner of that
  -- CNAME, for two minutes, whatever came before: the last alias of a chain, and the name that was
  -- asked for where there is one alias.
  pub handle_answers-cname :
      (now then_ : ℕ) (pre : List Answer) (name target : String) (ip : List ℕ) (addr : net.IP)
      (d : Ip2Dns net ips names)
      → All IsReadable pre
      → net.from_std_ip ip ≡ some addr
      → now ≤ then_
      → then_ < now + default_dns_ttl
      → (d' : Ip2Dns net ips names) × (handle_answers net ips names now
            (pre ++ cname_answer name target ∷ address_answer target ip ∷ [])
            d
          ≡ some d')
        × (ips.get then_ (to_ip_int32 net addr) d'.ip_to_name ≡ some name)
  unfolding handle_answers handle_type
  handle_answers-cname now then_ pre name target ip addr d readable parsed from until =
      let (e, handled) =
        handle_answers-append now pre (cname_answer name target ∷ address_answer target ip ∷ []) d
          readable in
      rw
        (
          handled,
          handle_answers,
          handle_type,
          parsed,
          names.get-set_self now now target name default_dns_ttl e.cname_to_name (omega arith)
              (omega arith),
        )
        (_, refl, ips.get-set_self now then_ _ name default_dns_ttl e.ip_to_name from until)

  -- The domain that the last of the items gives an address.
  unfoldable pub last_domain : ℕ → Option String → List Ip2Domain → Option String
  last_domain ip known [] = known
  last_domain ip known (item ∷ items) =
      last_domain ip (if item.ip == ip then some item.domain else known) items

  fill-last_domain :
      (now then_ ip : ℕ) (items : List Ip2Domain) (s : ips.Store)
      → now ≤ then_
      → then_ < now + storage_dns_ttl net ips names
      → ips.get then_ ip (fill net ips names now items s)
        ≡ last_domain ip (ips.get then_ ip s) items
  unfolding fill last_domain
  fill-last_domain now then_ ip [] s from until = refl
  fill-last_domain now then_ ip (item ∷ items) s from until =
      fill-last_domain now then_ ip items
        (ips.set now item.ip item.domain (storage_dns_ttl net ips names) s) from until
      ∙ ap (λ (k : Option String). last_domain ip k items) (set_item (ℕ-cases item.ip ip))
    where
      ℕ-cases : (m n : ℕ) → (((m == n) ≡ true) × (m ≡ n)) ⊎ (((m == n) ≡ false) × (m ≢ n))
      ℕ-cases m n = ground arith

      set_item :
          (((item.ip == ip) ≡ true) × (item.ip ≡ ip)) ⊎ (((item.ip == ip) ≡ false) × (item.ip ≢ ip))
          → ips.get then_ ip (ips.set now item.ip item.domain (storage_dns_ttl net ips names) s)
            ≡ (if item.ip == ip then some item.domain else ips.get then_ ip s)
      set_item (inl (test, e)) =
          rw (test, ← e) (ips.get-set_self now then_ item.ip item.domain _ s from until)
      set_item (inr (test, e)) = rw test (ips.get-set_ne now then_ item.ip ip item.domain _ s e)

  -- Within the hour after a batch the exporter names an address by the last of the batch's items
  -- for it, and else by what it knew; the address 0, that of grouped public traffic, has no name.
  storage_lookup-fill :
      (now then_ ip : ℕ) (items : List Ip2Domain) (s : ips.Store)
      → now ≤ then_
      → then_ < now + storage_dns_ttl net ips names
      → storage_lookup net ips names then_ ip (fill net ips names now items s)
        ≡ (if ip == 0 then "" else or_name "" (last_domain ip (ips.get then_ ip s) items))
  unfolding storage_lookup
  storage_lookup-fill now then_ ip items s from until =
      rw (fill-last_domain now then_ ip items s from until)

  last_domain-records :
      (t ip : ℕ) (d : Ip2Dns net ips names) (keys : List ℕ) (known : Option String)
      → (known ≡ some (or_name "" (ips.get t ip d.ip_to_name))) ⊎ (contains ip keys ≡ true)
      → last_domain ip known (map (record_of net ips names t d) keys)
        ≡ some (or_name "" (ips.get t ip d.ip_to_name))
  unfolding last_domain
  last_domain-records t ip d [] known (inl e) = e
  last_domain-records t ip d [] known (inr c) = cc
  last_domain-records t ip d (key ∷ keys) known h = elim (Bool-cases (key == ip)) [
    | inl same ↦
        rw (last_domain, same)
          (last_domain-records t ip d keys _ (inl (rw ((nat_beq_iff key ip).0 same) refl)))
    | inr new ↦
        rw (last_domain, new)
          (last_domain-records t ip d keys known
            (elim h [ inl e ↦ inl e | inr c ↦ inr (ground arith) ]))
  ]

  -- What the node knows reaches the exporter: the records that the node sends name each of their
  -- addresses in the exporter as they do on the node, for an hour.
  pub storage_lookup-records :
      (t now then_ ip : ℕ) (d : Ip2Dns net ips names) (s : ips.Store)
      → now ≤ then_
      → then_ < now + storage_dns_ttl net ips names
      → ip ≢ 0
      → contains ip (ips.keys d.ip_to_name) ≡ true
      → storage_lookup net ips names then_ ip (fill net ips names now (records net ips names t d) s)
        ≡ or_name "" (ips.get t ip d.ip_to_name)
  unfolding records
  storage_lookup-records t now then_ ip d s from until nonzero known = ground (
    arith,
    storage_lookup-fill now then_ ip (map (record_of net ips names t d) (ips.keys d.ip_to_name)) s
        from until,
    last_domain-records t ip d (ips.keys d.ip_to_name) (ips.get then_ ip s) (inr known),
  )
