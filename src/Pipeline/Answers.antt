-- ===== src/Pipeline/Answers.antt =====
-- The name in a DNS answer, from the packet to the exporter.
use egressd.Prelude.{
  ℕ, ◌+◌, ◌≤◌, ◌<◌, ◌≡◌, refl, ap, ◌∙◌, ◌≢◌, true, ◌&&◌, Option, some, List, [], ◌∷◌, ◌++◌, arith,
  String, ltb, ◌==◌, nat_comparable, string_comparable, length, All, length-append, contains,
}
use egressd.Net.{NetAddr, to_ip_int32}
use egressd.Ebpf.Egress.{SkBuff}
use egressd.Ebpf.EgressLaws.{Packet, Loads, is_dns}
use egressd.Dns.{Cache}
use egressd.Dns.Resolutions.{
  Answer, default_dns_ttl, or_name, Ip2Dns, handle_answers, records, storage_dns_ttl, fill,
  storage_lookup,
}
use egressd.Dns.Names.{
  address_answer, cname_answer, IsReadable, handle_answers-cname, storage_lookup-records,
}
use egressd.Dns.Tracer.{
  Layer, dns, DnsEvent, parse_event, Tracer, capacity, Action, send_event, act, run_loop,
}
use egressd.Dns.TracerProgress.{takes_of, run_loop-delivers}
use egressd.Pipeline.{bytes_from, delivered, records_of}
use egressd.Pipeline.Packets.{received, cgroup_ingress-received}

-- A DNS packet for a full socket of IPv4, of the length that its socket buffer says, with the
-- layer that its bytes decode to, whatever garbage follows them.
pub record Decodes (new_packet : List ℕ → Option (Option Layer)) (p : Packet) (ctx : SkBuff)
    (questions : List String) (answers : List Answer) : Type 0 where
  pub loads : Loads p ctx
  pub len : ctx.len ≡ p.size
  pub is_reported : ctx.family == 2 && ctx.sk && ctx.fullsock && is_dns p ≡ true
  pub layer :
      (garbage : List ℕ)
      → new_packet (bytes_from p.byte 0 p.size ++ garbage) ≡ some (some (dns questions answers))

module _ (new_packet : List ℕ → Option (Option Layer)) (queue_size : ℕ) where
  run_loop-append :
      (xs ys : List Action) (t : Tracer)
      → run_loop new_packet queue_size (xs ++ ys) t
        ≡ run_loop new_packet queue_size ys (run_loop new_packet queue_size xs t)
  unfolding run_loop
  run_loop-append [] ys t = refl
  run_loop-append (x ∷ xs) ys t = run_loop-append xs ys (act new_packet queue_size x t)

  module _ (p : Packet) (ctx : SkBuff) (questions : List String) (answers : List Answer)
      (decodes : Decodes new_packet p ctx questions answers) where
    abbrev event : DnsEvent
    event = record { questions = questions; answers = answers }

    abbrev with_event : Tracer → Tracer
    with_event t = record t { queue = t.queue ++ event ∷ [] }

    parsed :
        (garbage : List ℕ)
        → parse_event new_packet (bytes_from p.byte 0 p.size ++ garbage) ≡ some event
    unfolding parse_event
    parsed garbage = rw (parse_event, decodes.layer garbage) refl

    received-event :
        (garbage : List ℕ) (t : Tracer)
        → length t.queue < capacity queue_size
        → run_loop new_packet queue_size (records_of p (delivered garbage) ctx) t ≡ with_event t
    unfolding send_event
    received-event garbage t room =
        let open_ : ltb (length t.queue) (capacity queue_size) ≡ true = ground arith in
        cgroup_ingress-received new_packet queue_size p ctx (delivered garbage) t decodes.loads
          decodes.len
        ∙ rw decodes.is_reported (rw (received, parsed garbage, open_) refl)

    pub records_of-taken :
        (garbage : List ℕ) (actions : List Action) (t : Tracer)
        → length t.queue < capacity queue_size
        → length t.queue < takes_of actions
        → (rest : List DnsEvent) × ((run_loop new_packet queue_size
              (records_of p (delivered garbage) ctx ++ actions)
              t).taken
            ≡ (t.taken ++ (t.queue ++ event ∷ [])) ++ rest)
    records_of-taken garbage actions t room enough =
        let (rest, taken) =
          run_loop-delivers new_packet queue_size actions (with_event t)
            (omega (arith, length-append t.queue (event ∷ []))) in
        (
          rest,
          ap (λ (u : Tracer). u.taken)
                (run_loop-append (records_of p (delivered garbage) ctx) actions t
                  ∙ ap (run_loop new_packet queue_size actions) (received-event garbage t room))
              ∙ taken,
        )

  -- A DNS answer that reaches the node names its address in the exporter. Its packet enters the
  -- cgroup for a full socket and its event is delivered while the channel has room; then the event
  -- is taken, right behind those that were there before, once the consumer has taken them all and
  -- it. Let its answers end with an alias and an address of the alias's target, and let the data of
  -- its address answers be IPv4 addresses. Then the node handles the event to its end, whatever it
  -- knew before, and the records that it sends within two minutes make the exporter name the
  -- address by the alias, for an hour from when it gets them. This holds for an address that is not
  -- 0 and that the cache of the node lists then.
  pub answer_named :
      (net : NetAddr) (ips : Cache ℕ String) (names : Cache String String) (p : Packet)
      (ctx : SkBuff) (garbage : List ℕ) (questions : List String) (pre : List Answer)
      (name target : String) (ip : List ℕ) (addr : net.IP) (actions : List Action) (t : Tracer)
      (now t1 t2 t3 : ℕ) (d : Ip2Dns net ips names) (s : ips.Store)
      → let answers = pre ++ cname_answer name target ∷ address_answer target ip ∷ [] in
        let address = to_ip_int32 net addr in
        Decodes new_packet p ctx questions answers
        → length t.queue < capacity queue_size
        → length t.queue < takes_of actions
        → All (IsReadable net ips names) pre
        → net.from_std_ip ip ≡ some addr
        → now ≤ t1
        → t1 < now + default_dns_ttl
        → t2 ≤ t3
        → t3 < t2 + storage_dns_ttl net ips names
        → address ≢ 0
        → ((d' : Ip2Dns net ips names)
            → handle_answers net ips names now answers d ≡ some d'
            → contains address (ips.keys d'.ip_to_name) ≡ true)
        → ((rest : List DnsEvent) × ((run_loop new_packet queue_size
                (records_of p (delivered garbage) ctx ++ actions)
                t).taken
              ≡ (t.taken ++ (t.queue ++ record { questions = questions; answers = answers } ∷ []))
                ++ rest))
          × ((d' : Ip2Dns net ips names) × (handle_answers net ips names now answers d ≡ some d')
              × (storage_lookup net ips names t3 address
                    (fill net ips names t2 (records net ips names t1 d') s)
                  ≡ name))
  answer_named net ips names p ctx garbage questions pre name target ip addr actions t now t1 t2 t3
        d s decodes room enough readable read from until from' until' nonzero known =
      let answers = pre ++ cname_answer name target ∷ address_answer target ip ∷ [] in
      let (d', handled, named) =
        handle_answers-cname net ips names now t1 pre name target ip addr d readable read from
          until in
      (
        records_of-taken p ctx questions answers decodes garbage actions t room enough,
        (
          d',
          handled,
          storage_lookup-records net ips names t1 t2 t3 (to_ip_int32 net addr) d' s from' until'
                nonzero (known d' handled)
              ∙ ap (or_name "") named,
        ),
      )
