-- ===== src/Tests/Pipeline.antt =====
-- A packet on its way through the parts, on a concrete answer.
use egressd.Prelude.{
  ℕ, ◌≡◌, refl, sym, ap, Bool, true, ◌&&◌, Option, none, some, List, [], ◌∷◌, ◌++◌, map, arith,
  String, if◌then◌else◌, ◌==◌, nat_comparable, string_comparable, keep, contains,
}
use egressd.Net.{to_ip_int32}
use egressd.Ebpf.EgressLaws.{header_size, port_at, dns_ports, is_dns}
use egressd.Dns.Resolutions.{
  Answer, Ip2Dns, handle_answers, handle_type, records, fill, storage_lookup,
}
use egressd.Dns.Names.{address_answer, cname_answer}
use egressd.Dns.Tracer.{Layer, dns, DnsEvent, takes, new_tracer, run_loop}
use egressd.Dns.TracerProgress.{takes_of}
use egressd.Pipeline.{bytes_from, delivered, records_of}
use egressd.Pipeline.Packets.{perceived, cgroup_ingress-received}
use egressd.Pipeline.Answers.{Decodes, answer_named}
use egressd.Kube.{Pod, Node, Object, node}
use egressd.Kube.ByIp.{PodByIpCache}
use egressd.Kube.Nodes.{node_name_index, has_key}
use egressd.Exporter.{PodNetworkMetric}
use egressd.Exporter.Build.{metric_of}
use egressd.Pipeline.Watcher.{kube_watcher}
use egressd.Tests.Net.{test_net, address}
use egressd.Tests.Kube.{web, first_node, pod_list}
use egressd.Tests.Exporter.{to_public}
use egressd.Tests.Ebpf.{answer, answer_skb, answer-Loads}
use egressd.Tests.Dns.{ips, names, empty, empty_answer}

cgroup_ingress-received_example :
    run_loop empty_answer 1 (records_of answer (delivered (7 ∷ [])) answer_skb) new_tracer ≡ (
      if answer_skb.family == 2 && answer_skb.sk && answer_skb.fullsock && is_dns answer
      then perceived empty_answer 1
          (delivered (7 ∷ []))
          (bytes_from answer.byte 0 answer.size)
          new_tracer
      else new_tracer)
cgroup_ingress-received_example =
    cgroup_ingress-received empty_answer 1 answer answer_skb (delivered (7 ∷ [])) new_tracer
      answer-Loads refl

abbrev answers : List Answer
answers =
    cname_answer "www.example.com" "cdn.example.net"
    ∷ address_answer "cdn.example.net" (8 ∷ 8 ∷ 4 ∷ 4 ∷ [])
    ∷ []

abbrev two_answers : List ℕ → Option (Option Layer)
two_answers bytes = some (some (dns [] answers))

answer-Decodes : Decodes two_answers answer answer_skb [] answers
unfolding is_dns header_size dns_ports port_at
answer-Decodes = record {
  loads = answer-Loads;
  len = refl;
  is_reported = refl;
  layer = λ garbage. refl;
}

abbrev answer_addr : test_net.IP
answer_addr = address (record { b0 = 8; b1 = 8; b2 = 4; b3 = 4 })

abbrev lists : Option (Ip2Dns test_net ips names) → Bool
lists none = true
lists (some d) = contains (to_ip_int32 test_net answer_addr) (ips.keys d.ip_to_name)

listed :
    (d' : Ip2Dns test_net ips names)
    → handle_answers test_net ips names 50 answers empty ≡ some d'
    → contains (to_ip_int32 test_net answer_addr) (ips.keys d'.ip_to_name) ≡ true
unfolding handle_answers handle_type to_ip_int32
listed d' h = ap lists (sym h)

answer_named_example :
    ((rest : List DnsEvent) × ((run_loop two_answers 1
          (records_of answer (delivered []) answer_skb ++ takes ∷ [])
          new_tracer).taken
        ≡ ([] ++ ([] ++ record { questions = []; answers = answers } ∷ [])) ++ rest))
    × ((d' : Ip2Dns test_net ips names) × (handle_answers test_net ips names 50 answers empty
          ≡ some d')
        × (storage_lookup test_net ips names 70
              (to_ip_int32 test_net answer_addr)
              (fill test_net ips names 60 (records test_net ips names 60 d') [])
            ≡ "www.example.com"))
unfolding handle_answers handle_type takes_of to_ip_int32
answer_named_example =
    answer_named two_answers 1 test_net ips names answer answer_skb [] [] [] "www.example.com"
      "cdn.example.net" (8 ∷ 8 ∷ 4 ∷ 4 ∷ []) answer_addr (takes ∷ []) new_tracer 50 60 60 70 empty
      [] answer-Decodes (omega arith) (omega arith) tt refl (omega arith) (omega arith)
      (omega arith) (omega arith) (λ e. absurd (omega arith)) listed

abbrev zoned : Node
zoned = record first_node { labels = ("topology.kubernetes.io/zone", "zone-a") ∷ [] }

abbrev by_name : String → Option (List Object)
by_name key = some (map node (keep (has_key node_name_index key) (zoned ∷ [])))

abbrev by_address : String → Option (List Object)
by_address key = some []

abbrev pods : PodByIpCache (List Pod)
pods = record { indexer = record web { pod_ip = "10.0.0.1" } ∷ []; deleted_pods = [] }

abbrev built_metric : PodNetworkMetric
built_metric =
    record (metric_of test_net ips names (kube_watcher pod_list by_name by_address) to_public web) {
      src_zone = "zone-a";
    }
