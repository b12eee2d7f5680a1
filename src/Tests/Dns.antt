-- ===== src/Tests/Dns.antt =====
-- The theorems on the names of addresses, with a concrete cache: a list of what was set, the
-- newest first, each with the time at which it expires.
use egressd.Prelude.{
  ℕ, ◌+◌, ◌≡◌, refl, ◌≢◌, ◌⊎◌, true, Option, none, some, List, [], ◌∷◌, map, arith, String, ltb,
  if◌then◌else◌, Comparable, ◌==◌, nat_comparable, string_comparable,
}
use egressd.Dns.{Cache}
use egressd.Dns.Resolutions.{Ip2Dns}
use egressd.Dns.Tracer.{Layer, dns, Action, reads, takes}
use egressd.Dns.Tracer.{detect_cgroup_path}
use egressd.Dns.Startup.{
  System, loop_ended, objects_loaded, objects_closed, cgroup2_mounted, reader_opened, link_closed,
  link_attached, detect, mount_cgroup2, init_cgroupv2, attach, attach_detected, find_and_attach,
  run,
}
use egressd.Dns.StartupLaws.{nothing, open_after, attached, IsMounted, run-released}
use egressd.Tests.Net.{test_net}

module _ {K V : Type 0} ⦃k : Comparable K⦄ where
  abbrev find : ℕ → K → List (K × V × ℕ) → Option V
  find now key [] = none
  find now key ((j, v, until) ∷ s) =
      if j == key then (if ltb now until then some v else none) else find now key s

  abbrev new_cache : Cache K V
  new_cache = record {
    Store = List (K × V × ℕ);
    new = [];
    get = find;
    keys = map (λ e. e.0);
    set = λ now key v ttl s. (key, v, now + ttl) ∷ s;
    get-new = λ now key. refl;
    get-set_self = λ now then_ key v ttl s from until. ground (arith, k.same_iff key key);
    get-set_ne = λ now then_ key j v ttl s ne. ground (arith, k.same_iff key j);
  }

abbrev pub ips : Cache ℕ String
ips = new_cache

abbrev pub names : Cache String String
names = new_cache

abbrev pub empty : Ip2Dns test_net ips names
empty = record { ip_to_name = []; cname_to_name = [] }

-- A record that is too short, two with an answer each, and a consumer that takes one event.
abbrev pub record_actions : List Action
record_actions =
    reads (1 ∷ 2 ∷ [])
    ∷ reads (4 ∷ 0 ∷ 0 ∷ 0 ∷ 69 ∷ [])
    ∷ takes
    ∷ reads (4 ∷ 0 ∷ 0 ∷ 0 ∷ 69 ∷ [])
    ∷ []

abbrev pub empty_answer : List ℕ → Option (Option Layer)
empty_answer bytes = some (some (dns [] []))

-- cgroup2 is mounted by the run itself.
abbrev system : System
system = record {
  remove_memlock = true;
  load_spec = λ path. true;
  load_objects = true;
  mounts = λ n. some (if n == 0 then [] else ("none" ∷ "/cgroup2" ∷ "cgroup2" ∷ []) ∷ []);
  mkdir = true;
  mount = true;
  attach_cgroup = λ path. true;
  new_reader = true;
}

run-released_example :
    let (steps, e) = run system "" in
    ((e ≢ loop_ended) × (open_after steps nothing ≡ nothing))
    ⊎ ((e ≡ loop_ended)
        × (open_after steps nothing ≡ record nothing { readers = 1 })
        × (path : String) × (attached steps ≡ path ∷ [])
        × IsMounted system path)
run-released_example = run-released system ""

system_runs : run system "" ≡ (
  objects_loaded
      ∷ cgroup2_mounted
      ∷ link_attached "/cgroup2"
      ∷ reader_opened
      ∷ link_closed
      ∷ objects_closed
      ∷ [],
  loop_ended,
)
unfolding run find_and_attach mount_cgroup2 attach_detected attach detect detect_cgroup_path
system_runs = refl

system_initialised : init_cgroupv2 system ≡ (cgroup2_mounted ∷ [], none)
unfolding init_cgroupv2 mount_cgroup2 detect detect_cgroup_path
system_initialised = refl
