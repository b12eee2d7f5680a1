-- ===== src/Ebpf/Headers/BpfMaps.antt =====
-- ebpf/c/include/vmlinux.h: the types of eBPF maps, and the packet that a program is given.
use egressd.Prelude.{List, [], ◌∷◌}
use egressd.Ebpf.Ctype.{
  char, lit, base, pointer, named, array, union_of, field, end, ◌⨾◌, is, a1, Decl, struct_def,
  enum_def, forward,
}

abbrev pub bpf_map_declarations : List Decl
bpf_map_declarations =
    enum_def "enum bpf_map_type" (
      ("BPF_MAP_TYPE_UNSPEC", is 0)
      ∷ ("BPF_MAP_TYPE_HASH", is 1)
      ∷ ("BPF_MAP_TYPE_ARRAY", is 2)
      ∷ ("BPF_MAP_TYPE_PROG_ARRAY", is 3)
      ∷ ("BPF_MAP_TYPE_PERF_EVENT_ARRAY", is 4)
      ∷ ("BPF_MAP_TYPE_PERCPU_HASH", is 5)
      ∷ ("BPF_MAP_TYPE_PERCPU_ARRAY", is 6)
      ∷ ("BPF_MAP_TYPE_STACK_TRACE", is 7)
      ∷ ("BPF_MAP_TYPE_CGROUP_ARRAY", is 8)
      ∷ ("BPF_MAP_TYPE_LRU_HASH", is 9)
      ∷ ("BPF_MAP_TYPE_LRU_PERCPU_HASH", is 10)
      ∷ ("BPF_MAP_TYPE_LPM_TRIE", is 11)
      ∷ ("BPF_MAP_TYPE_ARRAY_OF_MAPS", is 12)
      ∷ ("BPF_MAP_TYPE_HASH_OF_MAPS", is 13)
      ∷ ("BPF_MAP_TYPE_DEVMAP", is 14)
      ∷ ("BPF_MAP_TYPE_SOCKMAP", is 15)
      ∷ ("BPF_MAP_TYPE_CPUMAP", is 16)
      ∷ ("BPF_MAP_TYPE_XSKMAP", is 17)
      ∷ ("BPF_MAP_TYPE_SOCKHASH", is 18)
      ∷ ("BPF_MAP_TYPE_CGROUP_STORAGE", is 19)
      ∷ ("BPF_MAP_TYPE_REUSEPORT_SOCKARRAY", is 20)
      ∷ ("BPF_MAP_TYPE_PERCPU_CGROUP_STORAGE", is 21)
      ∷ ("BPF_MAP_TYPE_QUEUE", is 22)
      ∷ ("BPF_MAP_TYPE_STACK", is 23)
      ∷ ("BPF_MAP_TYPE_SK_STORAGE", is 24)
      ∷ ("BPF_MAP_TYPE_DEVMAP_HASH", is 25)
      ∷ ("BPF_MAP_TYPE_STRUCT_OPS", is 26)
      ∷ ("BPF_MAP_TYPE_RINGBUF", is 27)
      ∷ ("BPF_MAP_TYPE_INODE_STORAGE", is 28)
      ∷ ("BPF_MAP_TYPE_TASK_STORAGE", is 29)
      ∷ [])
    ∷ struct_def a1 "struct bpf_map"
        (field "id" (named "u32") ⨾ field "name" (array (base char) (lit 16)) ⨾ end)
    ∷ forward "struct bpf_sock"
    ∷ struct_def a1 "struct __sk_buff" (
        field "len" (named "__u32")
        ⨾ field "pkt_type" (named "__u32")
        ⨾ field "mark" (named "__u32")
        ⨾ field "queue_mapping" (named "__u32")
        ⨾ field "protocol" (named "__u32")
        ⨾ field "vlan_present" (named "__u32")
        ⨾ field "vlan_tci" (named "__u32")
        ⨾ field "vlan_proto" (named "__u32")
        ⨾ field "priority" (named "__u32")
        ⨾ field "ingress_ifindex" (named "__u32")
        ⨾ field "ifindex" (named "__u32")
        ⨾ field "tc_index" (named "__u32")
        ⨾ field "cb" (array (named "__u32") (lit 5))
        ⨾ field "hash" (named "__u32")
        ⨾ field "tc_classid" (named "__u32")
        ⨾ field "data" (named "__u32")
        ⨾ field "data_end" (named "__u32")
        ⨾ field "napi_id" (named "__u32")
        ⨾ field "family" (named "__u32")
        ⨾ field "remote_ip4" (named "__u32")
        ⨾ field "local_ip4" (named "__u32")
        ⨾ field "remote_ip6" (array (named "__u32") (lit 4))
        ⨾ field "local_ip6" (array (named "__u32") (lit 4))
        ⨾ field "remote_port" (named "__u32")
        ⨾ field "local_port" (named "__u32")
        ⨾ field "data_meta" (named "__u32")
        ⨾ field "" (union_of (field "flow_keys" (pointer "struct bpf_flow_keys") ⨾ end))
        ⨾ field "tstamp" (named "__u64")
        ⨾ field "wire_len" (named "__u32")
        ⨾ field "gso_segs" (named "__u32")
        ⨾ field "" (union_of (field "sk" (pointer "struct bpf_sock") ⨾ end))
        ⨾ field "gso_size" (named "__u32")
        ⨾ end)
    ∷ []
