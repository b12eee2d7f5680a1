-- ===== src/Lib.antt =====
-- A verification library of egressd, which measures the network traffic of the pods of a Kubernetes
-- cluster. On each node a collector (collector/collector.go) reads the node's connection table
-- (conntrack/nf_conntrack.go) every few seconds, takes the growth of each connection's counters since
-- the last reading, and adds it up per group of connections. Beside it an eBPF program
-- (ebpf/c/egressd.c) reports the DNS packets of the node, whose answers name addresses
-- (dns/resolutions.go). An HTTP request takes the sums and the names; in delta mode this sets the sums
-- to zero. The exporter (exporter/exporter.go) asks every collector in turn, joins the sums with the
-- pods and nodes of the cluster (kube/watcher.go, kube/podbyipcache.go) and the names with the
-- addresses (exporter/ip2dns.go), and pushes the result to its sinks.
--
-- Which file models which part:
--   Prelude          tests, lists, and Go maps as association lists in the order of one range
--   Net              addresses as int32: ToIPint32 of dns/resolutions.go is to_ip_int32, and
--                    ipFromInt32 of exporter/exporter.go is ip_from_int32
--   Conntrack        conntrack/conntrack.go; Netfilter is ListEntries of nf_conntrack.go, with its nil
--                    dereferences as an outcome; KernelHz is kernel_hz.go and init of time.go;
--                    Cilium is listRecords of cilium_conntrack_linux.go and kernelTimeDiffSecondsFunc
--                    of time.go
--   Collector        the state of collector/collector.go and New; Collect has collect and cleanup,
--                    Handler has GetRawNetworkMetricsHandler, writeGzipBody and writePlainBody
--   Ebpf.Egress      cgroup_ingress, cgroup_skb_generic and get_pid of ebpf/c/egressd.c, over the memory
--                    of a nethdrs
--   Ebpf.Headers     the declarations of vmlinux.h, vmlinux_flavors.h, vmlinux_missing.h and types.h of
--                    ebpf/c/include, as lists of Ctype's Decl in the order of the source; a name of the
--                    source is a string. Layout and Declare are what a compiler makes of them: sizes,
--                    offsets and values of constants; Program puts the headers together for a target
--   Ebpf.Reads       how a field of a declared type is found and read
--   Ebpf.Missing     the functions and the macros with arguments of vmlinux_missing.h
--   Ebpf.Maps        the macros of maps.h, and the map of egressd.c
--   Kube             the objects that are read; Running is RunningPodsCache and Nodes the two node
--                    caches of kube/watcher.go; ByIp is PodByIPCache of kube/podbyipcache.go
--   Dns              Tracer is the loop of Run and parseEvent of ebpf/tracer_linux.go, and NewTracer of
--                    tracer.go; Startup is Run around its loop, detectCgroupPath, InitCgroupv2 and
--                    mountCgroup2; Resolutions has the loop of dns/resolutions.go and Records, and
--                    Fill and Lookup of exporter/ip2dns.go
--   Exporter         Fetch is fetchRawNetworkMetricsBatch, Build is buildPodNetworkMetric and Export is
--                    export and its parts, all of exporter/exporter.go
--   Exporter.Config  Load of exporter/config/config.go
--   Sinks            Http is HTTPSink.Push of exporter/sinks/http.go, Prom is Push and pushMetric
--                    of prom.go
--   Pipeline         where the parts meet: a packet that enters the cgroup becomes an event of the
--                    perf map, the event a record of the tracer, and the record a name in the exporter
--                    (Answers); an export asks each collector once, and its sinks get what the
--                    collectors give up (Delivery); Watcher is kubeWatcher of cmd/exporter/main.go
--   Tests            the theorems at concrete inputs, and runs of the definitions
-- The other files below these prove what the list at the end says. A Go name in camel case is the
-- same name in snake case here. A loop of the source is a function on its list, and a body that the
-- source writes in one piece is cut at its branches into the functions that the order of the source
-- composes.
--
-- Collector.Ledger interleaves the collector: a history is any sequence of collections, requests and
-- cleanups, each one a step, since the source holds its lock throughout each. The collector meets the
-- connection table through the entries of Conntrack, the exporter meets the collector through the
-- batch of Collector.Handler, and the caches of Kube through the interface KubeWatcher, whose lookup
-- of a pod by its address changes the state.
--
-- Integers: an int64, uint64 or int32 is its bit pattern, a number below a power of two, and a sum
-- wraps where the source's does. A time is in nanoseconds since the zero time. Every loop of the
-- source that is modelled goes over a list. Only Declare.eval, the expansion of macros, counts its
-- depth: it stops at eight, and the deepest of the headers needs four.
--
-- The headers are compiled for x86 and arm64, on which a long and a pointer have eight bytes,
-- numbers are little-endian, bit fields fill their unit from the lowest bit, and no type of the
-- headers is aligned to more than eight bytes. A literal stands without its suffix, and so for the
-- macros that paste one (_AC, _UL). The attribute preserve_access_index, which lets the loader move
-- an access to where the running kernel has the field, does not change the layout that is compiled.
--
-- Parameters stand for what is not in this repository, with the behaviour that its documentation
-- states: the addresses of inet.af/netaddr (NetAddr), the hash of hash/maphash, the connections that
-- the netlink library lists, the indexer of client-go (Indexer, Indexes), the expiring cache of
-- go-generics-cache (Cache), the helpers of the kernel (SkBuff, Loads), the packets that gopacket
-- decodes (Layer, Decodes), the backoff of apimachinery (Backoff), and the answers of protobuf, gzip,
-- the clock, the file system and the HTTP client (HttpClient, Reaches). What an HTTP server sends may
-- break off: the gzip writer cannot be closed (Library), or the connection breaks once the handler is
-- done (Site). Of bpf_perf_event_output and the reader of its events (Fate, raw_sample): an event is
-- read whole, with the payload, as many bytes of the packet as the upper half of the flags says, and
-- garbage that may fill the record; or it is lost, with a record that counts it or without one. Of the
-- client of net/http (answer_of): it asks for gzip by itself and undoes it, and cannot read a
-- compressed body that breaks off. netaddr.FromStdIP may fail on the data of a DNS answer
-- (from_std_ip), and the panic of As4 that follows is an outcome of the loop over the answers; the
-- netlink library is asked for IPv4 alone, so that its addresses convert (ip_from_std_ip). What the
-- goroutines of an export leave open is a parameter: the order in which the batches arrive, and where
-- the goroutine finds the context done. So is for which capacities the runtime makes a channel; a
-- negative count of concurrent fetches panics there, and a count of 0 lets no fetch begin.
--
-- Not modelled: logging beyond the lines that an export writes, gauges, flags, servers and signals
-- (cmd), the netlink and HTTP transports, the generated code of pb and ebpf, the headers of libbpf in
-- ebpf/c/include (bpf_helper_defs.h, bpf_helpers.h, bpf_core_read.h, bpf_tracing.h and bpf_endian.h),
-- and the relocation of accesses when the program is loaded.
pub mod Collector
pub mod Conntrack
pub mod Dns
pub mod Ebpf
pub mod Exporter
pub mod Kube
pub mod Net
pub mod Pipeline
pub mod Prelude
pub mod Sinks
pub mod Tests
