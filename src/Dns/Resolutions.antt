-- ===== src/Dns/Resolutions.antt =====
-- `IP2DNS` of dns/resolutions.go, `Noop` of dns/noop.go and `dnsStorage` of exporter/ip2dns.go.
-- `from_std_ip` is `netaddr.FromStdIP`; an int32 is its bit pattern.
use egressd.Prelude.{
  ℕ, Option, none, some, List, [], ◌∷◌, map, String, if◌then◌else◌, ◌==◌, nat_comparable,
  string_comparable,
}
use egressd.Net.{NetAddr, to_ip_int32}
use egressd.Dns.{Cache}
use egressd.Collector.Handler.{Ip2Domain}

-- `layers.DNSResourceRecord`, by the fields that are read.
pub data DnsType : Type 0 where
  a cname other_type : DnsType

pub record Answer : Type 0 where
  pub name : String
  pub type : DnsType
  pub ip : List ℕ
  pub cname_target : String

abbrev pub default_dns_ttl : ℕ
default_dns_ttl = 120000000000

abbrev pub or_name : String → Option String → String
or_name name none = name
or_name name (some found) = found

module _ (net : NetAddr) (ips : Cache ℕ String) (names : Cache String String) where
  pub record Ip2Dns : Type 0 where
    pub ip_to_name : ips.Store
    pub cname_to_name : names.Store

  -- The switch over the type of an answer. `none` is the panic of `As4`.
  unfoldable pub handle_type : ℕ → Answer → DnsType → Ip2Dns → Option Ip2Dns
  handle_type now answer a d =
      let name = or_name answer.name (names.get now answer.name d.cname_to_name) in
      elim (net.from_std_ip answer.ip) [
        | none ↦ none
        | some ip ↦ some (record d {
          ip_to_name = ips.set now (to_ip_int32 net ip) name default_dns_ttl d.ip_to_name;
        })
      ]
  handle_type now answer cname d = some (record d {
    cname_to_name = names.set now answer.cname_target answer.name default_dns_ttl d.cname_to_name;
  })
  handle_type now answer other_type d = some d

  -- The loop over the answers of an event.
  unfoldable pub handle_answers : ℕ → List Answer → Ip2Dns → Option Ip2Dns
  handle_answers now [] d = some d
  handle_answers now (answer ∷ answers) d = elim (handle_type now answer answer.type d) [
    | none ↦ none
    | some d' ↦ handle_answers now answers d'
  ]

  abbrev pub record_of : ℕ → Ip2Dns → ℕ → Ip2Domain
  record_of now d ip = record { ip = ip; domain = or_name "" (ips.get now ip d.ip_to_name) }

  unfoldable pub records : ℕ → Ip2Dns → List Ip2Domain
  records now d = map (record_of now d) (ips.keys d.ip_to_name)

  -- `dnsStorage` keeps a name for an hour.
  abbrev pub storage_dns_ttl : ℕ
  storage_dns_ttl = 3600000000000

  unfoldable pub fill : ℕ → List Ip2Domain → ips.Store → ips.Store
  fill now [] s = s
  fill now (item ∷ items) s = fill now items (ips.set now item.ip item.domain storage_dns_ttl s)

  unfoldable pub storage_lookup : ℕ → ℕ → ips.Store → String
  storage_lookup now ip s = if ip == 0 then "" else or_name "" (ips.get now ip s)
