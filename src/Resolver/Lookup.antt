-- ===== src/Resolver/Lookup.antt =====
-- resolver.rs: the resolver over the cache and the servers. What a server sends back to the bytes of a
-- query is an argument: `none` is an error or a wait that expires.
use Prim.Native.String.{String}
use quantra_system.Base.{
  ℕ, ◌%◌, ◌^◌, ◌&&◌, Bool, true, Option, none, some, List, [], ◌∷◌, ◌++◌, if◌then◌else◌, ◌==◌, min,
  max,
}
use quantra_system.Base.Text.{Text}
use quantra_system.Resolver.Message.{
  IpAddr, v4, v6, qtype_a, qtype_aaaa, build_query, DnsResponse, parse_response,
}
use quantra_system.Resolver.Cache.{DnsCache}
use quantra_system.Resolver.Cache

pub record ResolverConfig : Type 0 where
  pub servers : List IpAddr
  pub dot_servers : List String
  pub dot_enabled : Bool
  pub dot_first : Bool
  pub max_ttl : ℕ
  pub min_ttl : ℕ

abbrev pub default_config : ResolverConfig
default_config = record {
  servers = v4 1 1 1 1 ∷ v4 8 8 8 8 ∷ [];
  dot_servers = "1.1.1.1:853" ∷ "8.8.8.8:853" ∷ "9.9.9.9:853" ∷ [];
  dot_enabled = true;
  dot_first = true;
  max_ttl = 3600;
  min_ttl = 60;
}

-- The clock, the number that the clock gives to the query to a server, and the servers' replies.
pub record Network : Type 0 where
  pub now : ℕ
  pub dot_id : String → ℕ → ℕ
  pub udp_id : IpAddr → ℕ → ℕ
  pub dot : String → List ℕ → Option (List ℕ)
  pub udp : IpAddr → List ℕ → Option (List ℕ)

abbrev pub parsed : Option (List ℕ) → Option DnsResponse
parsed none = none
parsed (some buf) = parse_response buf

unfoldable pub query_udp : Network → Text → ℕ → IpAddr → Option DnsResponse
query_udp net name qtype server =
    parsed (net.udp server (build_query name qtype (net.udp_id server qtype)))

unfoldable pub query_dot : Network → Text → ℕ → String → Option DnsResponse
query_dot net name qtype server =
    parsed (net.dot server (build_query name qtype (net.dot_id server qtype)))

abbrev pub rcode_nxdomain : ℕ
rcode_nxdomain = 3

-- `.max(min_ttl as u32).min(max_ttl as u32)`
abbrev pub clamp_ttl : ResolverConfig → ℕ → ℕ
clamp_ttl c ttl = min (max ttl (c.min_ttl % 2 ^ 32)) (c.max_ttl % 2 ^ 32)

abbrev pub store : ResolverConfig → Network → Text → ℕ → DnsResponse → DnsCache → DnsCache
store c net name qtype r cache =
    Cache.insert net.now name qtype r.addresses (clamp_ttl c r.min_ttl) (r.rcode == rcode_nxdomain)
      cache

-- The result, `none` for an error, with the cache.
abbrev pub Result : Type 0
Result = Option (List IpAddr) × DnsCache

abbrev pub taking :
    ResolverConfig → Network → Text → ℕ → DnsCache → Option DnsResponse → Result → Result
taking c net name qtype cache none next = next
taking c net name qtype cache (some r) next = (some r.addresses, store c net name qtype r cache)

module _ (c : ResolverConfig) (net : Network) (name : Text) (qtype : ℕ) (cache : DnsCache) where
  -- `for &server in &self.config.servers`
  unfoldable pub try_udp : List IpAddr → Result
  try_udp [] = (none, cache)
  try_udp (s ∷ ss) = taking c net name qtype cache (query_udp net name qtype s) (try_udp ss)

  -- `for dot_server in &self.config.dot_servers`, and what follows the loop.
  unfoldable pub try_dot : List String → Result
  try_dot [] = try_udp c.servers
  try_dot (s ∷ ss) = taking c net name qtype cache (query_dot net name qtype s) (try_dot ss)

  unfoldable pub query_with_fallback : Result
  query_with_fallback =
      if c.dot_enabled && c.dot_first then try_dot c.dot_servers else try_udp c.servers

abbrev pub or_empty : Option (List IpAddr) → List IpAddr
or_empty none = []
or_empty (some addrs) = addrs

abbrev pub found : List IpAddr → DnsCache → Result
found [] cache = (none, cache)
found (a ∷ as') cache = (some (a ∷ as'), cache)

-- The two queries run at once; here the one for A comes first.
abbrev pub query_both : ResolverConfig → Network → Text → DnsCache → Result
query_both c net name cache =
    let (addrs4, cache4) = query_with_fallback c net name qtype_a cache in
    let (addrs6, cache6) = query_with_fallback c net name qtype_aaaa cache4 in
    found (or_empty addrs4 ++ or_empty addrs6) cache6

abbrev pub resolved : ResolverConfig → Network → Text → DnsCache → List IpAddr → Result
resolved c net name cache [] = query_both c net name cache
resolved c net name cache (a ∷ as') = (some (a ∷ as'), cache)

unfoldable pub resolve : ResolverConfig → Network → Text → DnsCache → Result
resolve c net name cache = resolved c net name cache (
    or_empty (Cache.get net.now name qtype_a cache)
    ++ or_empty (Cache.get net.now name qtype_aaaa cache))

abbrev pub only_v4 : List IpAddr → List IpAddr
only_v4 [] = []
only_v4 (v4 a b c d ∷ as') = v4 a b c d ∷ only_v4 as'
only_v4 (v6 octets ∷ as') = only_v4 as'

abbrev pub filtered : Option (List IpAddr) → Option (List IpAddr)
filtered none = none
filtered (some addrs) = some (only_v4 addrs)

unfoldable pub resolve_v4 : ResolverConfig → Network → Text → DnsCache → Result
resolve_v4 c net name cache =
    let (addrs, cache') = query_with_fallback c net name qtype_a cache in (filtered addrs, cache')

unfoldable pub update_servers : List IpAddr → ResolverConfig → ResolverConfig
update_servers servers c = record c { servers = servers }

unfoldable pub set_dot_enabled : Bool → ResolverConfig → ResolverConfig
set_dot_enabled enabled c = record c { dot_enabled = enabled }

-- `servers.iter().filter_map(|s| s.parse().ok())`: a text that is no address is left out.
abbrev pub parse_all : (String → Option IpAddr) → List String → List IpAddr
parse_all parse [] = []
parse_all parse (s ∷ ss) = elim (parse s) [
  | none ↦ parse_all parse ss
  | some a ↦ a ∷ parse_all parse ss
]

abbrev pub updated : List IpAddr → ResolverConfig → ResolverConfig
updated [] c = c
updated (a ∷ as') c = update_servers (a ∷ as') c

unfoldable pub update_from_dhcp :
    (String → Option IpAddr) → List String → ResolverConfig → ResolverConfig
update_from_dhcp parse servers c = updated (parse_all parse servers) c
