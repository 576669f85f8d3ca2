-- ===== src/Resolver/Fallback.antt =====
-- resolver.rs: which server's response a query takes.
use Prim.Native.String.{String}
use quantra_system.Base.{
  ℕ, ◌≡◌, ◌∙◌, refl, ap, ◌&&◌, Option, none, some, List, [], ◌∷◌, ◌++◌, if◌then◌else◌, map,
  Bool-cases, inl, inr,
}
use quantra_system.Base.Text.{Text}
use quantra_system.Resolver.Message.{IpAddr, DnsResponse, qtype_a, qtype_aaaa}
use quantra_system.Resolver.Cache.{DnsCache}
use quantra_system.Resolver.Cache
use quantra_system.Resolver.Lookup.{
  ResolverConfig, Network, query_udp, query_dot, taking, try_udp, try_dot, query_with_fallback,
  or_empty, found, query_both, resolved, resolve,
}

-- The first response of a list of answers.
abbrev pub first_some : List (Option DnsResponse) → Option DnsResponse
first_some [] = none
first_some (none ∷ os) = first_some os
first_some (some r ∷ os) = some r

abbrev pub addresses_of : Option DnsResponse → Option (List IpAddr)
addresses_of none = none
addresses_of (some r) = some r.addresses

-- What the servers answer, in the order in which they are asked.
abbrev pub answers : ResolverConfig → Network → Text → ℕ → List (Option DnsResponse)
answers c net name qtype =
    if c.dot_enabled && c.dot_first
    then map (query_dot net name qtype) c.dot_servers ++ map (query_udp net name qtype) c.servers
    else map (query_udp net name qtype) c.servers

module _ (c : ResolverConfig) (net : Network) (name : Text) (qtype : ℕ) (cache : DnsCache) where
  taking-first :
      (o : Option DnsResponse) (next : Option (List IpAddr) × DnsCache)
      (os : List (Option DnsResponse))
      → next.0 ≡ addresses_of (first_some os)
      → (taking c net name qtype cache o next).0 ≡ addresses_of (first_some (o ∷ os))
  taking-first none next os e = e
  taking-first (some r) next os e = refl

  try_udp-first :
      (ss : List IpAddr)
      → (try_udp c net name qtype cache ss).0
        ≡ addresses_of (first_some (map (query_udp net name qtype) ss))
  unfolding try_udp
  try_udp-first [] = refl
  try_udp-first (s ∷ ss) = taking-first (query_udp net name qtype s) _ _ (try_udp-first ss)

  try_dot-first :
      (ss : List String)
      → (try_dot c net name qtype cache ss).0
        ≡ addresses_of (
            first_some
              (map (query_dot net name qtype) ss ++ map (query_udp net name qtype) c.servers))
  unfolding try_dot
  try_dot-first [] = try_udp-first c.servers
  try_dot-first (s ∷ ss) = taking-first (query_dot net name qtype s) _ _ (try_dot-first ss)

  -- A query answers with the addresses of the first response that any server gives, whatever its
  -- code: first the TLS servers in their order, if they are to be used first, then the others. Only
  -- if there is none it is an error.
  pub query_with_fallback-first :
      (query_with_fallback c net name qtype cache).0
      ≡ addresses_of (first_some (answers c net name qtype))
  unfolding query_with_fallback
  query_with_fallback-first = elim (Bool-cases (c.dot_enabled && c.dot_first)) [
    | inl both ↦ rw both (try_dot-first c.dot_servers)
    | inr udp ↦ rw udp (try_udp-first c.servers)
  ]

abbrev pub addresses_or_none : List IpAddr → Option (List IpAddr)
addresses_or_none [] = none
addresses_or_none (a ∷ as') = some (a ∷ as')

found-addresses :
    (addrs : List IpAddr) (cache : DnsCache) → (found addrs cache).0 ≡ addresses_or_none addrs
found-addresses [] cache = refl
found-addresses (a ∷ as') cache = refl

resolved-queries :
    (c : ResolverConfig) (net : Network) (name : Text) (cache : DnsCache) (cached : List IpAddr)
    → cached ≡ []
    → resolved c net name cache cached ≡ query_both c net name cache
resolved-queries c net name cache [] e = refl
resolved-queries c net name cache (a ∷ as') e = cc

-- Where the cache has no address for a name, although it may know that the name does not exist, the
-- name is resolved as if nothing were cached: by a query for each of the two types.
pub resolve-uncached :
    (c : ResolverConfig) (net : Network) (name : Text) (cache : DnsCache)
    → or_empty (Cache.get net.now name qtype_a cache)
        ++ or_empty (Cache.get net.now name qtype_aaaa cache)
      ≡ []
    → (resolve c net name cache).0
      ≡ addresses_or_none (
          or_empty (addresses_of (first_some (answers c net name qtype_a)))
          ++ or_empty (addresses_of (first_some (answers c net name qtype_aaaa))))
unfolding resolve
resolve-uncached c net name cache empty =
    let after = (query_with_fallback c net name qtype_a cache).1 in
    rw (resolved-queries c net name cache _ empty) (
      found-addresses _ _
      ∙ ap addresses_or_none (
          rw
            (
              query_with_fallback-first c net name qtype_a cache,
              query_with_fallback-first c net name qtype_aaaa after,
            )
            refl))
