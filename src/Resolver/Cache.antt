-- ===== src/Resolver/Cache.antt =====
-- resolver.rs: the cache of answers. A key is a name with a query type, from which the source makes the
-- text "name:type"; an instant is a number of seconds.
use quantra_system.Base.{
  ℕ, ◌+◌, ◌≡◌, subst, ◌&&◌, Bool, true, Option, none, some, List, [], ◌∷◌, if◌then◌else◌, ◌==◌, ltb,
  leb, length, arith,
}
use quantra_system.Base.Text.{Text, text_eq_sound, text_eq_refl, text_eq}
use quantra_system.Base.Assoc.{Eq}
use quantra_system.Base.Assoc
use quantra_system.Resolver.Message.{IpAddr}

pub record CacheEntry : Type 0 where
  pub addresses : List IpAddr
  pub expires : ℕ
  pub nxdomain : Bool

abbrev pub Key : Type 0
Key = Text × ℕ

abbrev pub key_beq : Key → Key → Bool
key_beq (name, qtype) (name', qtype') = text_eq name name' && qtype == qtype'

pub key_beq_sound : (j k : Key) → key_beq j k ≡ true → j ≡ k
key_beq_sound (s, m) (t, n) h = ground (arith, text_eq_sound s t)

pub key_beq_complete : (j k : Key) → j ≡ k → key_beq j k ≡ true
key_beq_complete (s, m) k e =
    subst (λ x. key_beq (s, m) x ≡ true) e (ground (arith, text_eq_refl s))

instance abbrev pub key_eq : Eq Key
key_eq = record { beq = key_beq; beq_iff = λ j k. (key_beq_sound j k, key_beq_complete j k) }

abbrev pub DnsCache : Type 0
DnsCache = List (Key × CacheEntry)

abbrev pub max_cache_entries : ℕ
max_cache_entries = 1024

-- What an entry answers: nothing once it has expired, and no address for a name that does not exist.
abbrev pub answer : ℕ → Option CacheEntry → Option (List IpAddr)
answer now none = none
answer now (some e) =
    if ltb e.expires now then none else if e.nxdomain then some [] else some e.addresses

unfoldable pub get : ℕ → Text → ℕ → DnsCache → Option (List IpAddr)
get now name qtype cache = answer now (Assoc.get (name, qtype) cache)

-- `min_by_key`: the first key of the earliest expiry.
unfoldable pub oldest_from : Key → CacheEntry → DnsCache → Key
oldest_from k e [] = k
oldest_from k e ((j, f) ∷ m) =
    let here = oldest_from j f m in
    let there = oldest_from k e m in if ltb f.expires e.expires then here else there

unfoldable pub evict : DnsCache → DnsCache
evict [] = []
evict ((k, e) ∷ m) = Assoc.remove (oldest_from k e m) ((k, e) ∷ m)

abbrev pub make_room : DnsCache → DnsCache
make_room cache = if leb max_cache_entries (length cache) then evict cache else cache

abbrev pub entry : ℕ → List IpAddr → ℕ → Bool → CacheEntry
entry now addrs ttl nxdomain = record {
  addresses = addrs;
  expires = now + ttl;
  nxdomain = nxdomain;
}

unfoldable pub insert : ℕ → Text → ℕ → List IpAddr → ℕ → Bool → DnsCache → DnsCache
insert now name qtype addrs ttl nxdomain cache =
    Assoc.insert (name, qtype) (entry now addrs ttl nxdomain) (make_room cache)

unfoldable pub flush : DnsCache → DnsCache
flush cache = []
