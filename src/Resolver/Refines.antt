-- ===== src/Resolver/Refines.antt =====
-- resolver.rs: the cache is a bounded part of the map of all answers.
use quantra_system.Base.{
  ℕ, suc, ◌≤◌, ◌<◌, ◌≡◌, refl, Bool, Option, none, some, List, [], ◌∷◌, if◌then◌else◌, ltb, length,
  arith, Bool-cases, inl, inr, ◌⊎◌,
}
use quantra_system.Base.Text.{Text}
use quantra_system.Base.Assoc.{Eq, beq_refl, get-insert, get-remove}
use quantra_system.Base.Assoc
use quantra_system.Resolver.Message.{IpAddr}
use quantra_system.Resolver.Cache.{
  CacheEntry, Key, key_eq, DnsCache, max_cache_entries, answer, oldest_from, evict, make_room,
  entry,
}
use quantra_system.Resolver.Cache

pub data Op : Type 0 where
  inserts :
      (now : ℕ) (name : Text) (qtype : ℕ) (addrs : List IpAddr) (ttl : ℕ) (nxdomain : Bool) → Op
  flushes : Op

unfoldable pub step : Op → DnsCache → DnsCache
step (inserts now name qtype addrs ttl nxdomain) = Cache.insert now name qtype addrs ttl nxdomain
step flushes = Cache.flush

-- The cache after a history, the newest operation first.
unfoldable pub run : List Op → DnsCache
run [] = []
run (op ∷ ops) = step op (run ops)

-- The latest entry for a key, without any bound.
unfoldable pub latest : List Op → Key → Option CacheEntry
latest [] k = none
latest (inserts now name qtype addrs ttl nxdomain ∷ ops) k =
    let rest = latest ops k in
    if key_eq.beq (name, qtype) k then some (entry now addrs ttl nxdomain) else rest
latest (flushes ∷ ops) k = none

-- Lengths.
length-insert :
    (k : Key) (e : CacheEntry) (m : DnsCache) → length (Assoc.insert k e m) ≤ suc (length m)
unfolding Assoc.insert
length-insert k e [] = omega arith
length-insert k e ((j, f) ∷ m) = ground (arith, length-insert k e m)

length-remove : (k : Key) (m : DnsCache) → length (Assoc.remove k m) ≤ length m
unfolding Assoc.remove
length-remove k [] = omega arith
length-remove k ((j, f) ∷ m) = ground (arith, length-remove k m)

length-remove_held :
    (k : Key) (m : DnsCache) (e : CacheEntry)
    → Assoc.get k m ≡ some e
    → length (Assoc.remove k m) < length m
unfolding Assoc.remove Assoc.get
length-remove_held k [] e h = cc
length-remove_held k ((j, f) ∷ m) e h = ground (arith, length-remove k m, length-remove_held k m e)

-- A key of the cache.
abbrev IsHeld : Key → DnsCache → Type 0
IsHeld k m = (f : CacheEntry) × (Assoc.get k m ≡ some f)

first-IsHeld : (k : Key) (e : CacheEntry) (m : DnsCache) → IsHeld k ((k, e) ∷ m)
unfolding Assoc.get
first-IsHeld k e m = (e, ground (arith, beq_refl ⦃e = key_eq⦄ k))

later-IsHeld : (k j : Key) (e : CacheEntry) (m : DnsCache) → IsHeld k m → IsHeld k ((j, e) ∷ m)
unfolding Assoc.get
later-IsHeld k j e m (f, h) = elim (Bool-cases (key_eq.beq j k)) [
  | inl here ↦ (e, ground (arith, here))
  | inr other ↦ (f, ground (arith, other))
]

-- The key that is evicted is one of the cache's.
oldest-IsHeld :
    (k : Key) (e : CacheEntry) (m : DnsCache)
    → (oldest_from k e m ≡ k) ⊎ IsHeld (oldest_from k e m) m
unfolding oldest_from
oldest-IsHeld k e [] = inl refl
oldest-IsHeld k e ((j, f) ∷ m) = elim (Bool-cases (ltb f.expires e.expires)) [
  | inl earlier ↦ rw earlier (elim (oldest-IsHeld j f m) [
    | inl same ↦ inr (rw same (first-IsHeld j f m))
    | inr held ↦ inr (later-IsHeld (oldest_from j f m) j f m held)
  ])
  | inr later ↦ rw later (elim (oldest-IsHeld k e m) [
    | inl same ↦ inl same
    | inr held ↦ inr (later-IsHeld (oldest_from k e m) j f m held)
  ])
]

evict_shorter : (k : Key) (e : CacheEntry) (m : DnsCache) → length (evict ((k, e) ∷ m)) ≤ length m
unfolding evict
evict_shorter k e m = elim (oldest-IsHeld k e m) [
  | inl same ↦
      let (f, h) = first-IsHeld k e m in
      rw same (omega (arith, length-remove_held k ((k, e) ∷ m) f h))
  | inr held ↦
      let (f, h) = later-IsHeld (oldest_from k e m) k e m held in
      omega (arith, length-remove_held (oldest_from k e m) ((k, e) ∷ m) f h)
]

length-make_room :
    (m : DnsCache) → length m ≤ max_cache_entries → length (make_room m) < max_cache_entries
length-make_room [] le = omega arith
length-make_room ((k, e) ∷ m) le = ground (arith, evict_shorter k e m)

run-length : (ops : List Op) → length (run ops) ≤ max_cache_entries
unfolding run step Cache.insert Cache.flush
run-length [] = omega arith
run-length (inserts now name qtype addrs ttl nxdomain ∷ ops) = omega (
  arith,
  length-make_room (run ops) (run-length ops),
  length-insert (name, qtype) (entry now addrs ttl nxdomain) (make_room (run ops)),
)
run-length (flushes ∷ ops) = omega arith

make_room-get :
    (m : DnsCache) (k : Key) (e : CacheEntry)
    → Assoc.get k (make_room m) ≡ some e
    → Assoc.get k m ≡ some e
unfolding evict
make_room-get [] k e h = h
make_room-get ((j, f) ∷ m) k e h = ground (arith, get-remove k (oldest_from j f m) ((j, f) ∷ m))

run-latest :
    (ops : List Op) (k : Key) (e : CacheEntry)
    → Assoc.get k (run ops) ≡ some e
    → latest ops k ≡ some e
unfolding run step latest Cache.insert Cache.flush Assoc.get
run-latest [] k e h = h
run-latest (inserts now name qtype addrs ttl nxdomain ∷ ops) k e h = ground (
  arith,
  get-insert k (name, qtype) (entry now addrs ttl nxdomain) (make_room (run ops)),
  make_room-get (run ops) k e,
  run-latest ops k e,
)
run-latest (flushes ∷ ops) k e h = ground arith

answer-latest :
    (now : ℕ) (o p : Option CacheEntry) (addrs : List IpAddr)
    → ((e : CacheEntry) → o ≡ some e → p ≡ some e)
    → answer now o ≡ some addrs
    → answer now p ≡ some addrs
answer-latest now none p addrs f h = cc
answer-latest now (some e) p addrs f h = rw (f e refl) h

-- After any history of insertions and flushes the cache has at most 1024 entries, and what it answers
-- for a name and a query type is what the latest insertion of the two since the last flush answers,
-- were nothing ever evicted: it forgets, and never invents or keeps an old answer.
pub run-refines :
    (ops : List Op) (now : ℕ) (name : Text) (qtype : ℕ) (addrs : List IpAddr)
    → Cache.get now name qtype (run ops) ≡ some addrs
    → (length (run ops) ≤ max_cache_entries) × (answer now (latest ops (name, qtype)) ≡ some addrs)
unfolding Cache.get
run-refines ops now name qtype addrs h = (
  run-length ops,
  answer-latest now (Assoc.get (name, qtype) (run ops)) _ addrs (run-latest ops (name, qtype)) h,
)
