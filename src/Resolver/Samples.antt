-- ===== src/Resolver/Samples.antt =====
-- A small resolver, and the theorems applied to it.

use quantra_system.Base.{ℕ, map, ◌≤◌, ◌≡◌, refl, true, false, none, some, List, [], ◌∷◌, length}
use quantra_system.Base.Assoc
use quantra_system.Base.Text.{Text, codes}
use quantra_system.Resolver.Message.{
  IpAddr, v4, v6, Record, labels, build_query, parse_response, qtype_a, qtype_aaaa,
}
use quantra_system.Resolver.Message
use quantra_system.Resolver.Lookup
use quantra_system.Resolver.Roundtrip
use quantra_system.Resolver.Answers.{Answer, a, other, record_of}
use quantra_system.Resolver.Cache.{DnsCache, max_cache_entries, answer}
use quantra_system.Resolver.Cache
use quantra_system.Resolver.Refines.{Op, inserts, flushes, run, latest, step}
use quantra_system.Resolver.Refines
use quantra_system.Resolver.Lookup.{
  Network, ResolverConfig, default_config, query_with_fallback, query_udp, query_dot, resolve,
  or_empty,
}
use quantra_system.Resolver.Fallback.{first_some, addresses_of, answers, addresses_or_none}
use quantra_system.Resolver.Fallback

abbrev name : Text
name = codes "example.org."

-- An alias and an address, with their times to live.
abbrev records : List (Answer × ℕ)
records = (other 5 (192 ∷ 12 ∷ []), 60) ∷ (a 93 184 216 34, 120) ∷ []

-- A time to live that is the largest number is taken for none.
longest_lived :
    parse_response (
      Roundtrip.respond
        (build_query name 1 4660)
        0
        (map record_of ((a 93 184 216 34, 4294967295) ∷ [])))
    ≡ some (record { id = 4660; rcode = 0; addresses = v4 93 184 216 34 ∷ []; min_ttl = 300 })
unfolding parse_response build_query labels Message.skip_question Message.read_answers
    Message.add_record Message.fields
longest_lived = refl

abbrev history : List Op
history =
    inserts 100 name 1 (v4 93 184 216 34 ∷ []) 60 false
    ∷ inserts 50 name 1 (v4 10 0 0 1 ∷ []) 3600 false
    ∷ []

run-refines_example :
    (length (run history) ≤ max_cache_entries)
    × (answer 130 (latest history (name, 1)) ≡ some (v4 93 184 216 34 ∷ []))
unfolding Cache.get run step Cache.insert Assoc.insert Assoc.get
run-refines_example = Refines.run-refines history 130 name 1 (v4 93 184 216 34 ∷ []) refl

-- No server answers over TLS, and the first of the others refuses.
abbrev network : Network
network = record {
  now = 1000;
  dot_id = λ server qtype. 7;
  udp_id = λ server qtype. 8;
  dot = λ server query. none;
  udp = λ server query. some (Roundtrip.respond query 2 []);
}

query_with_fallback-first_example :
    (query_with_fallback default_config network name 1 []).0
    ≡ addresses_of (first_some (answers default_config network name 1))
query_with_fallback-first_example =
    Fallback.query_with_fallback-first default_config network name 1 []

-- A refusal is taken for an answer without addresses.
takes_refusal : (query_with_fallback default_config network name 1 []).0 ≡ some []
unfolding query_with_fallback Lookup.try_dot Lookup.try_udp query_udp query_dot parse_response
    build_query labels Message.skip_question Message.read_answers
takes_refusal = refl

-- The name is known not to exist, for both types.
abbrev negative : DnsCache
negative = run (inserts 990 name 1 [] 60 true ∷ inserts 990 name 28 [] 60 true ∷ [])
