-- ===== src/Resolver/Roundtrip.antt =====
-- resolver.rs: what the parser reads in a server's response to a query that the builder made.
use quantra_system.Base.{ℕ, ◌+◌, ◌/◌, ◌%◌, ◌<◌, List, [], ◌∷◌, ◌++◌, length, take, drop}
use quantra_system.Base.Text.{Text}
use quantra_system.Resolver.Message.{Record}

-- A record with the name of the question, as a pointer to it.
abbrev pub encode : Record → List ℕ
encode r =
    192
    ∷ 12
    ∷ r.rtype / 256 % 256
    ∷ r.rtype % 256
    ∷ 0
    ∷ 1
    ∷ r.ttl / 16777216 % 256
    ∷ r.ttl / 65536 % 256
    ∷ r.ttl / 256 % 256
    ∷ r.ttl % 256
    ∷ length r.rdata / 256 % 256
    ∷ length r.rdata % 256
    ∷ r.rdata

abbrev pub encode_all : List Record → List ℕ
encode_all [] = []
encode_all (r ∷ rs) = encode r ++ encode_all rs

-- A server's answer to a query: the number and the question of the query, with the records.
abbrev pub respond : List ℕ → ℕ → List Record → List ℕ
respond query rcode rs =
    take 2 query
    ++ (129
        ∷ (128 + rcode)
        ∷ 0
        ∷ 1
        ∷ length rs / 256 % 256
        ∷ length rs % 256
        ∷ 0
        ∷ 0
        ∷ 0
        ∷ 0
        ∷ (drop 12 query ++ encode_all rs))

-- A label that is not empty and is not taken for a pointer.
abbrev pub IsLabel : Text → Type 0
IsLabel label = (0 < length label) × (length label < 192)
