-- ===== src/Resolver/Answers.antt =====
-- resolver.rs: what the records of a response say, and what the parser's loop gathers of them.
use quantra_system.Base.{
  ℕ, ◌<◌, ◌≤◌, ◌≡◌, refl, ap, ◌∙◌, List, [], ◌∷◌, ◌++◌, if◌then◌else◌, ltb, length, All, arith, ◌⊎◌,
  ◌≢◌, min, map,
}
use mathlib.Core.List.{append_assoc, append-nil}
use quantra_system.Resolver.Message.{Record, Found, add_record, IpAddr, v4, v6, address_of}

-- The numbers of a record fit their fields.
abbrev pub Fits : Record → Type 0
Fits r = (r.rtype < 65536) × (r.ttl < 4294967296) × (length r.rdata < 65536)

abbrev pub add_all : List Record → Found → Found
add_all [] f = f
add_all (r ∷ rs) f = add_all rs (add_record r f)

-- A record by what it is: an address, with its octets, or one of another type or length.
pub data Answer : Type 0 where
  a : (w x y z : ℕ) → Answer
  aaaa : (octets : List ℕ) → Answer
  other : (rtype : ℕ) (rdata : List ℕ) → Answer

abbrev pub record_of : Answer × ℕ → Record
record_of (a w x y z, ttl) = record { rtype = 1; ttl = ttl; rdata = w ∷ x ∷ y ∷ z ∷ [] }
record_of (aaaa octets, ttl) = record { rtype = 28; ttl = ttl; rdata = octets }
record_of (other rtype rdata, ttl) = record { rtype = rtype; ttl = ttl; rdata = rdata }

-- The length of an address, and that no other record is one; the numbers fit their fields.
abbrev pub IsAnswer : Answer × ℕ → Type 0
IsAnswer (a w x y z, ttl) = ttl < 4294967296
IsAnswer (aaaa octets, ttl) = (length octets ≡ 16) × (ttl < 4294967296)
IsAnswer (other rtype rdata, ttl) =
    ((rtype ≢ 1) ⊎ (length rdata ≢ 4))
    × ((rtype ≢ 28) ⊎ (length rdata ≢ 16))
    × (rtype < 65536)
    × (length rdata < 65536)
    × (ttl < 4294967296)

abbrev pub addresses : List (Answer × ℕ) → List IpAddr
addresses [] = []
addresses ((a w x y z, ttl) ∷ rs) = v4 w x y z ∷ addresses rs
addresses ((aaaa octets, ttl) ∷ rs) = v6 octets ∷ addresses rs
addresses ((other rtype rdata, ttl) ∷ rs) = addresses rs

-- The least time to live, or the largest number of 32 bits without records.
abbrev pub least : List (Answer × ℕ) → ℕ
least [] = 4294967295
least ((r, ttl) ∷ rs) = min ttl (least rs)

pub record_of-Fits : (r : Answer × ℕ) → IsAnswer r → Fits (record_of r)
record_of-Fits (a w x y z, ttl) h = (omega arith, h, omega arith)
record_of-Fits (aaaa octets, ttl) h = (omega arith, h.1, omega (arith, h.0))
record_of-Fits (other rtype rdata, ttl) (n, m, t, l, u) = (t, u, l)

other-address :
    (rtype ttl : ℕ) (rdata : List ℕ)
    → ((rtype ≢ 1) ⊎ (length rdata ≢ 4))
    → ((rtype ≢ 28) ⊎ (length rdata ≢ 16))
    → address_of (record_of (other rtype rdata, ttl)) ≡ []
other-address rtype ttl rdata n m = ground arith

first_address :
    (r : Answer × ℕ) (rs : List (Answer × ℕ))
    → IsAnswer r
    → address_of (record_of r) ++ addresses rs ≡ addresses (r ∷ rs)
first_address (a w x y z, ttl) rs h = refl
first_address (aaaa octets, ttl) rs h = rw h.0 refl
first_address (other rtype rdata, ttl) rs h = rw (other-address rtype ttl rdata h.0 h.1) refl

least-first : (ttl m l : ℕ) → min (if ltb ttl m then ttl else m) l ≡ min m (min ttl l)
least-first ttl m l = ground arith

record_of-ttl : (r : Answer × ℕ) → (record_of r).ttl ≡ r.1
record_of-ttl (a w x y z, ttl) = refl
record_of-ttl (aaaa octets, ttl) = refl
record_of-ttl (other rtype rdata, ttl) = refl

pub add_all-answers :
    (rs : List (Answer × ℕ)) (f : Found)
    → All IsAnswer rs
    → f.min_ttl ≤ 4294967295
    → add_all (map record_of rs) f
      ≡ record { addresses = f.addresses ++ addresses rs; min_ttl = min f.min_ttl (least rs) }
unfolding add_record
add_all-answers [] f h le =
    let full : min f.min_ttl 4294967295 ≡ f.min_ttl = omega (arith, le) in
    rw (append-nil f.addresses, full) refl
add_all-answers ((r, ttl) ∷ rs) f h le =
    let step = add_record (record_of (r, ttl)) f in
    let same = record_of-ttl (r, ttl) in
    let small : step.min_ttl ≤ 4294967295 = rw same (ground (arith, le)) in
    let found : step.addresses ++ addresses rs ≡ f.addresses ++ addresses ((r, ttl) ∷ rs) =
      append_assoc f.addresses (address_of (record_of (r, ttl))) (addresses rs)
      ∙ ap (λ l. f.addresses ++ l) (first_address (r, ttl) rs h.0) in
    let time : min step.min_ttl (least rs) ≡ min f.min_ttl (min ttl (least rs)) =
      rw same (least-first ttl f.min_ttl (least rs)) in
    add_all-answers rs step h.1 small
    ∙ ap (λ l. record { addresses = l; min_ttl = min step.min_ttl (least rs) }) found
    ∙ ap (λ t. record { addresses = f.addresses ++ addresses ((r, ttl) ∷ rs); min_ttl = t }) time
