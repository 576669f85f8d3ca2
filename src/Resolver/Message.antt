-- ===== src/Resolver/Message.antt =====
-- resolver.rs: the query builder and the response parser. A position in the buffer is the list of the
-- bytes from there on.
use quantra_system.Base.{
  ℕ, zero, suc, ◌+◌, ◌*◌, ◌/◌, ◌%◌, not, ◌&&◌, Bool, true, false, Option, none, some, List, [], ◌∷◌,
  ◌++◌, if◌then◌else◌, ◌==◌, ltb, length, get_or, take, drop, keep_if,
}
use quantra_system.Base.Text.{Text, u32_max}

abbrev pub qtype_a : ℕ
qtype_a = 1

abbrev pub qtype_aaaa : ℕ
qtype_aaaa = 28

pub data IpAddr : Type 0 where
  v4 : (a b c d : ℕ) → IpAddr
  v6 : (octets : List ℕ) → IpAddr

abbrev pub prepend : ℕ → List Text → List Text
prepend c [] = (c ∷ []) ∷ []
prepend c (piece ∷ pieces) = (c ∷ piece) ∷ pieces

-- `split('.')`
abbrev pub split : ℕ → Text → List Text
split sep [] = [] ∷ []
split sep (c ∷ s) = let rest = split sep s in if c == sep then [] ∷ rest else prepend c rest

abbrev pub is_empty : Text → Bool
is_empty [] = true
is_empty (c ∷ s) = false

unfoldable pub labels : Text → List Text
labels name = keep_if (λ label. not (is_empty label)) (split 46 name)

-- `label.len() as u8`, then the label; the root label ends the name.
abbrev pub qname : List Text → List ℕ
qname [] = 0 ∷ []
qname (label ∷ ls) = length label % 256 ∷ (label ++ qname ls)

abbrev pub be16 : ℕ → List ℕ
be16 n = n / 256 % 256 ∷ n % 256 ∷ []

unfoldable pub build_query : Text → ℕ → ℕ → List ℕ
build_query name qtype id =
    be16 id
    ++ 1 ∷ 0 ∷ 0 ∷ 1 ∷ 0 ∷ 0 ∷ 0 ∷ 0 ∷ 0 ∷ 0 ∷ (qname (labels name) ++ (be16 qtype ++ be16 1))

pub record DnsResponse : Type 0 where
  pub id : ℕ
  pub rcode : ℕ
  pub addresses : List IpAddr
  pub min_ttl : ℕ

-- `b & 0xC0 == 0xC0`
abbrev pub is_pointer : ℕ → Bool
is_pointer b = b / 64 % 4 == 3

-- The loop over the labels of the question, on fuel.
unfoldable pub skip_question : ℕ → List ℕ → List ℕ
skip_question zero rest = rest
skip_question (suc fuel) [] = []
skip_question (suc fuel) (b ∷ s) =
    let next = skip_question fuel (drop b s) in
    if b == 0 then b ∷ s else if is_pointer b then drop 1 s else next

abbrev pub skip_root : List ℕ → List ℕ
skip_root [] = []
skip_root (b ∷ s) = if b == 0 then s else b ∷ s

-- The loop over the labels of a record's name, on fuel.
unfoldable pub skip_labels : ℕ → List ℕ → List ℕ
skip_labels zero rest = rest
skip_labels (suc fuel) [] = []
skip_labels (suc fuel) (b ∷ s) =
    let next = skip_labels fuel (drop b s) in if b == 0 then b ∷ s else next

abbrev pub skip_name : List ℕ → List ℕ
skip_name [] = []
skip_name (b ∷ s) = if is_pointer b then drop 1 s else drop 1 (skip_labels (length (b ∷ s)) (b ∷ s))

pub record Record : Type 0 where
  pub rtype : ℕ
  pub ttl : ℕ
  pub rdata : List ℕ

-- The ten bytes before a record's data, and the data: `none` where the buffer ends before.
unfoldable pub fields : List ℕ → Option (Record × List ℕ)
fields (t1 ∷ t0 ∷ c1 ∷ c0 ∷ x3 ∷ x2 ∷ x1 ∷ x0 ∷ l1 ∷ l0 ∷ rest) =
    let rdlen = l1 * 256 + l0 in
    if ltb (length rest) rdlen
    then none
    else some (
      record {
        rtype = t1 * 256 + t0;
        ttl = x3 * 16777216 + x2 * 65536 + x1 * 256 + x0;
        rdata = take rdlen rest;
      },
      drop rdlen rest,
    )
fields _ = none

abbrev pub address_of : Record → List IpAddr
address_of r =
    if r.rtype == qtype_a && length r.rdata == 4
    then v4 (get_or r.rdata 0 0) (get_or r.rdata 1 0) (get_or r.rdata 2 0) (get_or r.rdata 3 0) ∷ []
    else if r.rtype == qtype_aaaa && length r.rdata == 16
    then v6 r.rdata ∷ []
    else []

-- The variables of the loop over the records.
pub record Found : Type 0 where
  pub addresses : List IpAddr
  pub min_ttl : ℕ

unfoldable pub add_record : Record → Found → Found
add_record r f = record {
  addresses = f.addresses ++ address_of r;
  min_ttl = if ltb r.ttl f.min_ttl then r.ttl else f.min_ttl;
}

-- `for _ in 0..ancount`
unfoldable pub read_answers : ℕ → List ℕ → Found → Found
read_answers zero rest f = f
read_answers (suc n) rest f = if ltb (length rest) 10 then f else elim (fields (skip_name rest)) [
  | none ↦ f
  | some (r, rest') ↦ read_answers n rest' (add_record r f)
]

unfoldable pub parse_response : List ℕ → Option DnsResponse
parse_response (i1 ∷ i0 ∷ f1 ∷ f0 ∷ q1 ∷ q0 ∷ a1 ∷ a0 ∷ n1 ∷ n0 ∷ r1 ∷ r0 ∷ rest) =
    let answers = drop 4 (skip_root (skip_question (length rest) rest)) in
    let found =
      read_answers (a1 * 256 + a0) answers (record { addresses = []; min_ttl = u32_max }) in
    some (record {
      id = i1 * 256 + i0;
      rcode = (f1 * 256 + f0) % 16;
      addresses = found.addresses;
      min_ttl = if found.min_ttl == u32_max then 300 else found.min_ttl;
    })
parse_response _ = none
