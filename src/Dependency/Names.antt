-- ===== src/Dependency/Names.antt =====
-- dependency.rs: the map from names to indices finds a service that bears the name.
use Prim.Native.String.{String}
use text.Mathlib.Text.{◌==◌ as str_eq}
use quantra_system.Base.{
  ℕ, suc, ◌+◌, ◌<◌, ◌≡◌, sym, inl, inr, Bool, true, some, List, [], ◌∷◌, arith, length, get_or, any,
  subst, Option-cases, Bool-cases,
}
use quantra_system.Dependency.{Service, blank, index_from, name_to_idx}

-- The map returns the index of a service that bears the name.
pub record Names (services : List Service) (name : String) (j : ℕ) : Type 0 where
  pub inside : j < length services
  pub bears : str_eq (get_or services j blank).name name ≡ true

-- The same for the tail of the list that starts at index `i`.
record NamesFrom (i : ℕ) (services : List Service) (name : String) (j : ℕ) : Type 0 where
  offset : ℕ
  shifted : j ≡ i + offset
  named : Names services name offset

NamesFrom-cons :
    (i : ℕ) (s : Service) (rest : List Service) (name : String) (j : ℕ)
    → NamesFrom (suc i) rest name j
    → NamesFrom i (s ∷ rest) name j
NamesFrom-cons i s rest name j h = record {
  offset = suc h.offset;
  shifted = omega (arith, h.shifted);
  named = record { inside = omega (arith, h.named.inside); bears = h.named.bears };
}

index_from-NamesFrom :
    (i : ℕ) (services : List Service) (name : String) (j : ℕ)
    → index_from i services name ≡ some j
    → NamesFrom i services name j
unfolding index_from
index_from-NamesFrom i [] name j e = cc
index_from-NamesFrom i (s ∷ rest) name j e = elim (Option-cases (index_from (suc i) rest name)) [
  | inr (k, found) ↦
      NamesFrom-cons i s rest name j
        (index_from-NamesFrom (suc i) rest name j (ground (arith, e, found)))
  | inl missing ↦ elim (Bool-cases (str_eq s.name name)) [
    | inl hit ↦ record {
      offset = 0;
      shifted = ground arith;
      named = record { inside = omega arith; bears = hit };
    }
    | inr miss ↦ absurd (ground arith)
  ]
]

-- Some service bears the name.
abbrev pub provides : String → List Service → Bool
provides name services = any (λ s. str_eq s.name name) services

index_from_found :
    (i : ℕ) (services : List Service) (name : String)
    → provides name services ≡ true
    → (j : ℕ) × (index_from i services name ≡ some j)
unfolding index_from
index_from_found i [] name h = cc
index_from_found i (s ∷ rest) name h = elim (Option-cases (index_from (suc i) rest name)) [
  | inr (k, found) ↦ (k, ground arith)
  | inl missing ↦ elim (Bool-cases (str_eq s.name name)) [
    | inl hit ↦ (i, ground arith)
    | inr miss ↦
        let (k, found) = index_from_found (suc i) rest name (ground arith) in (k, ground arith)
  ]
]

pub name_to_idx-Names :
    (services : List Service) (name : String) (j : ℕ)
    → name_to_idx services name ≡ some j
    → Names services name j
name_to_idx-Names services name j e =
    let h = index_from-NamesFrom 0 services name j e in
    let same : j ≡ h.offset = omega (arith, h.shifted) in
    subst (Names services name) (sym same) h.named

pub name_to_idx_found :
    (services : List Service) (name : String)
    → provides name services ≡ true
    → (j : ℕ) × (name_to_idx services name ≡ some j)
name_to_idx_found services = index_from_found 0 services
