-- ===== src/Ramfs/Switch/Chosen.antt =====
-- switch.rs: whether the init that is chosen is there.
use quantra_system.Base.{
  ◌≡◌, refl, Bool, true, false, Option, none, some, List, [], ◌∷◌, ◌++◌, find, All, Bool-cases, inl,
  inr, if-both,
}
use quantra_system.Base.Text.{Text, codes, text_eq, text_eq_sound}
use quantra_system.Ramfs.Switch.{
  BootTarget, init_fallbacks, unwrap_or, find_init_binary, candidate, discovered,
  discover_boot_target,
}

find-some : (p : Text → Bool) (xs : List Text) (t : Text) → find p xs ≡ some t → p t ≡ true
find-some p [] t h = cc
find-some p (x ∷ xs) t h = elim (Bool-cases (p x)) [
  | inl hit ↦ let taken : some x ≡ some t = rw hit at h in let same : x ≡ t = cc in rw same at hit
  | inr miss ↦ find-some p xs t (rw miss at h)
]

find-none : (p : Text → Bool) (xs : List Text) → find p xs ≡ none → All (λ x. p x ≡ false) xs
find-none p [] h = tt
find-none p (x ∷ xs) h = elim (Bool-cases (p x)) [
  | inl hit ↦ let no : some x ≡ none = rw hit at h in cc
  | inr miss ↦ (miss, find-none p xs (rw miss at h))
]

module _ (exists : Text → Bool) (new_root : Text) where
  -- The init is there; or none of the candidates is, and it is the shell; or the override is there
  -- and is no candidate, and the first candidate is taken in its place.
  pub data Chosen (init : Option Text) : Text → Type 0 where
    there : {t : Text} → exists (new_root ++ t) ≡ true → Chosen init t
    shell : All (λ c. exists (new_root ++ c) ≡ false) init_fallbacks → Chosen init (codes "/bin/sh")
    replaced :
        (given : Text)
        → init ≡ some given
        → exists (new_root ++ given) ≡ true
        → All (λ c. text_eq c given ≡ false) init_fallbacks
        → Chosen init (codes "/overlayer/syshub/engine/quantra")

  discovered-Chosen : (init : Option Text) → Chosen init (discovered exists new_root).init_path
  unfolding discovered find_init_binary
  discovered-Chosen init = search_by (find (λ c. exists (new_root ++ c)) init_fallbacks) refl
    where
      search_by :
          (o : Option Text)
          → find (λ c. exists (new_root ++ c)) init_fallbacks ≡ o
          → Chosen init (unwrap_or (codes "/bin/sh") o)
      search_by none e = shell (find-none (λ c. exists (new_root ++ c)) init_fallbacks e)
      search_by (some t) e = there (find-some (λ c. exists (new_root ++ c)) init_fallbacks t e)

  candidate-Chosen :
      (given : Text) → exists (new_root ++ given) ≡ true → Chosen (some given) (candidate given)
  candidate-Chosen given h = search_by (find (λ i. text_eq i given) init_fallbacks) refl
    where
      search_by :
          (o : Option Text)
          → find (λ i. text_eq i given) init_fallbacks ≡ o
          → Chosen (some given) (unwrap_or (codes "/overlayer/syshub/engine/quantra") o)
      search_by none e = replaced given refl h (find-none (λ i. text_eq i given) init_fallbacks e)
      search_by (some t) e =
          let same : t ≡ given =
            text_eq_sound t given (find-some (λ i. text_eq i given) init_fallbacks t e) in
          there (rw same h)

  -- The init that is booted exists in the new root; or no candidate exists there, and it is the
  -- shell; or `init=` names a file that exists and is no candidate, and the first candidate is
  -- booted in its place, whether it exists or not.
  pub discover_boot_target-Chosen :
      (init : Option Text) → Chosen init (discover_boot_target exists init new_root).init_path
  unfolding discover_boot_target
  discover_boot_target-Chosen none = discovered-Chosen none
  discover_boot_target-Chosen (some given) =
      if-both (λ (b : BootTarget). Chosen (some given) b.init_path) (exists (new_root ++ given))
        (candidate-Chosen given) (λ missing. discovered-Chosen (some given))
