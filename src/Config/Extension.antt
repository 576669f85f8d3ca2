-- ===== src/Config/Extension.antt =====
-- parser.rs: which files of a directory are read.
use mathlib.Core.List.{reverse, reverse-cons, reverse-reverse, reverse-append, append_assoc}
use quantra_system.Base.{
  ℕ, ◌≡◌, ◌≢◌, refl, sym, ap, ◌∙◌, true, Option, none, some, [], ◌∷◌, ◌++◌, Bool-cases, inl, inr,
  ◌↔◌, ◌==◌, ==_iff,
}
use quantra_system.Base.Text.{Text, codes, text_eq_sound, split_once}
use quantra_system.Config.Files.{after_dot, extension, is_some_toml, is_toml_file}

-- The name ends in `.toml`, and something stands before that.
pub record IsToml (name : Text) : Type 0 where
  pub stem : Text
  pub nonempty : stem ≢ []
  pub ends : name ≡ stem ++ codes ".toml"

split_once-some :
    (sep : ℕ) (s front rest : Text)
    → split_once sep s ≡ (front, some rest)
    → s ≡ front ++ sep ∷ rest
unfolding split_once
split_once-some sep [] front rest h = cc
split_once-some sep (c ∷ s) front rest h = elim (Bool-cases (c == sep)) [
  | inl e ↦
      let same : c ≡ sep = (==_iff c sep).0 e in
      let pair : ◌≡◌ {A = Text × Option Text} ([], some s) (front, some rest) = rw e at h in
      let f : ◌≡◌ {A = Text} [] front = ap (λ p. p.0) pair in
      let b : some s ≡ some rest = ap (λ p. p.1) pair in cc
  | inr e ↦
      let pair : (c ∷ (split_once sep s).0, (split_once sep s).1) ≡ (front, some rest) =
        rw e at h in
      let f : c ∷ (split_once sep s).0 ≡ front = ap (λ p. p.0) pair in
      let b : (split_once sep s).1 ≡ some rest = ap (λ p. p.1) pair in
      let ih : s ≡ (split_once sep s).0 ++ sep ∷ rest =
        split_once-some sep s (split_once sep s).0 rest (ap (λ o. ((split_once sep s).0, o)) b) in
      let grown : c ∷ s ≡ (c ∷ (split_once sep s).0) ++ sep ∷ rest = ap (◌∷◌ c) ih in
      grown ∙ ap (λ t. t ++ sep ∷ rest) f
]

reverse-nonempty : (c : ℕ) (s : Text) → reverse (c ∷ s) ≢ []
reverse-nonempty c s g = let no : c ∷ s ≡ [] = sym (reverse-reverse (c ∷ s)) ∙ ap reverse g in cc

of_parts :
    (name : Text) (p : Text × Option Text)
    → split_once 46 (reverse name) ≡ p
    → is_some_toml (after_dot p) ≡ true
    → IsToml name
of_parts name (back, none) e h = cc
of_parts name (back, some []) e h = cc
of_parts name (back, some (c ∷ rest)) e h =
    let toml : reverse back ≡ codes "toml" = text_eq_sound (reverse back) (codes "toml") h in
    let split : reverse name ≡ back ++ 46 ∷ c ∷ rest =
      split_once-some 46 (reverse name) back (c ∷ rest) e in
    record {
      stem = reverse (c ∷ rest);
      nonempty = λ g. reverse-nonempty c rest g;
      ends =
          sym (reverse-reverse name)
          ∙ ap reverse split
          ∙ reverse-append back (46 ∷ c ∷ rest)
          ∙ ap (◌++◌ (reverse (46 ∷ c ∷ rest))) toml
          ∙ ap (λ t. t ++ codes "toml") (reverse-cons 46 (c ∷ rest))
          ∙ append_assoc (reverse (c ∷ rest)) (46 ∷ []) (codes "toml");
    }

whole :
    (stem : Text)
    → stem ≢ []
    → (back : Text) → reverse stem ≡ back
    → is_some_toml (after_dot (split_once 46 (reverse (codes ".toml") ++ back))) ≡ true
unfolding split_once
whole stem n [] e =
    let gone : stem ≡ [] = sym (reverse-reverse stem) ∙ ap reverse e in elim (n gone) [ ]
whole stem n (c ∷ back) e = refl

pub is_toml_file-IsToml : (name : Text) → (is_toml_file name ≡ true) ↔ IsToml name
unfolding is_toml_file extension
is_toml_file-IsToml name = (
  λ h. of_parts name (split_once 46 (reverse name)) refl h,
  λ t.
      let back : reverse name ≡ reverse (codes ".toml") ++ reverse t.stem =
        ap reverse t.ends ∙ reverse-append t.stem (codes ".toml") in
      rw back (whole t.stem t.nonempty (reverse t.stem) refl),
)
