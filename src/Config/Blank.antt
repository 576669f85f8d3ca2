-- ===== src/Config/Blank.antt =====
-- parser.rs: a trimmed text is empty when every character is a space.
use mathlib.Core.List.{reverse, reverse-reverse}
use quantra_system.Base.{
  ◌≡◌, refl, ◌∙◌, ap, ap, subst, true, false, [], ◌∷◌, All, All-reverse, Bool-cases, inl, inr, ◌↔◌,
}
use quantra_system.Base.Text.{Text, trim, trim_start, is_space}
use quantra_system.Config.{is_empty}

abbrev pub IsBlank : Text → Type 0
IsBlank = All (λ c. is_space c ≡ true)

trim_start-blank : (s : Text) → IsBlank s → trim_start s ≡ []
unfolding trim_start
trim_start-blank [] h = refl
trim_start-blank (c ∷ s) h = rw h.0 (trim_start-blank s h.1)

blank-trim_start : (s : Text) → IsBlank (trim_start s) → IsBlank s
unfolding trim_start
blank-trim_start [] h = tt
blank-trim_start (c ∷ s) h = elim (Bool-cases (is_space c)) [
  | inl e ↦ (e, blank-trim_start s (rw e at h))
  | inr e ↦ rw e at h
]

IsBlank-reverse : (s : Text) → IsBlank (reverse s) → IsBlank s
IsBlank-reverse s h =
    subst IsBlank (reverse-reverse s) (All-reverse (λ c. is_space c ≡ true) (reverse s) h)

is_empty-[] : (s : Text) → is_empty s ≡ true → s ≡ []
is_empty-[] [] h = refl
is_empty-[] (c ∷ s) h = cc

empty-IsBlank : (s : Text) → is_empty s ≡ true → IsBlank s
empty-IsBlank s h = rw (is_empty-[] s h) tt

pub trim-empty : (s : Text) → (is_empty (trim s) ≡ true) ↔ IsBlank s
unfolding trim
trim-empty s = (
  λ h.
      let back = trim_start (reverse (trim_start s)) in
      let blank : IsBlank back = IsBlank-reverse back (empty-IsBlank (reverse back) h) in
      let front : IsBlank (reverse (trim_start s)) =
        blank-trim_start (reverse (trim_start s)) blank in
      blank-trim_start s (IsBlank-reverse (trim_start s) front),
  λ h. let gone : trim_start s ≡ [] = trim_start-blank s h in rw gone refl,
)

trim_start-plain : (s : Text) → All (λ c. is_space c ≡ false) s → trim_start s ≡ s
unfolding trim_start
trim_start-plain [] h = refl
trim_start-plain (c ∷ s) h = rw h.0 refl

-- Without spaces, there is nothing to trim.
pub trim-plain : (s : Text) → All (λ c. is_space c ≡ false) s → trim s ≡ s
unfolding trim
trim-plain s h =
    ap (λ t. reverse (trim_start (reverse t))) (trim_start-plain s h)
    ∙ ap reverse (trim_start-plain (reverse s) (All-reverse (λ c. is_space c ≡ false) s h))
    ∙ reverse-reverse s
