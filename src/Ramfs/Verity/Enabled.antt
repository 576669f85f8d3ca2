-- ===== src/Ramfs/Verity/Enabled.antt =====
-- cmdline.rs and verity.rs: the two readers of the command line agree on whether verity is on.
use mathlib.Core.List.{reverse, reverse-append, reverse-reverse, reverse-cons}
use quantra_system.Base.{
  ℕ, ◌≡◌, refl, sym, ap, ◌∙◌, Bool, true, false, not, ◌||◌, Option, none, some, List, [], ◌∷◌, ◌++◌,
  if◌then◌else◌, All, All-append, Bool-cases, inl, inr, arith,
}
use quantra_system.Base.Text.{
  Text, codes, text_eq, is_space, trim_start, trim, flush, words_from, split_whitespace, has_word,
}
use quantra_system.Ramfs.Cmdline.{initial, scan}
use quantra_system.Ramfs.Cmdline.Parse.{Cmdline, parse, from_words}
use quantra_system.Ramfs.Cmdline.Reference.{last_or, word_of}
use quantra_system.Ramfs.Cmdline.LastWins.{scan-last_wins}
use quantra_system.Ramfs.Verity.{
  Parsed, disabled, bad, ok, Found, with_hash, with_hex, with_data, from_found,
  parse_verity_cmdline, nothing_found,
}
use quantra_system.Ramfs.Verity

abbrev IsBlank : Text → Type 0
IsBlank = All (λ c. is_space c ≡ true)

words_from-blank : (piece s : Text) → IsBlank s → words_from piece s ≡ flush piece []
unfolding words_from
words_from-blank piece [] h = refl
words_from-blank piece (c ∷ s) h = rw (h.0, words_from-blank [] s h.1) refl

words_from-append_blank :
    (piece s t : Text) → IsBlank t → words_from piece (s ++ t) ≡ words_from piece s
unfolding words_from
words_from-append_blank piece [] t h = words_from-blank piece t h
words_from-append_blank piece (c ∷ s) t h = elim (Bool-cases (is_space c)) [
  | inl space ↦ rw (space, words_from-append_blank [] s t h) refl
  | inr solid ↦ rw (solid, words_from-append_blank (c ∷ piece) s t h) refl
]

words_from-blank_append : (t s : Text) → IsBlank t → words_from [] (t ++ s) ≡ words_from [] s
unfolding words_from
words_from-blank_append [] s h = refl
words_from-blank_append (c ∷ t) s h = rw (h.0, words_from-blank_append t s h.1) refl

-- A text is what `trim_start` leaves, after spaces.
record Led (s : Text) : Type 0 where
  front : Text
  blank : IsBlank front
  joins : s ≡ front ++ trim_start s

trim_start-Led : (s : Text) → Led s
unfolding trim_start
trim_start-Led [] = record { front = []; blank = tt; joins = refl }
trim_start-Led (c ∷ s) = elim (Bool-cases (is_space c)) [
  | inr solid ↦ record { front = []; blank = tt; joins = rw solid refl }
  | inl space ↦
      let r = trim_start-Led s in
      record {
        front = c ∷ r.front;
        blank = (space, r.blank);
        joins = rw space (ap (◌∷◌ c) r.joins);
      }
]

reverse-IsBlank : (s : Text) → IsBlank s → IsBlank (reverse s)
reverse-IsBlank [] h = h
reverse-IsBlank (c ∷ s) h = rw (reverse-cons c s) (
    All-append (λ (d : ℕ). is_space d ≡ true) (reverse s) (c ∷ []) (reverse-IsBlank s h.1)
      (h.0, tt))

split_whitespace-trim : (s : Text) → split_whitespace (trim s) ≡ split_whitespace s
unfolding trim
split_whitespace-trim s =
    let led = trim_start-Led s in
    let t : Text = trim_start s in
    let back = trim_start-Led (reverse t) in
    let parts : t ≡ reverse (trim_start (reverse t)) ++ reverse back.front =
      sym (reverse-reverse t)
      ∙ ap reverse back.joins
      ∙ reverse-append back.front (trim_start (reverse t)) in
    sym (
      words_from-append_blank [] (reverse (trim_start (reverse t))) (reverse back.front)
        (reverse-IsBlank back.front back.blank))
    ∙ ap (words_from []) (sym parts)
    ∙ sym (words_from-blank_append led.front t led.blank)
    ∙ ap (words_from []) (sym led.joins)

last_or-word :
    (toks : List Text) (b : Bool)
    → last_or (word_of "rd.verity=1" true) toks b ≡ (b || has_word (codes "rd.verity=1") toks)
last_or-word [] b = ground arith
last_or-word (t ∷ ts) b = elim (Bool-cases (text_eq t (codes "rd.verity=1"))) [
  | inl hit ↦ rw hit (last_or-word ts true ∙ ground arith)
  | inr miss ↦ rw miss (last_or-word ts b)
]

abbrev pub is_disabled : Parsed → Bool
is_disabled disabled = true
is_disabled bad = false
is_disabled (ok cfg) = false

from_found-enabled :
    (f : Found) (dev hex : Option Text)
    → f.data_device ≡ dev
    → f.roothash_hex ≡ hex
    → is_disabled (from_found f) ≡ false
from_found-enabled f none hex ed eh = rw ed refl
from_found-enabled f (some dev) none ed eh = rw (ed, eh) refl
from_found-enabled f (some dev) (some hex) ed eh = rw (ed, eh) (hashed (Verity.decode_roothash hex))
  where
    hashed : (o : Option (List ℕ)) → is_disabled (with_hash dev f o) ≡ false
    hashed none = refl
    hashed (some bytes) = refl

disabled-unless_word :
    (s : Text)
    → is_disabled (parse_verity_cmdline s)
      ≡ not (has_word (codes "rd.verity=1") (split_whitespace s))
unfolding parse_verity_cmdline
disabled-unless_word s = on_word (has_word (codes "rd.verity=1") (split_whitespace s))
  where
    found : Found
    found = Verity.scan (split_whitespace s) nothing_found

    on_word : (b : Bool) → is_disabled (if b then from_found found else disabled) ≡ not b
    on_word true = from_found-enabled found found.data_device found.roothash_hex refl refl
    on_word false = refl

-- The parser of the verity configuration, given the trimmed command line that the first parser
-- keeps, finds verity disabled exactly if the first parser did: where verity is on, it answers with a
-- configuration or an error.
pub parse_verity_cmdline-enabled :
    (raw : Text) (c : Cmdline)
    → parse (some raw) ≡ some c
    → is_disabled (parse_verity_cmdline c.raw) ≡ not c.scanned.verity_enabled
unfolding parse
parse_verity_cmdline-enabled raw c h =
    let same : from_words raw (split_whitespace raw) ≡ c = cc in
    let on : (scan (split_whitespace raw) initial).verity_enabled
        ≡ has_word (codes "rd.verity=1") (split_whitespace raw) =
      ap (λ s. s.verity_enabled) (scan-last_wins (split_whitespace raw) initial)
      ∙ last_or-word (split_whitespace raw) false in
    rw⁻¹ same (
      disabled-unless_word (trim raw)
      ∙ ap (λ ws. not (has_word (codes "rd.verity=1") ws)) (split_whitespace-trim raw)
      ∙ ap not (sym on))
