-- ===== src/Ramfs/Verity/Hex.antt =====
-- verity.rs: a root hash is read back.
use mathlib.Core.List.{reverse, reverse-cons, reverse-reverse}
use quantra_system.Base.{
  ℕ, zero, suc, ◌+◌, ◌*◌, ◌/◌, ◌%◌, ◌<◌, ◌≡◌, refl, ap, subst, ◌∙◌, Bool, true, false, not, ◌&&◌,
  Option, none, some, List, [], ◌∷◌, ◌==◌, ==_iff, length, get_or, All, All-append, arith,
}
use quantra_system.Base.Text.{Text, is_space, trim_start, trim}
use quantra_system.Ramfs.Verity.{hex_nibble, decode_pairs, decode_roothash, digits, encode_hex}

-- From a number on, the digits stand for the numbers in order, and none is a space.
abbrev is_nibble : Option ℕ → ℕ → Bool
is_nibble none k = false
is_nibble (some v) k = v == k

abbrev spells : ℕ → List ℕ → Bool
spells k [] = true
spells k (d ∷ ds) = (is_nibble (hex_nibble d) k && not (is_space d)) && spells (suc k) ds

is_nibble-some : (o : Option ℕ) (k : ℕ) → is_nibble o k ≡ true → o ≡ some k
is_nibble-some none k h = cc
is_nibble-some (some v) k h = ap some ((==_iff v k).0 h)

abbrev IsDigit : ℕ → ℕ → Type 0
IsDigit n d = (hex_nibble d ≡ some n) × (is_space d ≡ false)

IsDigit-from :
    (k n : ℕ) (ds : List ℕ) → spells k ds ≡ true → n < length ds → IsDigit (k + n) (get_or ds n 0)
IsDigit-from k n [] h lt = absurd (omega (arith, lt))
IsDigit-from k zero (d ∷ ds) h lt =
    let same : k + 0 ≡ k = omega arith in
    rw same (is_nibble-some (hex_nibble d) k (ground (arith, h)), ground (arith, h))
IsDigit-from k (suc n) (d ∷ ds) h lt =
    let same : k + suc n ≡ suc k + n = omega arith in
    rw same (IsDigit-from (suc k) n ds (ground (arith, h)) (omega (arith, lt)))

IsDigit-at : (n : ℕ) → n < 16 → IsDigit n (get_or digits n 0)
unfolding hex_nibble is_space
IsDigit-at n h =
    subst (λ k. IsDigit k (get_or digits n 0)) (omega arith) (IsDigit-from 0 n digits refl h)

decode_pair :
    (c d hi lo : ℕ) (s : Text) (bs : List ℕ)
    → hex_nibble c ≡ some hi
    → hex_nibble d ≡ some lo
    → decode_pairs s ≡ some bs
    → decode_pairs (c ∷ d ∷ s) ≡ some ((hi * 16 + lo) ∷ bs)
unfolding decode_pairs
decode_pair c d hi lo s bs eh el es = rw (eh, el, es) refl

decode_pairs-encode_hex :
    (bs : List ℕ) → All (λ b. b < 256) bs → decode_pairs (encode_hex bs) ≡ some bs
unfolding decode_pairs encode_hex
decode_pairs-encode_hex [] h = refl
decode_pairs-encode_hex (b ∷ bs) h =
    let whole : b / 16 * 16 + b % 16 ≡ b = omega arith in
    decode_pair _ _ (b / 16) (b % 16) (encode_hex bs) bs
      (IsDigit-at (b / 16) (omega (arith, h.0))).0 (IsDigit-at (b % 16) (omega arith)).0
      (decode_pairs-encode_hex bs h.1)
    ∙ ap (λ n. some (n ∷ bs)) whole

length-encode_hex : (bs : List ℕ) → length (encode_hex bs) ≡ 2 * length bs
unfolding encode_hex
length-encode_hex [] = refl
length-encode_hex (b ∷ bs) = omega (arith, length-encode_hex bs)

abbrev IsSolid : Text → Type 0
IsSolid = All (λ c. is_space c ≡ false)

encode_hex-IsSolid : (bs : List ℕ) → All (λ b. b < 256) bs → IsSolid (encode_hex bs)
unfolding encode_hex
encode_hex-IsSolid [] h = tt
encode_hex-IsSolid (b ∷ bs) h = (
  (IsDigit-at (b / 16) (omega (arith, h.0))).1,
  ((IsDigit-at (b % 16) (omega arith)).1, encode_hex-IsSolid bs h.1),
)

trim_start-solid : (s : Text) → IsSolid s → trim_start s ≡ s
unfolding trim_start
trim_start-solid [] h = refl
trim_start-solid (c ∷ s) h = rw h.0 refl

reverse-IsSolid : (s : Text) → IsSolid s → IsSolid (reverse s)
reverse-IsSolid [] h = h
reverse-IsSolid (c ∷ s) h = rw (reverse-cons c s) (
    All-append (λ (d : ℕ). is_space d ≡ false) (reverse s) (c ∷ []) (reverse-IsSolid s h.1)
      (h.0, tt))

trim-solid : (s : Text) → IsSolid s → trim s ≡ s
unfolding trim
trim-solid s h =
    rw (trim_start-solid s h, trim_start-solid (reverse s) (reverse-IsSolid s h))
      (reverse-reverse s)

-- A root hash of 32 bytes, written in hexadecimal digits, is decoded to its bytes.
pub decode_roothash-encode_hex :
    (bytes : List ℕ)
    → length bytes ≡ 32
    → All (λ b. b < 256) bytes
    → decode_roothash (encode_hex bytes) ≡ some bytes
unfolding decode_roothash
decode_roothash-encode_hex bytes size small =
    let whole : length (encode_hex bytes) ≡ 64 = omega (arith, length-encode_hex bytes, size) in
    rw (trim-solid (encode_hex bytes) (encode_hex-IsSolid bytes small), whole)
      (decode_pairs-encode_hex bytes small)
