-- ===== src/Ramfs/Verity.antt =====
-- quantra-ramfs/src/verity.rs: the configuration from the command line, and the hexadecimal codec.
pub mod Hex
pub mod Enabled
use quantra_system.Base.{
  ℕ, ◌+◌, ◌-◌, ◌*◌, ◌/◌, ◌%◌, ◌&&◌, Bool, Option, none, some, List, [], ◌∷◌, if◌then◌else◌, ◌==◌,
  leb, length, get_or,
}
use quantra_system.Base.Text.{
  Text, codes, strip_prefix, trim, parse_uint, u64_max, has_word, split_whitespace,
}

unfoldable pub hex_nibble : ℕ → Option ℕ
hex_nibble b =
    if leb 48 b && leb b 57
    then some (b - 48)
    else if leb 97 b && leb b 102
    then some (b - 97 + 10)
    else if leb 65 b && leb b 70
    then some (b - 65 + 10)
    else none

abbrev pub byte_of : Option ℕ → Option ℕ → Option ℕ
byte_of (some hi) (some lo) = some (hi * 16 + lo)
byte_of none lo = none
byte_of (some hi) none = none

abbrev pub and_then : Option ℕ → Option (List ℕ) → Option (List ℕ)
and_then none rest = none
and_then (some b) none = none
and_then (some b) (some bs) = some (b ∷ bs)

-- The loop over the chunks of two; the length is even.
unfoldable pub decode_pairs : Text → Option (List ℕ)
decode_pairs [] = some []
decode_pairs (c ∷ []) = none
decode_pairs (c ∷ d ∷ s) = and_then (byte_of (hex_nibble c) (hex_nibble d)) (decode_pairs s)

unfoldable pub decode_roothash : Text → Option (List ℕ)
decode_roothash hex = if length (trim hex) == 64 then decode_pairs (trim hex) else none

abbrev pub digits : List ℕ
digits = codes "0123456789abcdef"

unfoldable pub encode_hex : List ℕ → Text
encode_hex [] = []
encode_hex (b ∷ bs) = get_or digits (b / 16) 0 ∷ get_or digits (b % 16) 0 ∷ encode_hex bs

pub record VerityConfig : Type 0 where
  pub data_device : Text
  pub hash_device : Text
  pub roothash : List ℕ
  pub hash_offset : ℕ
  pub dm_name : Text

-- The variables of the loop over the words.
pub record Found : Type 0 where
  pub data_device : Option Text
  pub hash_device : Option Text
  pub roothash_hex : Option Text
  pub hash_offset : ℕ

abbrev pub on_prefix : Option Text → (Text → Found) → Found → Found
on_prefix none set other = other
on_prefix (some v) set other = set v

abbrev pub or_zero : Option ℕ → ℕ
or_zero none = 0
or_zero (some n) = n

unfoldable pub read_token : Text → Found → Found
read_token tok f =
    on_prefix (strip_prefix (codes "rd.verity.data=") tok) (λ v. record f { data_device = some v })
      (on_prefix (strip_prefix (codes "rd.verity.hash=") tok)
        (λ v. record f { hash_device = some v })
        (on_prefix (strip_prefix (codes "rd.verity.roothash=") tok)
          (λ v. record f { roothash_hex = some v })
          (on_prefix (strip_prefix (codes "rd.verity.hashoffset=") tok)
            (λ v. record f { hash_offset = or_zero (parse_uint u64_max v) }) f)))

unfoldable pub scan : List Text → Found → Found
scan [] f = f
scan (tok ∷ toks) f = scan toks (read_token tok f)

-- `None`, `Some(Err(…))` and `Some(Ok(…))`.
pub data Parsed : Type 0 where
  disabled bad : Parsed
  ok : (cfg : VerityConfig) → Parsed

abbrev pub hash_or : Option Text → Text → Text
hash_or none dev = dev
hash_or (some h) dev = h

abbrev pub with_hash : Text → Found → Option (List ℕ) → Parsed
with_hash dev f none = bad
with_hash dev f (some bytes) = ok (record {
  data_device = dev;
  hash_device = hash_or f.hash_device dev;
  roothash = bytes;
  hash_offset = f.hash_offset;
  dm_name = codes "zainium-verity";
})

abbrev pub with_hex : Text → Found → Option Text → Parsed
with_hex dev f none = bad
with_hex dev f (some hex) = with_hash dev f (decode_roothash hex)

abbrev pub with_data : Found → Option Text → Parsed
with_data f none = bad
with_data f (some dev) = with_hex dev f f.roothash_hex

abbrev pub from_found : Found → Parsed
from_found f = with_data f f.data_device

abbrev pub nothing_found : Found
nothing_found = record {
  data_device = none;
  hash_device = none;
  roothash_hex = none;
  hash_offset = 0;
}

unfoldable pub parse_verity_cmdline : Text → Parsed
parse_verity_cmdline cmdline =
    if has_word (codes "rd.verity=1") (split_whitespace cmdline)
    then from_found (scan (split_whitespace cmdline) nothing_found)
    else disabled
