-- ===== src/Ramfs/Cmdline.antt =====
-- quantra-ramfs/src/cmdline.rs: the kernel command line. The parameters of the loop over the words
-- are one record, and the others, each found by a search of its own, another.
pub mod Parse
pub mod Reference
pub mod LastWins
use quantra_system.Base.{
  ℕ, zero, suc, Bool, true, false, ◌||◌, Option, none, some, List, [], ◌∷◌, if◌then◌else◌, any,
  length,
}
use mathlib.Core.List.{reverse}
use quantra_system.Base.Text.{Text, codes, text_eq, strip_prefix, parse_uint, u32_max, starts_with}

-- The largest `u16`.
abbrev pub u16_max : ℕ
u16_max = 65535

pub data RdBreak : Type 0 where
  pre_mount pre_overlay pre_pivot : RdBreak

pub record Scan : Type 0 where
  pub root : Option Text
  pub root_fstype : Option Text
  pub root_flags : Option Text
  pub rootwait : Option ℕ
  pub init : Option Text
  pub loop_image : Option Text
  pub loop_fstype : Option Text
  pub luks_name : Option Text
  pub luks_keyfile : Option Text
  pub verity_enabled : Bool
  pub rd_break : Option RdBreak
  pub rd_shell : Bool
  pub rd_rescue : Bool
  pub fsck_enabled : Bool
  pub tpm2_enabled : Bool
  pub udev_enabled : Bool
  pub quiet : Bool

abbrev pub initial : Scan
initial = record {
  root = none;
  root_fstype = none;
  root_flags = none;
  rootwait = none;
  init = none;
  loop_image = none;
  loop_fstype = none;
  luks_name = none;
  luks_keyfile = none;
  verity_enabled = false;
  rd_break = none;
  rd_shell = false;
  rd_rescue = false;
  fsck_enabled = true;
  tpm2_enabled = true;
  udev_enabled = true;
  quiet = false;
}

abbrev pub phase_of : Text → Option RdBreak
phase_of v =
    if text_eq v (codes "pre-mount")
    then some pre_mount
    else if text_eq v (codes "pre-overlay")
    then some pre_overlay
    else if text_eq v (codes "pre-pivot")
    then some pre_pivot
    else none

-- An unknown phase leaves what there was.
abbrev pub break_at : Option RdBreak → Option RdBreak → Option RdBreak
break_at none old = old
break_at (some p) old = some p

-- `if let Some(v) = tok.strip_prefix(…) { … } else …`
abbrev pub on_prefix : Option Text → (Text → Scan) → Scan → Scan
on_prefix none set other = other
on_prefix (some v) set other = set v

-- The branches on single words, after the phase to break at.
unfoldable pub read_flag : Text → Scan → Scan
read_flag tok s =
    if text_eq tok (codes "rd.shell")
    then record s { rd_shell = true }
    else if text_eq tok (codes "rd.rescue")
        || text_eq tok (codes "single")
        || text_eq tok (codes "s")
    then record s { rd_rescue = true }
    else if text_eq tok (codes "rd.fsck=0")
    then record s { fsck_enabled = false }
    else if text_eq tok (codes "rd.tpm2=0")
    then record s { tpm2_enabled = false }
    else if text_eq tok (codes "rd.udev=0")
    then record s { udev_enabled = false }
    else if text_eq tok (codes "quiet")
    then record s { quiet = true }
    else s

-- From `init=` on.
unfoldable pub read_later : Text → Scan → Scan
read_later tok s =
    on_prefix (strip_prefix (codes "init=") tok) (λ v. record s { init = some v })
      (on_prefix (strip_prefix (codes "loop=") tok) (λ v. record s { loop_image = some v })
        (on_prefix (strip_prefix (codes "loopfstype=") tok) (λ v. record s { loop_fstype = some v })
          (on_prefix (strip_prefix (codes "luks=") tok) (λ v. record s { luks_name = some v })
            (on_prefix (strip_prefix (codes "luks_keyfile=") tok)
              (λ v. record s { luks_keyfile = some v })
              (if text_eq tok (codes "rd.verity=1")
                then record s { verity_enabled = true }
                else on_prefix (strip_prefix (codes "rd.break=") tok)
                    (λ v. record s { rd_break = break_at (phase_of v) s.rd_break })
                    (read_flag tok s))))))

-- A turn of the loop.
unfoldable pub read_token : Text → Scan → Scan
read_token tok s =
    on_prefix (strip_prefix (codes "root=") tok) (λ v. record s { root = some v })
      (on_prefix (strip_prefix (codes "rootfstype=") tok) (λ v. record s { root_fstype = some v })
        (on_prefix (strip_prefix (codes "rootflags=") tok) (λ v. record s { root_flags = some v })
          (if text_eq tok (codes "rootwait")
            then record s { rootwait = some 0 }
            else on_prefix (strip_prefix (codes "rootwait=") tok)
                (λ v. record s { rootwait = parse_uint u32_max v }) (read_later tok s))))

unfoldable pub scan : List Text → Scan → Scan
scan [] s = s
scan (tok ∷ toks) s = scan toks (read_token tok s)

-- `find_map` and `find_map` with a value that must parse.
abbrev pub find_map {ℓ} : {A : Type ℓ} → (Text → Option A) → List Text → Option A
find_map f [] = none
find_map f (t ∷ ts) = elim (f t) [ some a ↦ some a | none ↦ find_map f ts ]

abbrev pub has : Text → List Text → Bool
has word = any (λ t. text_eq t word)

abbrev pub value : Text → List Text → Option Text
value key = find_map (strip_prefix key)

abbrev pub ends_with : Text → Text → Bool
ends_with suffix t = starts_with (reverse suffix) (reverse t)

-- `trim_end_matches(":dhcp")` on a reversed text, on fuel.
unfoldable pub trim_matches : ℕ → Text → Text → Text
trim_matches zero suffix t = t
trim_matches (suc fuel) suffix t = elim (strip_prefix suffix t) [
  | none ↦ t
  | some rest ↦ trim_matches fuel suffix rest
]

unfoldable pub trim_end_matches : Text → Text → Text
unfolding trim_matches
trim_end_matches suffix t = reverse (trim_matches (length t) (reverse suffix) (reverse t))
