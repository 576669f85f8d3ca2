-- ===== src/Ramfs/Cmdline/Reference.antt =====
-- cmdline.rs: what the last word for each parameter gives, by itself.
use Prim.Native.String.{String}
use quantra_system.Base.{
  ℕ, Bool, true, false, ◌||◌, Option, none, some, List, [], ◌∷◌, if◌then◌else◌,
}
use quantra_system.Base.Text.{Text, codes, text_eq, strip_prefix, parse_uint, u32_max}
use quantra_system.Ramfs.Cmdline.{RdBreak, Scan, phase_of}

-- What a word gives for a parameter, if it gives it.
abbrev pub given {ℓ} : {A : Type ℓ} → Option A → Option (Option A)
given none = none
given (some a) = some (some a)

abbrev pub text_of : String → Text → Option (Option Text)
text_of key tok = given (strip_prefix (codes key) tok)

abbrev pub word_of {ℓ} : {A : Type ℓ} → String → A → Text → Option A
word_of word a tok = if text_eq tok (codes word) then some a else none

abbrev pub retries : Option Text → Option (Option ℕ)
retries none = none
retries (some v) = some (parse_uint u32_max v)

abbrev pub wait_of : Text → Option (Option ℕ)
wait_of tok =
    if text_eq tok (codes "rootwait")
    then some (some 0)
    else retries (strip_prefix (codes "rootwait=") tok)

abbrev pub phase_from : Option Text → Option (Option RdBreak)
phase_from none = none
phase_from (some v) = given (phase_of v)

abbrev pub phase_in : Text → Option (Option RdBreak)
phase_in tok = phase_from (strip_prefix (codes "rd.break=") tok)

abbrev pub rescue_of : Text → Option Bool
rescue_of tok =
    if text_eq tok (codes "rd.rescue") || text_eq tok (codes "single") || text_eq tok (codes "s")
    then some true
    else none

abbrev pub or_old {ℓ} : {A : Type ℓ} → Option A → A → A
or_old (some b) a = b
or_old none a = a

-- The value that the last of the words to give one gives, or the one before.
abbrev pub last_or {ℓ} : {A : Type ℓ} → (Text → Option A) → List Text → A → A
last_or f [] a = a
last_or f (t ∷ ts) a = last_or f ts (or_old (f t) a)

-- Each parameter by itself: its last word gives it.
abbrev pub last_wins : List Text → Scan → Scan
last_wins toks s = record {
  root = last_or (text_of "root=") toks s.root;
  root_fstype = last_or (text_of "rootfstype=") toks s.root_fstype;
  root_flags = last_or (text_of "rootflags=") toks s.root_flags;
  rootwait = last_or wait_of toks s.rootwait;
  init = last_or (text_of "init=") toks s.init;
  loop_image = last_or (text_of "loop=") toks s.loop_image;
  loop_fstype = last_or (text_of "loopfstype=") toks s.loop_fstype;
  luks_name = last_or (text_of "luks=") toks s.luks_name;
  luks_keyfile = last_or (text_of "luks_keyfile=") toks s.luks_keyfile;
  verity_enabled = last_or (word_of "rd.verity=1" true) toks s.verity_enabled;
  rd_break = last_or phase_in toks s.rd_break;
  rd_shell = last_or (word_of "rd.shell" true) toks s.rd_shell;
  rd_rescue = last_or rescue_of toks s.rd_rescue;
  fsck_enabled = last_or (word_of "rd.fsck=0" false) toks s.fsck_enabled;
  tpm2_enabled = last_or (word_of "rd.tpm2=0" false) toks s.tpm2_enabled;
  udev_enabled = last_or (word_of "rd.udev=0" false) toks s.udev_enabled;
  quiet = last_or (word_of "quiet" true) toks s.quiet;
}
