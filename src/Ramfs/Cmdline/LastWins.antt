-- ===== src/Ramfs/Cmdline/LastWins.antt =====
-- cmdline.rs: of the words that give a parameter, the last one counts.

use quantra_system.Base.{
  ◌≡◌, refl, ap, ◌∙◌, Bool, true, false, ◌||◌, Option, none, some, List, [], ◌∷◌, ◌++◌,
  if◌then◌else◌, if-both,
}
use quantra_system.Base.Text.{
  Text, codes, text_eq, text_eq_sound, strip_prefix, strip_prefix-some, parse_uint, u32_max,
}
use quantra_system.Ramfs.Cmdline.Reference.{given, or_old, last_wins}
use quantra_system.Ramfs.Cmdline.{
  RdBreak, Scan, phase_of, break_at, on_prefix, read_flag, read_later, read_token, scan,
}

on_prefix-both :
    (P : Scan → Type 0) (p tok : Text) (set : Text → Scan) (other : Scan)
    → ((v : Text) → tok ≡ p ++ v → P (set v))
    → (strip_prefix p tok ≡ none → P other)
    → P (on_prefix (strip_prefix p tok) set other)
on_prefix-both P p tok set other hit miss = both (strip_prefix p tok) refl
  where
    both : (o : Option Text) → strip_prefix p tok ≡ o → P (on_prefix o set other)
    both none e = miss e
    both (some v) e = hit v (strip_prefix-some p tok v e)

on_word-both :
    (P : Scan → Type 0) (w tok : Text) {s other : Scan}
    → (tok ≡ w → P s)
    → (text_eq tok w ≡ false → P other)
    → P (if text_eq tok w then s else other)
on_word-both P w tok hit miss = if-both P (text_eq tok w) (λ e. hit (text_eq_sound tok w e)) miss

-- Three words with one meaning.
on_words-both :
    (P : Scan → Type 0) (u v w tok : Text) {s other : Scan}
    → (tok ≡ u → P s)
    → (tok ≡ v → P s)
    → (tok ≡ w → P s)
    → (text_eq tok u ≡ false → text_eq tok v ≡ false → text_eq tok w ≡ false → P other)
    → P (if text_eq tok u || text_eq tok v || text_eq tok w then s else other)
on_words-both P u v w tok {s = s} {other = other} hu hv hw miss =
    both (text_eq tok u) (text_eq tok v) (text_eq tok w) refl refl refl
  where
    both :
        (x y z : Bool)
        → text_eq tok u ≡ x
        → text_eq tok v ≡ y
        → text_eq tok w ≡ z
        → P (if x || y || z then s else other)
    both true y z ex ey ez = hu (text_eq_sound tok u ex)
    both false true z ex ey ez = hv (text_eq_sound tok v ey)
    both false false true ex ey ez = hw (text_eq_sound tok w ez)
    both false false false ex ey ez = miss ex ey ez

-- A word that is of no branch.
record IsOther (tok : Text) : Type 0 where
  no_root : strip_prefix (codes "root=") tok ≡ none
  no_rootfstype : strip_prefix (codes "rootfstype=") tok ≡ none
  no_rootflags : strip_prefix (codes "rootflags=") tok ≡ none
  no_rootwait : text_eq tok (codes "rootwait") ≡ false
  no_rootwait_value : strip_prefix (codes "rootwait=") tok ≡ none
  no_init : strip_prefix (codes "init=") tok ≡ none
  no_loop : strip_prefix (codes "loop=") tok ≡ none
  no_loopfstype : strip_prefix (codes "loopfstype=") tok ≡ none
  no_luks : strip_prefix (codes "luks=") tok ≡ none
  no_luks_keyfile : strip_prefix (codes "luks_keyfile=") tok ≡ none
  no_rd_verity : text_eq tok (codes "rd.verity=1") ≡ false
  no_rd_break : strip_prefix (codes "rd.break=") tok ≡ none
  no_rd_shell : text_eq tok (codes "rd.shell") ≡ false
  no_rd_rescue : text_eq tok (codes "rd.rescue") ≡ false
  no_single : text_eq tok (codes "single") ≡ false
  no_short : text_eq tok (codes "s") ≡ false
  no_rd_fsck : text_eq tok (codes "rd.fsck=0") ≡ false
  no_rd_tpm2 : text_eq tok (codes "rd.tpm2=0") ≡ false
  no_rd_udev : text_eq tok (codes "rd.udev=0") ≡ false
  no_quiet : text_eq tok (codes "quiet") ≡ false

-- The branches of `read_token`: what holds of each holds of the whole.
record Branches (P : Scan → Type 0) (tok : Text) (s : Scan) : Type 0 where
  on_root : (v : Text) → tok ≡ codes "root=" ++ v → P (record s { root = some v })
  on_rootfstype :
      (v : Text) → tok ≡ codes "rootfstype=" ++ v → P (record s { root_fstype = some v })
  on_rootflags : (v : Text) → tok ≡ codes "rootflags=" ++ v → P (record s { root_flags = some v })
  on_rootwait : tok ≡ codes "rootwait" → P (record s { rootwait = some 0 })
  on_rootwait_value :
      (v : Text) → tok ≡ codes "rootwait=" ++ v → P (record s { rootwait = parse_uint u32_max v })
  on_init : (v : Text) → tok ≡ codes "init=" ++ v → P (record s { init = some v })
  on_loop : (v : Text) → tok ≡ codes "loop=" ++ v → P (record s { loop_image = some v })
  on_loopfstype :
      (v : Text) → tok ≡ codes "loopfstype=" ++ v → P (record s { loop_fstype = some v })
  on_luks : (v : Text) → tok ≡ codes "luks=" ++ v → P (record s { luks_name = some v })
  on_luks_keyfile :
      (v : Text) → tok ≡ codes "luks_keyfile=" ++ v → P (record s { luks_keyfile = some v })
  on_rd_verity : tok ≡ codes "rd.verity=1" → P (record s { verity_enabled = true })
  on_rd_break :
      (v : Text)
      → tok ≡ codes "rd.break=" ++ v
      → P (record s { rd_break = break_at (phase_of v) s.rd_break })
  on_rd_shell : tok ≡ codes "rd.shell" → P (record s { rd_shell = true })
  on_rd_rescue : tok ≡ codes "rd.rescue" → P (record s { rd_rescue = true })
  on_single : tok ≡ codes "single" → P (record s { rd_rescue = true })
  on_short : tok ≡ codes "s" → P (record s { rd_rescue = true })
  on_rd_fsck : tok ≡ codes "rd.fsck=0" → P (record s { fsck_enabled = false })
  on_rd_tpm2 : tok ≡ codes "rd.tpm2=0" → P (record s { tpm2_enabled = false })
  on_rd_udev : tok ≡ codes "rd.udev=0" → P (record s { udev_enabled = false })
  on_quiet : tok ≡ codes "quiet" → P (record s { quiet = true })
  on_other : IsOther tok → P s

read_token-both :
    (P : Scan → Type 0) (tok : Text) (s : Scan) → Branches P tok s → P (read_token tok s)
unfolding read_token read_later read_flag
read_token-both P tok s b = on_prefix-both P (codes "root=") tok _ _ b.on_root (λ m0.
    on_prefix-both P (codes "rootfstype=") tok _ _ b.on_rootfstype (λ m1.
      on_prefix-both P (codes "rootflags=") tok _ _ b.on_rootflags (λ m2.
        on_word-both P (codes "rootwait") tok b.on_rootwait (λ m3.
          on_prefix-both P (codes "rootwait=") tok _ _ b.on_rootwait_value (λ m4.
            on_prefix-both P (codes "init=") tok _ _ b.on_init (λ m5.
              on_prefix-both P (codes "loop=") tok _ _ b.on_loop (λ m6.
                on_prefix-both P (codes "loopfstype=") tok _ _ b.on_loopfstype (λ m7.
                  on_prefix-both P (codes "luks=") tok _ _ b.on_luks (λ m8.
                    on_prefix-both P (codes "luks_keyfile=") tok _ _ b.on_luks_keyfile (λ m9.
                      on_word-both P (codes "rd.verity=1") tok b.on_rd_verity (λ m10.
                        on_prefix-both P (codes "rd.break=") tok _ _ b.on_rd_break (λ m11.
                          on_word-both P (codes "rd.shell") tok b.on_rd_shell (λ m12.
                            on_words-both P (codes "rd.rescue") (codes "single") (codes "s") tok
                              b.on_rd_rescue b.on_single b.on_short
                              (λ m13 m14 m15.
                                on_word-both P (codes "rd.fsck=0") tok b.on_rd_fsck (λ m16.
                                  on_word-both P (codes "rd.tpm2=0") tok b.on_rd_tpm2 (λ m17.
                                    on_word-both P (codes "rd.udev=0") tok b.on_rd_udev (λ m18.
                                      on_word-both P (codes "quiet") tok b.on_quiet (λ m19.
                                        b.on_other record {
                                          no_root = m0;
                                          no_rootfstype = m1;
                                          no_rootflags = m2;
                                          no_rootwait = m3;
                                          no_rootwait_value = m4;
                                          no_init = m5;
                                          no_loop = m6;
                                          no_loopfstype = m7;
                                          no_luks = m8;
                                          no_luks_keyfile = m9;
                                          no_rd_verity = m10;
                                          no_rd_break = m11;
                                          no_rd_shell = m12;
                                          no_rd_rescue = m13;
                                          no_single = m14;
                                          no_short = m15;
                                          no_rd_fsck = m16;
                                          no_rd_tpm2 = m17;
                                          no_rd_udev = m18;
                                          no_quiet = m19;
                                        }))))))))))))))))))

read_token-last_wins : (tok : Text) (s : Scan) → read_token tok s ≡ last_wins (tok ∷ []) s
unfolding strip_prefix
read_token-last_wins tok s =
    read_token-both (λ r. r ≡ last_wins (tok ∷ []) s) tok s
      record {
        on_root = λ v e. rw e refl;
        on_rootfstype = λ v e. rw e refl;
        on_rootflags = λ v e. rw e refl;
        on_rootwait = λ e. rw e refl;
        on_rootwait_value = λ v e. rw e refl;
        on_init = λ v e. rw e refl;
        on_loop = λ v e. rw e refl;
        on_loopfstype = λ v e. rw e refl;
        on_luks = λ v e. rw e refl;
        on_luks_keyfile = λ v e. rw e refl;
        on_rd_verity = λ e. rw e refl;
        on_rd_break = λ v e. rw e (phased v (phase_of v) refl);
        on_rd_shell = λ e. rw e refl;
        on_rd_rescue = λ e. rw e refl;
        on_single = λ e. rw e refl;
        on_short = λ e. rw e refl;
        on_rd_fsck = λ e. rw e refl;
        on_rd_tpm2 = λ e. rw e refl;
        on_rd_udev = λ e. rw e refl;
        on_quiet = λ e. rw e refl;
        on_other = λ h.
            rw
              (
                h.no_root, h.no_rootfstype, h.no_rootflags, h.no_rootwait, h.no_rootwait_value,
                h.no_init, h.no_loop, h.no_loopfstype, h.no_luks, h.no_luks_keyfile, h.no_rd_verity,
                h.no_rd_break, h.no_rd_shell, h.no_rd_rescue, h.no_single, h.no_short, h.no_rd_fsck,
                h.no_rd_tpm2, h.no_rd_udev, h.no_quiet,
              )
              refl;
      }
  where
    phased :
        (v : Text) (o : Option RdBreak)
        → phase_of v ≡ o
        → record s { rd_break = break_at o s.rd_break }
          ≡ record s { rd_break = or_old (given o) s.rd_break }
    phased v none e = refl
    phased v (some p) e = refl

-- The loop over the words of the command line gives each parameter the value of the last word that
-- gives it one, and its default where none does, whatever the other words are; a number that does
-- not parse counts as no number, and a phase that is not known is passed over.
pub scan-last_wins : (toks : List Text) (s : Scan) → scan toks s ≡ last_wins toks s
unfolding scan
scan-last_wins [] s = refl
scan-last_wins (t ∷ ts) s =
    scan-last_wins ts (read_token t s) ∙ ap (last_wins ts) (read_token-last_wins t s)
