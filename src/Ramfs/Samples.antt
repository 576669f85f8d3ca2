-- ===== src/Ramfs/Samples.antt =====
-- A kernel command line, what the ramdisk reads in it, and the theorems applied to it.
use quantra_system.Base.{◌≡◌, refl, Bool, true, not, some, ◌∷◌, replicate, arith, ◌||◌}
use quantra_system.Base.Text.{
  Text, codes, text_eq, strip_prefix, words_from, is_space, parse_uint, trim, split_whitespace,
}
use quantra_system.Ramfs.Cmdline
use quantra_system.Ramfs.Cmdline.Parse
use quantra_system.Ramfs.Cmdline.Reference
use quantra_system.Ramfs.Cmdline.LastWins
use quantra_system.Ramfs.Verity
use quantra_system.Ramfs.Verity.Hex
use quantra_system.Ramfs.Verity.Enabled
use quantra_system.Ramfs.Switch
use quantra_system.Ramfs.Switch.Chosen

abbrev line : Text
line =
    codes
      "root=/dev/a quiet root=UUID=b rootwait=7 rootwait=x rd.break=later rd.verity=1 s rd.lvm.vg=c rd.lvm.vg=d"

reading : Unit {0}
unfolding Cmdline.scan Cmdline.read_token Cmdline.read_later Cmdline.read_flag Parse.parse
    strip_prefix words_from is_space parse_uint trim Verity.parse_verity_cmdline Verity.scan
    Verity.read_token Verity.decode_roothash Verity.decode_pairs Verity.encode_hex
    Switch.discover_boot_target Switch.discovered Switch.find_init_binary
reading = tt

-- The last root counts, the first volume group, and the bad number removes the good one.
scan-line : Cmdline.scan (split_whitespace line) Cmdline.initial ≡ record Cmdline.initial {
  root = some (codes "UUID=b");
  quiet = true;
  verity_enabled = true;
  rd_rescue = true;
}
unfolding reading
scan-line = refl

volume_group : (Parse.from_words line (split_whitespace line)).rd_lvm_vg ≡ some (codes "c")
unfolding reading
volume_group = refl

scan-last_wins_example :
    Cmdline.scan (split_whitespace line) Cmdline.initial
    ≡ Reference.last_wins (split_whitespace line) Cmdline.initial
scan-last_wins_example = LastWins.scan-last_wins (split_whitespace line) Cmdline.initial

parse-line : Parse.parse (some line) ≡ some (Parse.from_words line (split_whitespace line))
unfolding Parse.parse
parse-line = refl

parse_verity_cmdline-enabled_example :
    Enabled.is_disabled
      (Verity.parse_verity_cmdline (Parse.from_words line (split_whitespace line)).raw)
    ≡ not (Parse.from_words line (split_whitespace line)).scanned.verity_enabled
parse_verity_cmdline-enabled_example =
    Enabled.parse_verity_cmdline-enabled line (Parse.from_words line (split_whitespace line))
      parse-line

decode_roothash-encode_hex_example :
    Verity.decode_roothash (Verity.encode_hex (171 ∷ replicate 31 9)) ≡ some (171 ∷ replicate 31 9)
decode_roothash-encode_hex_example =
    Hex.decode_roothash-encode_hex (171 ∷ replicate 31 9) refl (omega arith)

abbrev exists : Text → Bool
exists t = text_eq t (codes "/new_root/custom") || text_eq t (codes "/new_root/sbin/init")

-- The file that `init=` names is there, and another is booted that is not.
discover-custom :
    (Switch.discover_boot_target exists (some (codes "/custom")) (codes "/new_root")).init_path
    ≡ codes "/overlayer/syshub/engine/quantra"
unfolding reading
discover-custom = refl

discover_boot_target-Chosen_example :
    Chosen.Chosen exists
      (codes "/new_root")
      (some (codes "/custom"))
      (Switch.discover_boot_target exists (some (codes "/custom")) (codes "/new_root")).init_path
discover_boot_target-Chosen_example =
    Chosen.discover_boot_target-Chosen exists (codes "/new_root") (some (codes "/custom"))
