-- ===== src/Ramfs/Switch.antt =====
-- quantra-ramfs/src/switch.rs: what to boot. Which paths exist, and which directories can be made, are
-- arguments.
pub mod Chosen
use quantra_system.Base.{Bool, Option, none, some, List, [], ◌∷◌, ◌++◌, if◌then◌else◌, find}
use quantra_system.Base.Text.{Text, codes, text_eq}

abbrev pub mount_targets : List Text
mount_targets = codes "/zairoot" ∷ codes "/mnt/root" ∷ codes "/sysroot" ∷ codes "/newroot" ∷ []

abbrev pub init_fallbacks : List Text
init_fallbacks =
    codes "/overlayer/syshub/engine/quantra"
    ∷ codes "/overlayer/syshub/engine/s6-quantra"
    ∷ codes "/sbin/init"
    ∷ codes "/usr/lib/systemd/systemd"
    ∷ codes "/lib/systemd/systemd"
    ∷ codes "/usr/sbin/init"
    ∷ codes "/overlayer/syshub/bin/fish"
    ∷ codes "/overlayer/syshub/bin/bash"
    ∷ codes "/overlayer/syshub/bin/zsh"
    ∷ codes "/overlayer/syshub/bin/sh"
    ∷ []

pub record BootTarget : Type 0 where
  pub mount_point : Text
  pub init_path : Text

abbrev pub or_else : Option Text → Option Text → Option Text
or_else (some t) other = some t
or_else none other = other

abbrev pub unwrap_or : Text → Option Text → Text
unwrap_or d none = d
unwrap_or d (some t) = t

-- The candidate that is named, or the first.
abbrev pub candidate : Text → Text
candidate init =
    unwrap_or (codes "/overlayer/syshub/engine/quantra") (find (λ i. text_eq i init) init_fallbacks)

module _ (creates exists : Text → Bool) where
  unfoldable pub find_mount_target : Option Text
  find_mount_target = or_else (find creates mount_targets) (find exists mount_targets)

module _ (exists : Text → Bool) where
  abbrev pub mounted : Text
  mounted = unwrap_or (codes "/zairoot") (find exists mount_targets)

  unfoldable pub find_init_binary : Text → Option Text
  find_init_binary new_root = find (λ c. exists (new_root ++ c)) init_fallbacks

  unfoldable pub discovered : Text → BootTarget
  discovered new_root = record {
    mount_point = mounted;
    init_path = unwrap_or (codes "/bin/sh") (find_init_binary new_root);
  }

  -- With what `init=` names, if it is given.
  unfoldable pub discover_boot_target : Option Text → Text → BootTarget
  discover_boot_target none new_root = discovered new_root
  discover_boot_target (some init) new_root =
      if exists (new_root ++ init)
      then record { mount_point = mounted; init_path = candidate init }
      else discovered new_root
