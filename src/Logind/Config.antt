-- ===== src/Logind/Config.antt =====
-- quantra-logind/src/types.rs: the configuration of the login manager. Reading it is the work of
-- the TOML library.
use Prim.Native.String.{String}
use quantra_system.Base.{ℕ, Bool, true, false, Option, none, some, List, [], ◌∷◌}

pub data PowerAction : Type 0 where
  power_off reboot reboot_to_bootloader_menu reboot_to_bootloader_entry reboot_to_firmware_setup
        halt kexec suspend hibernate hybrid_sleep suspend_then_hibernate ignore lock :
      PowerAction

pub data CanDo : Type 0 where
  able unable challenge na : CanDo

pub record LogindConfig : Type 0 where
  pub n_autovts : ℕ
  pub reserve_vt : ℕ
  pub kill_user_processes : Bool
  pub kill_only_users : List String
  pub kill_exclude_users : List String
  pub idle_action : PowerAction
  pub idle_action_sec : ℕ
  pub inhibit_delay_max_sec : ℕ
  pub inhibit_max_delay_sec : ℕ
  pub user_stop_delay_sec : ℕ
  pub handle_power_key : PowerAction
  pub handle_power_key_long_press : PowerAction
  pub handle_suspend_key : PowerAction
  pub handle_hibernate_key : PowerAction
  pub handle_lid_switch : PowerAction
  pub handle_lid_switch_docked : PowerAction
  pub handle_lid_switch_external_power : PowerAction
  pub handle_reboot_key : PowerAction
  pub power_key_ignore_inhibited : Bool
  pub suspend_key_ignore_inhibited : Bool
  pub hibernate_key_ignore_inhibited : Bool
  pub lid_switch_ignore_inhibited : Bool
  pub runtime_directory_size : Option String
  pub runtime_directory_inodes : Option ℕ
  pub remove_ipc : Bool
  pub holdoff_timeout_sec : ℕ
  pub stop_timeout_sec : ℕ

abbrev pub default_config : LogindConfig
default_config = record {
  n_autovts = 6;
  reserve_vt = 6;
  kill_user_processes = false;
  kill_only_users = [];
  kill_exclude_users = "root" ∷ [];
  idle_action = ignore;
  idle_action_sec = 1800;
  inhibit_delay_max_sec = 5;
  inhibit_max_delay_sec = 5;
  user_stop_delay_sec = 10;
  handle_power_key = power_off;
  handle_power_key_long_press = ignore;
  handle_suspend_key = suspend;
  handle_hibernate_key = hibernate;
  handle_lid_switch = suspend;
  handle_lid_switch_docked = ignore;
  handle_lid_switch_external_power = ignore;
  handle_reboot_key = reboot;
  power_key_ignore_inhibited = false;
  suspend_key_ignore_inhibited = false;
  hibernate_key_ignore_inhibited = false;
  lid_switch_ignore_inhibited = true;
  runtime_directory_size = some "10%";
  runtime_directory_inodes = none;
  remove_ipc = true;
  holdoff_timeout_sec = 30;
  stop_timeout_sec = 10;
}
