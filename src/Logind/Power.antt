-- ===== src/Logind/Power.antt =====
-- quantra-logind/src/power.rs: sleep and shutdown. What the kernel is told is a list of effects;
-- whether it takes a write is an argument.
pub mod Delay
pub mod Blocks
pub mod Acpi
pub mod Idle
mod Samples
use Prim.Native.String.{String}
use quantra_system.Base.{
  ℕ, zero, suc, ◌+◌, ◌-◌, ◌*◌, ◌/◌, Bool, true, false, not, ◌&&◌, Option, none, some, List, [], ◌∷◌,
  ◌++◌, if◌then◌else◌, ltb, min,
}
use quantra_system.Base.Text.{
  Text, codes, split_whitespace, has_word, has_infix, words_from, is_space,
}
use quantra_system.Logind.Types.{InhibitWhat, shutdown, sleep}
use quantra_system.Logind.Config.{LogindConfig, CanDo, able, unable}
use quantra_system.Logind.Inhibitor.{InhibitorManager, is_blocked, has_delay}

pub record ScheduledShutdown : Type 0 where
  pub action : String
  pub time_usec : ℕ

pub record PowerManager : Type 0 where
  pub can_suspend : Bool
  pub can_hibernate : Bool
  pub can_hybrid_sleep : Bool
  pub can_suspend_then_hibernate : Bool
  pub scheduled_shutdown : Option ScheduledShutdown
  pub config : LogindConfig

-- From the texts of /sys/power/state and /sys/power/disk.
unfoldable pub new : Text → Text → LogindConfig → PowerManager
new states disk_modes config = record {
  can_suspend = has_word (codes "mem") (split_whitespace states);
  can_hibernate = has_word (codes "disk") (split_whitespace states);
  can_hybrid_sleep =
      has_word (codes "disk") (split_whitespace states) && has_infix (codes "suspend") disk_modes;
  can_suspend_then_hibernate =
      has_word (codes "mem") (split_whitespace states)
      && has_word (codes "disk") (split_whitespace states);
  scheduled_shutdown = none;
  config = config;
}

abbrev pub can : Bool → CanDo
can true = able
can false = unable

abbrev pub can_power_off : PowerManager → CanDo
can_power_off pm = able

abbrev pub can_reboot : PowerManager → CanDo
can_reboot pm = able

abbrev pub can_suspend_q : PowerManager → CanDo
can_suspend_q pm = can pm.can_suspend

abbrev pub can_hibernate_q : PowerManager → CanDo
can_hibernate_q pm = can pm.can_hibernate

abbrev pub can_hybrid_sleep_q : PowerManager → CanDo
can_hybrid_sleep_q pm = can pm.can_hybrid_sleep

abbrev pub can_suspend_then_hibernate_q : PowerManager → CanDo
can_suspend_then_hibernate_q pm = can pm.can_suspend_then_hibernate

pub data RebootCommand : Type 0 where
  command_power_off command_restart command_halt : RebootCommand

pub data SleepMode : Type 0 where
  mem disk : SleepMode

-- What an operation does: it waits some milliseconds, writes to the terminals, sets the firmware
-- variable, writes to /sys/power/disk and to /sys/power/state, or calls `reboot`.
pub data Effect : Type 0 where
  waits : (millis : ℕ) → Effect
  wall firmware_flag disk_suspend : Effect
  writes_state : (mode : SleepMode) → Effect
  reboots : (command : RebootCommand) → Effect

pub data Failure : Type 0 where
  not_supported firmware_refused state_refused : Failure
  inhibited : (what : InhibitWhat) → Failure

-- The result, `none` for `Ok`, with the effects in order.
abbrev pub Outcome : Type 0
Outcome = Option Failure × List Effect

-- Which writes the kernel takes.
pub record Kernel : Type 0 where
  pub takes_state : SleepMode → Bool
  pub takes_firmware_flag : Bool

unfoldable pub check_block : InhibitorManager → InhibitWhat → Bool → Option Failure
check_block inh what interactive =
    if is_blocked what inh then if interactive then none else some (inhibited what) else none

-- `while start.elapsed() < max_wait`, on fuel, with the time that has elapsed: a round sleeps 200
-- milliseconds. The inhibitors are borrowed from their lock, so that they do not change meanwhile.
unfoldable pub poll_delay : ℕ → InhibitorManager → InhibitWhat → ℕ → ℕ → ℕ
poll_delay zero inh what max_wait elapsed = elapsed
poll_delay (suc fuel) inh what max_wait elapsed =
    let more = poll_delay fuel inh what max_wait (elapsed + 200) in
    if ltb elapsed max_wait then if not (has_delay what inh) then elapsed else more else elapsed

-- The milliseconds that the operation waits.
unfoldable pub wait_delay : PowerManager → InhibitorManager → InhibitWhat → ℕ
wait_delay pm inh what =
    let max_wait = pm.config.inhibit_delay_max_sec * 1000 in
    if not (has_delay what inh) then 0 else poll_delay (suc max_wait) inh what max_wait 0

abbrev pub unless : Option Failure → Outcome → Outcome
unless none o = o
unless (some f) o = (some f, [])

abbrev pub then_does : ℕ → List Effect → Outcome
then_does millis effects = (none, waits millis ∷ effects)

unfoldable pub power_off : PowerManager → InhibitorManager → Bool → Outcome
power_off pm inh interactive =
    unless (check_block inh shutdown interactive)
      (then_does (wait_delay pm inh shutdown) (wall ∷ reboots command_power_off ∷ []))

unfoldable pub reboot : PowerManager → InhibitorManager → Bool → Outcome
reboot pm inh interactive =
    unless (check_block inh shutdown interactive)
      (then_does (wait_delay pm inh shutdown) (wall ∷ reboots command_restart ∷ []))

-- This one does not wait for the delaying inhibitors.
unfoldable pub reboot_to_firmware : Kernel → InhibitorManager → Bool → Outcome
reboot_to_firmware k inh interactive = unless (check_block inh shutdown interactive) (
    if k.takes_firmware_flag
    then (none, firmware_flag ∷ wall ∷ reboots command_restart ∷ [])
    else (some firmware_refused, []))

unfoldable pub halt : PowerManager → InhibitorManager → Bool → Outcome
halt pm inh interactive =
    unless (check_block inh shutdown interactive)
      (then_does (wait_delay pm inh shutdown) (wall ∷ reboots command_halt ∷ []))

-- The write to /sys/power/state, and the answer to it.
abbrev pub state_result : Kernel → SleepMode → Option Failure
state_result k mode = if k.takes_state mode then none else some state_refused

abbrev pub sleeps : Kernel → SleepMode → ℕ → List Effect → Outcome
sleeps k mode millis first = (state_result k mode, waits millis ∷ (first ++ writes_state mode ∷ []))

abbrev pub supported : Bool → Outcome → Outcome
supported true o = o
supported false o = (some not_supported, [])

unfoldable pub suspend : Kernel → PowerManager → InhibitorManager → Bool → Outcome
suspend k pm inh interactive = supported pm.can_suspend (
    unless
      (if not pm.config.suspend_key_ignore_inhibited
        then check_block inh sleep interactive
        else none)
      (sleeps k mem (wait_delay pm inh sleep) []))

unfoldable pub hibernate : Kernel → PowerManager → InhibitorManager → Bool → Outcome
hibernate k pm inh interactive = supported pm.can_hibernate (
    unless
      (if not pm.config.hibernate_key_ignore_inhibited
        then check_block inh sleep interactive
        else none)
      (sleeps k disk (wait_delay pm inh sleep) []))

unfoldable pub hybrid_sleep : Kernel → PowerManager → InhibitorManager → Bool → Outcome
hybrid_sleep k pm inh interactive = supported pm.can_hybrid_sleep (
    unless (check_block inh sleep interactive)
      (sleeps k disk (wait_delay pm inh sleep) (disk_suspend ∷ [])))

unfoldable pub suspend_then_hibernate : Kernel → PowerManager → InhibitorManager → Bool → Outcome
suspend_then_hibernate k pm inh interactive = supported pm.can_suspend_then_hibernate (
    unless (check_block inh sleep interactive)
      (sleeps k mem (wait_delay pm inh sleep) (disk_suspend ∷ [])))

unfoldable pub schedule_shutdown : String → ℕ → PowerManager → List Effect × PowerManager
schedule_shutdown action time_usec pm = (
  wall ∷ [],
  record pm { scheduled_shutdown = some (record { action = action; time_usec = time_usec }) },
)

abbrev pub cancelled : Option ScheduledShutdown → PowerManager → Bool × List Effect × PowerManager
cancelled none pm = (false, [], pm)
cancelled (some s) pm = (true, wall ∷ [], record pm { scheduled_shutdown = none })

unfoldable pub cancel_scheduled_shutdown : PowerManager → Bool × List Effect × PowerManager
cancel_scheduled_shutdown pm = cancelled pm.scheduled_shutdown pm

pub data Subsystem : Type 0 where
  backlight leds : Subsystem
  other : (name : String) → Subsystem

-- The devices below /sys/class: the largest brightness that one names, and whether it takes a write.
pub record Lights : Type 0 where
  pub exists : Subsystem → String → Bool
  pub max_brightness : Subsystem → String → Option ℕ
  pub takes : Subsystem → String → ℕ → Bool
  pub brightness : Subsystem → String → Option ℕ

abbrev pub max_or : Option ℕ → ℕ → ℕ
max_or none d = d
max_or (some m) d = m

abbrev pub known : Subsystem → Bool
known (other name) = false
known backlight = true
known leds = true

-- The value that is written, `none` where the path is unknown or the write fails.
unfoldable pub set_brightness : Lights → Subsystem → String → ℕ → Option ℕ
set_brightness lights subsystem name value =
    let clamped = min value (max_or (lights.max_brightness subsystem name) 100) in
    if known subsystem && lights.exists subsystem name
    then if lights.takes subsystem name clamped then some clamped else none
    else none

-- The text of the file is read and parsed by `brightness`.
unfoldable pub get_brightness : Lights → Subsystem → String → Option ℕ
get_brightness lights subsystem name =
    if known subsystem && lights.exists subsystem name
    then lights.brightness subsystem name
    else none
