-- ===== src/Logind/Power/Acpi.antt =====
-- quantra-logind/src/power.rs: the events of buttons and of the lid. A line of the kernel's is a text
-- of ASCII codes.
use Prim.Native.String.{String}
use quantra_system.Base.{
  ℕ, ◌+◌, Bool, true, false, ◌&&◌, Option, none, some, [], ◌∷◌, map, ◌≡◌, ◌≢◌, if◌then◌else◌, leb,
  arith,
}
use quantra_system.Base.Text.{Text, codes, starts_with, has_infix}
use quantra_system.Logind.Config.{LogindConfig, PowerAction}
use quantra_system.Logind.Inhibitor.{InhibitorManager}
use quantra_system.Logind.Power.{PowerManager, Kernel, Outcome}
use quantra_system.Logind.Power

pub data AcpiEvent : Type 0 where
  power_button sleep_button lid_close lid_open battery_low ac_adapter_inserted ac_adapter_removed
        brightness_up brightness_down video_switch_mode :
      AcpiEvent

-- `to_lowercase` on ASCII codes.
abbrev pub lower : ℕ → ℕ
lower c = if leb 65 c && leb c 90 then c + 32 else c

abbrev pub both : String → String → Text → Bool
both a b line = has_infix (codes a) line && has_infix (codes b) line

-- The tests on a line in lower case.
unfoldable pub event_of : Text → Option AcpiEvent
event_of l =
    if both "power" "button" l
    then some power_button
    else if both "sleep" "button" l
    then some sleep_button
    else if both "lid" "close" l
    then some lid_close
    else if both "lid" "open" l
    then some lid_open
    else if both "ac_adapter" "plug" l
    then some ac_adapter_inserted
    else if both "ac_adapter" "unplug" l
    then some ac_adapter_removed
    else none

unfoldable pub parse_acpi_line : Text → Option AcpiEvent
parse_acpi_line line = event_of (map lower line)

-- The action that the configuration gives for an event.
abbrev pub action_of : LogindConfig → AcpiEvent → Option PowerAction
action_of c power_button = some c.handle_power_key
action_of c sleep_button = some c.handle_suspend_key
action_of c lid_close = some c.handle_lid_switch
action_of c _ = none

-- Every answer is ignored; a lock is only logged.
abbrev pub do_action :
    Kernel → PowerManager → InhibitorManager → Option PowerAction → Option Outcome
do_action k pm inh (some PowerAction.power_off) = some (Power.power_off pm inh false)
do_action k pm inh (some PowerAction.reboot) = some (Power.reboot pm inh false)
do_action k pm inh (some PowerAction.suspend) = some (Power.suspend k pm inh false)
do_action k pm inh (some PowerAction.hibernate) = some (Power.hibernate k pm inh false)
do_action k pm inh (some PowerAction.hybrid_sleep) = some (Power.hybrid_sleep k pm inh false)
do_action k pm inh _ = none

-- The operation that an event runs, with its outcome.
unfoldable pub handle_acpi_event :
    LogindConfig → Kernel → PowerManager → InhibitorManager → AcpiEvent → Option Outcome
handle_acpi_event c k pm inh event = do_action k pm inh (action_of c event)

starts_with-has_infix : (ps s : Text) → starts_with ps s ≡ true → has_infix ps s ≡ true
unfolding has_infix
starts_with-has_infix ps [] h = h
starts_with-has_infix ps (c ∷ s) h = ground arith

-- The pattern without its first character.
has_infix-tail : (p : ℕ) (ps s : Text) → has_infix (p ∷ ps) s ≡ true → has_infix ps s ≡ true
unfolding has_infix
has_infix-tail p ps [] h = ground arith
has_infix-tail p ps (c ∷ s) h = ground (arith, starts_with-has_infix ps s, has_infix-tail p ps s)

-- No line is read as the removal of the power adapter: a line that contains "unplug" contains "plug",
-- which is tested first.
pub parse_acpi_line-never_removed : (line : Text) → parse_acpi_line line ≢ some ac_adapter_removed
unfolding parse_acpi_line event_of
parse_acpi_line-never_removed line =
    let l = map lower line in
    ground (arith, has_infix-tail 110 (codes "plug") l, has_infix-tail 117 (codes "nplug") l)
