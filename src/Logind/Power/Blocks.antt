-- ===== src/Logind/Power/Blocks.antt =====
-- quantra-logind/src/power.rs: which locks stop which operation.
use quantra_system.Base.{Bool, true, false, not, ◌&&◌, ◌||◌, ◌≡◌, any, arith}
use quantra_system.Logind.Types.{InhibitWhat, shutdown, sleep}
use quantra_system.Logind.Config.{LogindConfig}
use quantra_system.Logind.Inhibitor.{InhibitorManager, is_blocked}
use quantra_system.Logind.Power.{
  PowerManager, Kernel, Effect, waits, wall, firmware_flag, disk_suspend, writes_state, reboots,
  Failure, Outcome, check_block, unless, then_does, supported, sleeps, wait_delay,
}
use quantra_system.Logind.Power

pub data Op : Type 0 where
  power_off reboot reboot_to_firmware halt suspend hibernate hybrid_sleep suspend_then_hibernate :
      Op

unfoldable pub perform : Op → Kernel → PowerManager → InhibitorManager → Bool → Outcome
perform power_off k pm inh i = Power.power_off pm inh i
perform reboot k pm inh i = Power.reboot pm inh i
perform reboot_to_firmware k pm inh i = Power.reboot_to_firmware k inh i
perform halt k pm inh i = Power.halt pm inh i
perform suspend k pm inh i = Power.suspend k pm inh i
perform hibernate k pm inh i = Power.hibernate k pm inh i
perform hybrid_sleep k pm inh i = Power.hybrid_sleep k pm inh i
perform suspend_then_hibernate k pm inh i = Power.suspend_then_hibernate k pm inh i

-- The kind of lock that is asked for.
abbrev pub what_of : Op → InhibitWhat
what_of power_off = shutdown
what_of reboot = shutdown
what_of reboot_to_firmware = shutdown
what_of halt = shutdown
what_of _ = sleep

-- The machine has what the operation needs.
abbrev pub has_support : Kernel → PowerManager → Op → Bool
has_support k pm suspend = pm.can_suspend
has_support k pm hibernate = pm.can_hibernate
has_support k pm hybrid_sleep = pm.can_hybrid_sleep
has_support k pm suspend_then_hibernate = pm.can_suspend_then_hibernate
has_support k pm reboot_to_firmware = k.takes_firmware_flag
has_support k pm _ = true

-- The configuration has the operation ignore the locks.
abbrev pub ignores : LogindConfig → Op → Bool
ignores c suspend = c.suspend_key_ignore_inhibited
ignores c hibernate = c.hibernate_key_ignore_inhibited
ignores c _ = false

-- The machine goes down or sleeps, as far as the kernel does what it is told.
abbrev pub is_act : Effect → Bool
is_act (reboots c) = true
is_act (writes_state m) = true
is_act _ = false

abbrev pub acts : Outcome → Bool
acts o = any is_act o.1

-- An operation reboots, powers off or writes to /sys/power/state exactly if the machine supports it
-- and it is interactive, or configured to ignore locks, or no lock blocks its kind.
pub perform-acts :
    (o : Op) (k : Kernel) (pm : PowerManager) (inh : InhibitorManager) (i : Bool)
    → acts (perform o k pm inh i)
      ≡ (has_support k pm o && (ignores pm.config o || (i || not (is_blocked (what_of o) inh))))
unfolding perform Power.power_off Power.reboot Power.reboot_to_firmware Power.halt Power.suspend
    Power.hibernate Power.hybrid_sleep Power.suspend_then_hibernate check_block
perform-acts power_off k pm inh i = ground arith
perform-acts reboot k pm inh i = ground arith
perform-acts reboot_to_firmware k pm inh i = ground arith
perform-acts halt k pm inh i = ground arith
perform-acts suspend k pm inh i = ground arith
perform-acts hibernate k pm inh i = ground arith
perform-acts hybrid_sleep k pm inh i = ground arith
perform-acts suspend_then_hibernate k pm inh i = ground arith
