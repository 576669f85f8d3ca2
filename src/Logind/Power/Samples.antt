-- ===== src/Logind/Power/Samples.antt =====
-- Power operations of a small machine, and the theorems applied to them.
use quantra_system.Base.{
  ℕ, ◌+◌, ◌*◌, ◌≤◌, ◌≡◌, refl, true, false, not, ◌&&◌, ◌||◌, none, [], ◌∷◌, if◌then◌else◌, max,
}
use quantra_system.Base.Text.{codes}
use quantra_system.Base.Assoc.{insert, get, modify}
use quantra_system.Logind.Types.{sleep, shutdown, block, delay, tty, user}
use quantra_system.Logind.Config.{LogindConfig, default_config}
use quantra_system.Logind.Inhibitor
use quantra_system.Logind.Session
use quantra_system.Logind.Power.{PowerManager, Kernel, wait_delay}
use quantra_system.Logind.Power
use quantra_system.Logind.Power.Blocks
use quantra_system.Logind.Power.Blocks.{perform-acts}
use quantra_system.Logind.Power.Delay
use quantra_system.Logind.Power.Idle
use quantra_system.Logind.Power.Idle.{Poll, IsQuietSince, idle_round, since_after}

abbrev machine : PowerManager
machine = Power.new (codes "freeze mem disk\n") (codes "[platform] shutdown\n") default_config

abbrev kernel : Kernel
kernel = record { takes_state = λ mode. true; takes_firmware_flag = true }

-- A player blocks sleep, a backup delays shutdown.
abbrev held : Inhibitor.InhibitorManager
held =
    (Inhibitor.take 101 (shutdown ∷ []) "backup" "running" delay 0 42
      (Inhibitor.take 100 (sleep ∷ []) "player" "video" block 1000 41 Inhibitor.new).1).1

perform-acts_example : Blocks.acts (Blocks.perform Blocks.suspend kernel machine held false) ≡ (
    Blocks.has_support kernel machine Blocks.suspend
    && (Blocks.ignores machine.config Blocks.suspend
        || (false || not (Inhibitor.is_blocked (Blocks.what_of Blocks.suspend) held))))
perform-acts_example = perform-acts Blocks.suspend kernel machine held false

wait_delay-full_example : wait_delay machine held shutdown ≡ (
    if Inhibitor.has_delay shutdown held
    then Delay.whole_rounds (machine.config.inhibit_delay_max_sec * 1000)
    else 0)
wait_delay-full_example = Delay.wait_delay-full machine held shutdown

waits_5_seconds : wait_delay machine held shutdown ≡ 5000
unfolding wait_delay Power.poll_delay Power.new Inhibitor.take Inhibitor.has_delay Inhibitor.new
    Inhibitor.covers Inhibitor.what_eq insert
waits_5_seconds = refl

-- One session, idle.
abbrev one_session : Session.SessionManager
one_session =
    (Session.set_idle_hint 50 1 true
      (Session.open_session 10
        (record {
          uid = 1000;
          username = "ada";
          leader_pid = 7;
          session_type = tty;
          session_class = user;
          tty = none;
          display = none;
          remote_host = none;
          remote_user = none;
          service = none;
          vt = none;
        })
        Session.new).1).1

abbrev at_second : ℕ → Poll
at_second now = record { now = now; inhibitors = held; sessions = one_session }

abbrev quick : LogindConfig
quick = record default_config { idle_action_sec = 60 }

idle_round-IsQuietSince_example :
    (t : ℕ) × IsQuietSince t (at_second 120 ∷ at_second 90 ∷ at_second 60 ∷ [])
    × (t + max quick.idle_action_sec 1 ≤ 120)
unfolding idle_round since_after Inhibitor.take Inhibitor.new Inhibitor.is_handle_blocked
    Inhibitor.covers Inhibitor.what_eq Session.open_session Session.set_idle_hint Session.new insert
    get modify
idle_round-IsQuietSince_example =
    Idle.idle_round-IsQuietSince quick (at_second 120) (at_second 90 ∷ at_second 60 ∷ []) refl
