-- ===== src/Logind/Power/Idle.antt =====
-- quantra-logind/src/power.rs: the loop that acts when all sessions are idle. A round of the loop
-- sees the clock, in seconds, the locks and the sessions.
use quantra_system.Base.{
  ℕ, ◌+◌, ◌-◌, ◌≤◌, Bool, true, false, not, ◌&&◌, Option, none, some, List, [], ◌∷◌, ◌≡◌, refl,
  subst, if◌then◌else◌, leb, max, arith,
}
use quantra_system.Base.Assoc.{nat_eq, values}
use quantra_system.Logind.Types.{Session, idle}
use quantra_system.Logind.Config.{LogindConfig, PowerAction}
use quantra_system.Logind.Inhibitor.{InhibitorManager, is_handle_blocked}
use quantra_system.Logind.Session.{SessionManager, lock_all}
use quantra_system.Logind.Power.{PowerManager, Kernel, Outcome}
use quantra_system.Logind.Power

pub record Poll : Type 0 where
  pub now : ℕ
  pub inhibitors : InhibitorManager
  pub sessions : SessionManager

abbrev pub all_hint : List Session → Bool
all_hint [] = true
all_hint (s ∷ ss) = s.idle_hint && all_hint ss

-- There is a session, and every session is idle.
abbrev pub all_idle : List Session → Bool
all_idle [] = false
all_idle (s ∷ ss) = all_hint (s ∷ ss)

abbrev pub threshold : LogindConfig → ℕ
threshold c = max c.idle_action_sec 1

-- `get_or_insert_with(Instant::now)`
abbrev pub since_or : Option ℕ → ℕ → ℕ
since_or none now = now
since_or (some t) now = t

-- The time that all were first idle after a round, and whether the round acts.
unfoldable pub idle_round : LogindConfig → Poll → Option ℕ → Option ℕ × Bool
idle_round c p all_idle_since =
    let since = since_or all_idle_since p.now in
    if is_handle_blocked idle p.inhibitors
    then (none, false)
    else if all_idle (values p.sessions.sessions)
    then if leb (threshold c) (p.now - since) then (none, true) else (some since, false)
    else (none, false)

-- What a round that acts does: a power operation, or a lock of all sessions.
unfoldable pub idle_act :
    LogindConfig → Kernel → PowerManager → Poll → Option Outcome × SessionManager
idle_act c k pm p = elim c.idle_action [
  | PowerAction.suspend ↦ (some (Power.suspend k pm p.inhibitors false), p.sessions)
  | PowerAction.hibernate ↦ (some (Power.hibernate k pm p.inhibitors false), p.sessions)
  | PowerAction.hybrid_sleep ↦ (some (Power.hybrid_sleep k pm p.inhibitors false), p.sessions)
  | PowerAction.power_off ↦ (some (Power.power_off pm p.inhibitors false), p.sessions)
  | PowerAction.lock ↦ (none, lock_all p.sessions)
  | _ ↦ (none, p.sessions)
]

-- The loop's variable after a history of rounds, the newest first.
unfoldable pub since_after : LogindConfig → List Poll → Option ℕ
since_after c [] = none
since_after c (p ∷ ps) = (idle_round c p (since_after c ps)).0

-- A round that sees no lock on idleness and only idle sessions.
abbrev pub is_quiet : Poll → Bool
is_quiet p = not (is_handle_blocked idle p.inhibitors) && all_idle (values p.sessions.sessions)

-- Every round of the history since the one at time `t`, and that one, is quiet.
pub data IsQuietSince (t : ℕ) : List Poll → Type 0 where
  from : {p : Poll} {ps : List Poll} → is_quiet p ≡ true → p.now ≡ t → IsQuietSince t (p ∷ ps)
  later :
      {p : Poll} {ps : List Poll} → is_quiet p ≡ true → IsQuietSince t ps → IsQuietSince t (p ∷ ps)

extend :
    (p : Poll) (ps : List Poll) (o : Option ℕ)
    → ((t : ℕ) → o ≡ some t → IsQuietSince t ps)
    → is_quiet p ≡ true
    → IsQuietSince (since_or o p.now) (p ∷ ps)
extend p ps none ih q = from q refl
extend p ps (some t) ih q = later q (ih t refl)

round-since :
    (c : LogindConfig) (p : Poll) (o : Option ℕ) (t : ℕ)
    → (idle_round c p o).0 ≡ some t
    → (is_quiet p ≡ true) × (since_or o p.now ≡ t)
unfolding idle_round
round-since c p o t h = (ground arith, ground arith)

since_after-IsQuietSince :
    (c : LogindConfig) (ps : List Poll) (t : ℕ) → since_after c ps ≡ some t → IsQuietSince t ps
unfolding since_after
since_after-IsQuietSince c [] t h = ground arith
since_after-IsQuietSince c (p ∷ ps) t h =
    let (q, e) = round-since c p (since_after c ps) t h in
    subst (λ u. IsQuietSince u (p ∷ ps)) e
      (extend p ps (since_after c ps) (since_after-IsQuietSince c ps) q)

round-acts :
    (c : LogindConfig) (p : Poll) (o : Option ℕ)
    → (idle_round c p o).1 ≡ true
    → (is_quiet p ≡ true) × (since_or o p.now + threshold c ≤ p.now)
unfolding idle_round
round-acts c p o h = (ground arith, ground arith)

-- A round acts only when for the configured time, and at least for a second, all sessions were idle
-- and no lock on idleness was held, at each round since.
pub idle_round-IsQuietSince :
    (c : LogindConfig) (p : Poll) (ps : List Poll)
    → (idle_round c p (since_after c ps)).1 ≡ true
    → (t : ℕ) × IsQuietSince t (p ∷ ps) × (t + max c.idle_action_sec 1 ≤ p.now)
idle_round-IsQuietSince c p ps h =
    let (q, enough) = round-acts c p (since_after c ps) h in
    (
      since_or (since_after c ps) p.now,
      extend p ps (since_after c ps) (since_after-IsQuietSince c ps) q,
      enough,
    )
