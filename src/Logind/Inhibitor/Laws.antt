-- ===== src/Logind/Inhibitor/Laws.antt =====
-- What inhibitor.rs promises: fresh numbers, and locks that hold until they are released.
use Prim.Native.String.{String}
use quantra_system.Base.{
  ℕ, ◌+◌, ◌≤◌, ◌<◌, ◌≡◌, refl, Bool, true, false, not, ◌&&◌, ◌||◌, Option, none, some, List, [],
  ◌∷◌, map, arith, if◌then◌else◌, ◌==◌, any, keep_if, ◌∙◌,
}
use quantra_system.Base.Assoc.{
  nat_eq, get, insert, remove, values, get-insert, get-remove, remove-insert_absent,
  any-insert_absent,
}
use native.Mathlib.Nat.{le_refl}
use quantra_system.Logind.Types.{Inhibitor, InhibitWhat, InhibitMode, block}
use quantra_system.Logind.Inhibitor.{
  InhibitorManager, new, take, release, release_each, release_by_pid, gc_dead_pids, covers,
  is_blocked, entry, mode_eq, what_eq,
}

-- Each entry stands under its own number, once, and below the next one.
abbrev pub IsKeyed : ℕ → List (ℕ × Inhibitor) → Type 0
IsKeyed n [] = Unit
IsKeyed n ((k, i) ∷ m) = (i.id ≡ k) × (k < n) × (get k m ≡ none) × IsKeyed n m

abbrev pub Inv : InhibitorManager → Type 0
Inv m = IsKeyed m.next_id m.inhibitors

get_past : (n k : ℕ) (m : List (ℕ × Inhibitor)) → IsKeyed n m → n ≤ k → get k m ≡ none
unfolding get
get_past n k [] h le = refl
get_past n k ((j, i) ∷ m) h le = ground (arith, get_past n k m h.3)

IsKeyed-mono : (n n' : ℕ) (m : List (ℕ × Inhibitor)) → n ≤ n' → IsKeyed n m → IsKeyed n' m
IsKeyed-mono n n' [] le h = tt
IsKeyed-mono n n' ((k, i) ∷ m) le h = (h.0, omega (arith, h.1), h.2, IsKeyed-mono n n' m le h.3)

IsKeyed-insert :
    (n : ℕ) (i : Inhibitor) (m : List (ℕ × Inhibitor))
    → i.id ≡ n
    → IsKeyed n m
    → IsKeyed (n + 1) (insert n i m)
unfolding insert get
IsKeyed-insert n i [] e h = (e, omega arith, refl, tt)
IsKeyed-insert n i ((k, j) ∷ m) e h =
    let fresh = get-insert k n i m in ground (arith, IsKeyed-insert n i m e h.3, fresh)

IsKeyed-remove : (n k : ℕ) (m : List (ℕ × Inhibitor)) → IsKeyed n m → IsKeyed n (remove k m)
unfolding remove
IsKeyed-remove n k [] h = tt
IsKeyed-remove n k ((j, i) ∷ m) h = ground (arith, IsKeyed-remove n k m h.3, get-remove j k m)

release_each-Inv : (ids : List ℕ) (m : InhibitorManager) → Inv m → Inv (release_each ids m)
unfolding release_each release
release_each-Inv [] m h = h
release_each-Inv (id ∷ ids) m h =
    release_each-Inv ids _ (IsKeyed-remove m.next_id id m.inhibitors h)

-- An operation of the manager, with its arguments.
pub data Call : Type 0 where
  takes :
      (now : ℕ) (what : List InhibitWhat) (who why : String) (mode : InhibitMode) (uid pid : ℕ)
      → Call
  releases : (id : ℕ) → Call
  releases_pid : (pid : ℕ) → Call
  collects : (pid_exists : ℕ → Bool) → Call

unfoldable pub step : Call → InhibitorManager → InhibitorManager
step (takes now what who why mode uid pid) m = (take now what who why mode uid pid m).1
step (releases id) m = (release id m).1
step (releases_pid pid) m = release_by_pid pid m
step (collects pid_exists) m = gc_dead_pids pid_exists m

pub run : List Call → InhibitorManager → InhibitorManager
run [] m = m
run (c ∷ cs) m = run cs (step c m)

pub step-Inv : (c : Call) (m : InhibitorManager) → Inv m → Inv (step c m)
unfolding step take release release_by_pid gc_dead_pids
step-Inv (takes now what who why mode uid pid) m h =
    IsKeyed-insert m.next_id (entry now what who why mode uid pid m.next_id) m.inhibitors refl h
step-Inv (releases id) m h = IsKeyed-remove m.next_id id m.inhibitors h
step-Inv (releases_pid pid) m h = release_each-Inv _ m h
step-Inv (collects pid_exists) m h = release_each-Inv _ m h

run-Inv : (cs : List Call) (m : InhibitorManager) → Inv m → Inv (run cs m)
unfolding run
run-Inv [] m h = h
run-Inv (c ∷ cs) m h = run-Inv cs (step c m) (step-Inv c m h)

-- After any history of calls each held inhibitor stands once, under its own number, below the
-- next number that will be given out.
pub run-new-Inv : (cs : List Call) → Inv (run cs new)
unfolding new
run-new-Inv cs = run-Inv cs (record { inhibitors = []; next_id = 1 }) tt

module _ (now : ℕ) (what : List InhibitWhat) (who why : String) (mode : InhibitMode) (uid pid : ℕ)
    (m : InhibitorManager) (inv : Inv m) where
  abbrev given : ℕ × InhibitorManager
  given = take now what who why mode uid pid m

  -- Where the held inhibitors stand under their own numbers, below the next one: releasing the
  -- number that `take` gave out succeeds, brings the old inhibitors back and leaves
  -- the counter one ahead; a second release of the number fails.
  pub release-take :
      (release given.0 given.1
        ≡ (true, record { inhibitors = m.inhibitors; next_id = m.next_id + 1 }))
      × ((release given.0 (release given.0 given.1).1).0 ≡ false)
  unfolding take release
  release-take =
      let absent = get_past m.next_id m.next_id m.inhibitors inv (le_refl _) in
      let i : Inhibitor = entry now what who why mode uid pid m.next_id in
      let back = remove-insert_absent m.next_id i m.inhibitors absent in
      let there = get-insert m.next_id m.next_id i m.inhibitors in
      (ground (arith, back, there), ground (arith, back, absent))

  -- Where the held inhibitors stand under their own numbers, below the next one: a new inhibitor
  -- blocks an action exactly if it is of mode `block` and names the action;
  -- what the held ones block stays blocked.
  pub is_blocked-take :
      (action : InhibitWhat)
      → is_blocked action given.1
        ≡ (is_blocked action m || (mode_eq mode block && any (what_eq action) what))
  unfolding take is_blocked covers
  is_blocked-take action =
      any-insert_absent (covers block action) m.next_id
        (entry now what who why mode uid pid m.next_id) m.inhibitors
        (get_past m.next_id m.next_id m.inhibitors inv (le_refl _))

abbrev pub mentions : ℕ → List ℕ → Bool
mentions k ids = any (λ j. j == k) ids

get-release_each :
    (k : ℕ) (ids : List ℕ) (m : InhibitorManager)
    → get k (release_each ids m).inhibitors ≡ (if mentions k ids then none else get k m.inhibitors)
unfolding release_each release
get-release_each k [] m = refl
get-release_each k (id ∷ ids) m = ground (
  arith,
  get-release_each k ids (record m { inhibitors = remove id m.inhibitors }),
  get-remove k id m.inhibitors,
)

-- The entry if it fails the test.
abbrev pub unless : (Inhibitor → Bool) → Option Inhibitor → Option Inhibitor
unless p none = none
unless p (some i) = if p i then none else some i

mentions_past :
    (p : Inhibitor → Bool) (n k : ℕ) (m : List (ℕ × Inhibitor))
    → IsKeyed n m
    → get k m ≡ none
    → mentions k (map (λ i. i.id) (keep_if p (values m))) ≡ false
unfolding get
mentions_past p n k [] h e = refl
mentions_past p n k ((j, i) ∷ m) h e = ground (arith, mentions_past p n k m h.3)

dropped :
    (p : Inhibitor → Bool) (n k : ℕ) (m : List (ℕ × Inhibitor))
    → IsKeyed n m
    → (if mentions k (map (λ i. i.id) (keep_if p (values m))) then none else get k m)
      ≡ unless p (get k m)
unfolding get
dropped p n k [] h = refl
dropped p n k ((j, i) ∷ m) h = ground (arith, dropped p n k m h.3, mentions_past p n k m h.3)

-- Where the held inhibitors stand under their own numbers: collection and release by process drop exactly the inhibitors of a process that is gone, and of
-- the given process; every other stays as it was.
pub get-gc :
    (pid_exists : ℕ → Bool) (pid k : ℕ) (m : InhibitorManager)
    → Inv m
    → (get k (gc_dead_pids pid_exists m).inhibitors
        ≡ unless (λ i. not (pid_exists i.pid)) (get k m.inhibitors))
      × (get k (release_by_pid pid m).inhibitors ≡ unless (λ i. i.pid == pid) (get k m.inhibitors))
unfolding gc_dead_pids release_by_pid
get-gc pid_exists pid k m h = (
  get-release_each k _ m ∙ dropped (λ i. not (pid_exists i.pid)) m.next_id k m.inhibitors h,
  get-release_each k _ m ∙ dropped (λ i. i.pid == pid) m.next_id k m.inhibitors h,
)
