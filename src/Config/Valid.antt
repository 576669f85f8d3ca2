-- ===== src/Config/Valid.antt =====
-- parser.rs: which configurations `validate_service` accepts.
use quantra_system.Base.{
  ℕ, ◌≤◌, ◌≡◌, ◌≢◌, refl, sym, ap, Bool, true, false, not, ◌&&◌, Option, none, some, List, [], ◌∷◌,
  ◌++◌, any, All, Bool-cases, inl, inr, ◌↔◌, ◌⊎◌, ◌==◌, arith, ==_iff,
}
use quantra_system.Base.Text.{Text, codes, text_eq, text_eq_sound, text_eq_refl, trim, starts_with}
use quantra_system.Config.{
  NotifyType, simple, notify, bg_process, ResourceLimits, Service, Invalid, is_empty, reject,
  is_forked, is_missing, chains_to, is_reversed, pairs, check_pairs, check_rlimit, is_listenable,
  check_sockets, in_name, validate_service,
}
use quantra_system.Config.Blank.{IsBlank, trim-empty}

-- A pair of limits: the hard one is 0, which means none, or the soft one is no larger.
abbrev pub IsOrdered : Option (ℕ × ℕ) → Type 0
IsOrdered none = Unit
IsOrdered (some (soft, hard)) = (hard ≡ 0) ⊎ (soft ≤ hard)

abbrev pub IsLimited : Option ResourceLimits → Type 0
IsLimited none = Unit
IsLimited (some rl) =
    All IsOrdered (rl.nofile ∷ rl.nproc ∷ rl.fsize ∷ rl.stack ∷ rl.memlock ∷ rl.core ∷ [])

abbrev pub IsAddress : Text → Type 0
IsAddress s = (rest : Text) × ((s ≡ codes "unix:" ++ rest) ⊎ (s ≡ codes "tcp:" ++ rest))

module _ (is_alphanumeric : ℕ → Bool) where
  abbrev pub IsNameChar : ℕ → Type 0
  IsNameChar c = (is_alphanumeric c ≡ true) ⊎ ((c ≡ 95) ⊎ (c ≡ 45))

  -- The name and the command are not blank, and the name has letters, digits, `_` and `-` alone; a
  -- process that forks away has a file for its number; the service does not lead to itself; the
  -- limits are ordered; and the sockets name their kind.
  pub record IsValid (svc : Service) : Type 0 where
    pub named : ¬ IsBlank svc.name
    pub plain : All IsNameChar svc.name
    pub runs : ¬ IsBlank svc.command
    pub tracked : (svc.notify_type ≢ bg_process) ⊎ ((path : Text) × (svc.pid_file ≡ some path))
    pub leads : svc.chain_to ≢ some svc.name
    pub limited : IsLimited svc.rlimit
    pub listens : All IsAddress svc.socket_listen

reject-none :
    {P Q : Type 0} (b : Bool) (e : Invalid) {next : Option Invalid}
    → (b ≡ false) ↔ P
    → (next ≡ none) ↔ Q
    → (reject b e next ≡ none) ↔ (P × Q)
reject-none true e i k = (λ h. cc, λ h. let no : true ≡ false = i.1 h.0 in cc)
reject-none false e i k = (λ h. (i.0 refl, k.0 h), λ h. k.1 h.1)

false_iff : {P : Type 0} (b : Bool) → (b ≡ true) ↔ P → (b ≡ false) ↔ (¬ P)
false_iff true i = (λ h p. cc, λ n. elim (n (i.0 refl)) [ ])
false_iff false i = (λ h p. let t : false ≡ true = i.1 p in cc, λ n. refl)

not_iff : (b : Bool) → (not b ≡ false) ↔ (b ≡ true)
not_iff true = (λ h. refl, λ h. refl)
not_iff false = (λ h. cc, λ h. cc)

any-All :
    {P : ℕ → Type 0} (p : ℕ → Bool)
    → ((c : ℕ) → (p c ≡ false) ↔ P c)
    → (s : Text) → (any p s ≡ false) ↔ All P s
any-All p i [] = (λ h. tt, λ h. refl)
any-All p i (c ∷ s) = elim (Bool-cases (p c)) [
  | inl e ↦ (λ h. cc, λ h. let no : p c ≡ false = (i c).1 h.0 in cc)
  | inr e ↦ (λ h. ((i c).0 e, (any-All p i s).0 (rw e at h)), λ h. rw e ((any-All p i s).1 h.1))
]

pub starts_with-append : (p s : Text) → (starts_with p s ≡ true) ↔ ((rest : Text) × (s ≡ p ++ rest))
starts_with-append [] s = (λ h. (s, refl), λ h. refl)
starts_with-append (a ∷ p) [] = (λ h. cc, λ (rest, e). cc)
starts_with-append (a ∷ p) (c ∷ s) = elim (Bool-cases (a == c)) [
  | inl e ↦
      let same : a ≡ c = (==_iff a c).0 e in
      (
        λ h. let (rest, eq) = (starts_with-append p s).0 (rw e at h) in (rest, cc),
        λ (rest, eq).
            let tail : s ≡ p ++ rest = cc in rw e ((starts_with-append p s).1 (rest, tail)),
      )
  | inr e ↦ (
    λ h. let no : false ≡ true = rw e at h in cc,
    λ (rest, eq).
        let same : c ≡ a = cc in let hit : (a == c) ≡ true = (==_iff a c).1 (sym same) in cc,
  )
]

in_name-IsNameChar : (al : ℕ → Bool) (c : ℕ) → (not (in_name al c) ≡ false) ↔ IsNameChar al c
in_name-IsNameChar al c = elim (Bool-cases (al c)) [
  | inl e ↦ (λ h. inl e, λ h. rw e refl)
  | inr e ↦ (λ h. inr (ground (arith, e)), λ h. ground (arith, e))
]

is_forked-is_missing :
    (n : NotifyType) (file : Option Text)
    → ((is_forked n && is_missing file) ≡ false)
      ↔ ((n ≢ bg_process) ⊎ ((path : Text) × (file ≡ some path)))
is_forked-is_missing simple file = (λ h. inl (λ e. cc), λ h. refl)
is_forked-is_missing notify file = (λ h. inl (λ e. cc), λ h. refl)
is_forked-is_missing bg_process none =
    (λ h. cc, λ h. elim h [ inl n ↦ elim (n refl) [ ] | inr (path, e) ↦ cc ])
is_forked-is_missing bg_process (some path) = (λ h. inr (path, refl), λ h. refl)

chains_to-some :
    (chain : Option Text) (name : Text) → (chains_to chain name ≡ false) ↔ (chain ≢ some name)
chains_to-some none name = (λ h e. cc, λ h. refl)
chains_to-some (some next) name = false_iff (text_eq next name) (
  λ h. ap some (text_eq_sound next name h),
  λ e. let same : next ≡ name = cc in rw same (text_eq_refl name),
)

is_reversed-IsOrdered : (pair : Option (ℕ × ℕ)) → (is_reversed pair ≡ false) ↔ IsOrdered pair
is_reversed-IsOrdered none = (λ h. tt, λ h. refl)
is_reversed-IsOrdered (some (soft, hard)) = ground arith

check_pairs-IsOrdered :
    (ps : List (Text × Option (ℕ × ℕ))) {Q : Type 0} {next : Option Invalid}
    → (next ≡ none) ↔ Q
    → (check_pairs ps next ≡ none) ↔ (All (λ p. IsOrdered p.1) ps × Q)
check_pairs-IsOrdered [] i = (λ h. (tt, i.0 h), λ h. i.1 h.1)
check_pairs-IsOrdered ((name, pair) ∷ ps) i =
    let k =
      reject-none (is_reversed pair) (Invalid.soft_above_hard name) (is_reversed-IsOrdered pair)
        (check_pairs-IsOrdered ps i) in
    (λ h. let (a, (b, c)) = k.0 h in ((a, b), c), λ ((a, b), c). k.1 (a, (b, c)))

check_rlimit-IsLimited :
    (rl : Option ResourceLimits) {Q : Type 0} {next : Option Invalid}
    → (next ≡ none) ↔ Q
    → (check_rlimit rl next ≡ none) ↔ (IsLimited rl × Q)
check_rlimit-IsLimited none i = (λ h. (tt, i.0 h), λ h. i.1 h.1)
check_rlimit-IsLimited (some rl) i = check_pairs-IsOrdered (pairs rl) i

is_listenable-IsAddress : (spec : Text) → (not (is_listenable spec) ≡ false) ↔ IsAddress spec
is_listenable-IsAddress spec = elim (Bool-cases (starts_with (codes "unix:") spec)) [
  | inl e ↦ (
    λ h. let (rest, q) = (starts_with-append (codes "unix:") spec).0 e in (rest, inl q),
    λ h. rw e refl,
  )
  | inr e ↦ (
    λ h.
        let hit : starts_with (codes "tcp:") spec ≡ true =
          (not_iff (starts_with (codes "tcp:") spec)).0 (rw e at h) in
        let (rest, q) = (starts_with-append (codes "tcp:") spec).0 hit in (rest, inr q),
    λ (rest, o). elim o [
      | inl q ↦
          let no : starts_with (codes "unix:") spec ≡ true =
            (starts_with-append (codes "unix:") spec).1 (rest, q) in
          cc
      | inr q ↦
          let hit : starts_with (codes "tcp:") spec ≡ true =
            (starts_with-append (codes "tcp:") spec).1 (rest, q) in
          rw e (rw hit refl)
    ],
  )
]

check_sockets-IsAddress : (specs : List Text) → (check_sockets specs ≡ none) ↔ All IsAddress specs
check_sockets-IsAddress [] = (λ h. tt, λ h. refl)
check_sockets-IsAddress (spec ∷ specs) =
    reject-none (not (is_listenable spec)) (Invalid.bad_socket spec) (is_listenable-IsAddress spec)
      (check_sockets-IsAddress specs)

blank_iff : (s : Text) → (is_empty (trim s) ≡ false) ↔ (¬ IsBlank s)
blank_iff s = false_iff (is_empty (trim s)) (trim-empty s)

-- A service is accepted exactly when it is valid.
pub validate_service-IsValid :
    (is_alphanumeric : ℕ → Bool) (svc : Service)
    → (validate_service is_alphanumeric svc ≡ none) ↔ IsValid is_alphanumeric svc
unfolding validate_service
validate_service-IsValid al svc =
    let k = reject-none (is_empty (trim svc.name)) Invalid.empty_name (blank_iff svc.name) (
      reject-none (any (λ c. not (in_name al c)) svc.name) Invalid.invalid_characters
        (any-All (λ c. not (in_name al c)) (in_name-IsNameChar al) svc.name)
        (reject-none (is_empty (trim svc.command)) Invalid.empty_command (blank_iff svc.command) (
          reject-none (is_forked svc.notify_type && is_missing svc.pid_file) Invalid.no_pid_file
            (is_forked-is_missing svc.notify_type svc.pid_file)
            (reject-none (chains_to svc.chain_to svc.name) Invalid.self_chain
              (chains_to-some svc.chain_to svc.name)
              (check_rlimit-IsLimited svc.rlimit (check_sockets-IsAddress svc.socket_listen)))))) in
    (
      λ h.
          let (a, (b, (c, (d, (e, (f, g)))))) = k.0 h in
          record {
            named = a;
            plain = b;
            runs = c;
            tracked = d;
            leads = e;
            limited = f;
            listens = g;
          },
      λ v. k.1 (v.named, (v.plain, (v.runs, (v.tracked, (v.leads, (v.limited, v.listens)))))),
    )
