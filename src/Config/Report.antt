-- ===== src/Config/Report.antt =====
-- parser.rs: which services a report holds.
use mathlib.Core.List.{Memᴰ}
use quantra_system.Base.{
  ℕ, ◌≡◌, refl, sym, ap, Bool, true, false, Option, none, some, List, [], ◌∷◌, keep_if-Memᴰ, map,
  Bool-cases, inl, inr, ◌↔◌,
}
use quantra_system.Base.Text.{Text, text_eq, text_eq_sound, text_eq_refl, has_word}
use quantra_system.Config.{Service}
use quantra_system.Config.Valid.{IsValid}
use quantra_system.Config.Loading.{IsListed, load_total}
use quantra_system.Config.Files.{
  Disk, ServiceParseReport, bootstrap_services, join, is_enabled, apply_enabled_filter, filtered,
  finished, parse_services_inner,
}

has_word-Memᴰ : (w : Text) (ws : List Text) → (has_word w ws ≡ true) ↔ Memᴰ w ws
has_word-Memᴰ w [] = (λ h. cc, λ m. elim m [ ])
has_word-Memᴰ w (v ∷ vs) = elim (Bool-cases (text_eq v w)) [
  | inl e ↦ (λ h. Memᴰ.head (sym (text_eq_sound v w e)), λ m. rw e refl)
  | inr e ↦ (
    λ h. Memᴰ.tail ((has_word-Memᴰ w vs).0 (rw e at h)),
    λ m. elim m [
      | Memᴰ.head q ↦ let hit : text_eq v w ≡ true = rw q (text_eq_refl v) in cc
      | Memᴰ.tail m' ↦ rw e ((has_word-Memᴰ w vs).1 m')
    ],
  )
]

module _ (disk : Disk) where
  -- There is no filter, or no directory of markers, or the service is one of the three that always
  -- start, or it has a marker.
  pub data IsWanted (svc : Service) : Option Text → Type 0 where
    unfiltered : IsWanted svc none
    fail_open : {dir : Text} → disk.exists dir ≡ false → IsWanted svc (some dir)
    bootstrap : {dir : Text} → Memᴰ svc.name bootstrap_services → IsWanted svc (some dir)
    marked : {dir : Text} → disk.exists (join dir svc.name) ≡ true → IsWanted svc (some dir)

  filtered-IsWanted :
      (enabled : Option Text) (svc : Service) (r : ServiceParseReport)
      → Memᴰ svc (filtered disk enabled r).services ↔ (Memᴰ svc r.services × IsWanted svc enabled)
  unfolding apply_enabled_filter
  filtered-IsWanted none svc r = (λ m. (m, unfiltered), λ (m, w). m)
  filtered-IsWanted (some dir) svc r = elim (Bool-cases (disk.exists dir)) [
    | inl there ↦ rw there (
      λ m. let (k, h) = (keep_if-Memᴰ (is_enabled disk dir) r.services).0 m in (k, chosen h),
      λ (m, w). (keep_if-Memᴰ (is_enabled disk dir) r.services).1 (m, passes there w),
    )
    | inr gone ↦ rw gone (λ m. (m, fail_open gone), λ (m, w). m)
  ]
    where
      chosen : is_enabled disk dir svc ≡ true → IsWanted svc (some dir)
      chosen h = elim (Bool-cases (has_word svc.name bootstrap_services)) [
        | inl e ↦ bootstrap ((has_word-Memᴰ svc.name bootstrap_services).0 e)
        | inr e ↦ marked (rw e at h)
      ]

      passes : disk.exists dir ≡ true → IsWanted svc (some dir) → is_enabled disk dir svc ≡ true
      passes there (fail_open gone) = cc
      passes there (bootstrap m) = rw ((has_word-Memᴰ svc.name bootstrap_services).1 m) refl
      passes there (marked h) = elim (Bool-cases (has_word svc.name bootstrap_services)) [
        | inl e ↦ rw e refl
        | inr e ↦ rw e h
      ]

module _ (is_alphanumeric : ℕ → Bool) (from_str : Text → Option Service) (disk : Disk) where
  -- Where the directory and its entries can be read, there is a report, and its services are exactly
  -- the valid ones that a TOML file of the directory holds and that are wanted.
  pub parse_services_inner-holds :
      (dir : Text) (enabled : Option Text) (files : List Text)
      → disk.read_dir dir ≡ some (map some files)
      → (q : ServiceParseReport) × ((parse_services_inner is_alphanumeric from_str disk dir enabled
            ≡ some q)
          × ((svc : Service)
              → Memᴰ svc q.services ↔ (
                  IsListed from_str disk dir files svc
                  × (IsValid is_alphanumeric svc × IsWanted disk svc enabled))))
  unfolding parse_services_inner
  parse_services_inner-holds dir enabled files e =
      let (r, (loads, l)) =
        load_total is_alphanumeric from_str disk dir files
          (record { services = []; errors = [] }) in
      (
        filtered disk enabled r,
        (
          rw e (ap (finished disk enabled) loads),
          λ svc.
              let w = filtered-IsWanted disk enabled svc r in
              (
                λ m.
                    let (k, want) = w.0 m in
                    elim ((l svc).0 k) [
                      | inl none_yet ↦ elim none_yet [ ]
                      | inr (listed, valid) ↦ (listed, (valid, want))
                    ],
                λ (listed, (valid, want)). w.1 ((l svc).1 (inr (listed, valid)), want),
              ),
        ),
      )
