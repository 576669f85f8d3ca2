-- ===== src/Manager/Shutdown.antt =====
-- quantra/src/services/manager.rs: the order in which the services are stopped.
use Prim.Native.String.{String}
use mathlib.Core.List.{
  flatten, reverse, append_assoc, append-nil, reverse-cons, reverse-append, map-append,
}
use quantra_system.Base.{
  ◌≡◌, ◌∙◌, refl, sym, ap, subst, Bool, true, ◌||◌, Option, none, some, List, [], ◌∷◌, ◌++◌, map,
  All, All-map, arith,
}
use quantra_system.Base.Text.{Text}
use quantra_system.Dependency.{Service, wave_sort_services, ok, wanted}
use quantra_system.Dependency.Names.{provides}
use quantra_system.Dependency.Order.{IsOrdered, wave_sort_services-IsOrdered}
use quantra_system.Manager.Catalog.{bootstrap_services, remaining_services}
use quantra_system.Manager.{Supervision, launch, supervisors_of, launches, start_all, stop_all}

-- What a service waits for, as far as some service bears the name, is borne by one of the others.
abbrev pub Awaits : List Service → Service → List Service → Type 0
Awaits services s others =
    All (λ dep. provides dep services ≡ true → provides dep others ≡ true) (wanted s)

-- When a service is stopped, what it waits for is still to be stopped.
abbrev pub StopsFirst : List Service → List Service → Type 0
StopsFirst services [] = Unit
StopsFirst services (s ∷ rest) = Awaits services s rest × StopsFirst services rest

provides-append :
    (dep : String) (xs ys : List Service)
    → provides dep (xs ++ ys) ≡ (provides dep xs || provides dep ys)
provides-append dep [] ys = refl
provides-append dep (x ∷ xs) ys = ground (arith, provides-append dep xs ys)

provides-reverse : (dep : String) (xs : List Service) → provides dep (reverse xs) ≡ provides dep xs
provides-reverse dep [] = refl
provides-reverse dep (x ∷ xs) =
    rw (reverse-cons x xs, provides-append dep (reverse xs) (x ∷ []), provides-reverse dep xs)
      (ground arith)

-- A wave of services that wait for earlier ones only.
StopsFirst-wave :
    (services wave earlier : List Service)
    → All (λ s. Awaits services s earlier) wave
    → StopsFirst services (reverse earlier)
    → StopsFirst services (reverse (earlier ++ wave))
StopsFirst-wave services [] earlier h done =
    subst (λ l. StopsFirst services (reverse l)) (sym (append-nil earlier)) done
StopsFirst-wave services (s ∷ wave) earlier h done =
    subst (λ l. StopsFirst services (reverse l)) (append_assoc earlier (s ∷ []) wave)
      (StopsFirst-wave services wave (earlier ++ s ∷ [])
        (All-map
          (λ t awaits.
            All-map (λ dep f known. ground (arith, f known, provides-append dep earlier (s ∷ [])))
              (wanted t) awaits)
          wave h.1)
        (rw (reverse-append earlier (s ∷ [])) (
          All-map (λ dep f known. ground (arith, f known, provides-reverse dep earlier)) (wanted s)
              h.0,
          done,
        )))

StopsFirst-waves :
    (services earlier : List Service) (waves : List (List Service))
    → IsOrdered services earlier waves
    → StopsFirst services (reverse earlier)
    → StopsFirst services (reverse (earlier ++ flatten waves))
unfolding flatten
StopsFirst-waves services earlier [] h done =
    subst (λ l. StopsFirst services (reverse l)) (sym (append-nil earlier)) done
StopsFirst-waves services earlier (wave ∷ waves) h done =
    subst (λ l. StopsFirst services (reverse l)) (append_assoc earlier wave (flatten waves))
      (StopsFirst-waves services (earlier ++ wave) waves h.1
        (StopsFirst-wave services wave earlier h.0 done))

map-reverse_lem : {A B : Type 0} (f : A → B) (xs : List A) → map f (reverse xs) ≡ reverse (map f xs)
map-reverse_lem f [] = refl
map-reverse_lem f (x ∷ xs) =
    rw
      (
        reverse-cons x xs,
        reverse-cons (f x) (map f xs),
        map-append f (reverse xs) (x ∷ []),
        map-reverse_lem f xs,
      )
      refl

module _ (v : Supervision) where
  supervisors_of-append :
      (ls ms : List (Option (Bool × v.Supervisor)))
      → supervisors_of v (ls ++ ms) ≡ supervisors_of v ls ++ supervisors_of v ms
  supervisors_of-append [] ms = refl
  supervisors_of-append (none ∷ ls) ms = supervisors_of-append ls ms
  supervisors_of-append (some (b, x) ∷ ls) ms = ap (◌∷◌ x) (supervisors_of-append ls ms)

  services_launched :
      (ss : List Service) → map v.service (supervisors_of v (map (launch v) ss)) ≡ ss
  services_launched [] = refl
  services_launched (s ∷ ss) =
      rw (v.service-start (v.new s), v.service-new s, services_launched ss) refl

  stops_in_reverse :
      (ss ts : List Service)
      → map v.service (reverse (supervisors_of v (map (launch v) ss ++ map (launch v) ts)))
        ≡ reverse ts ++ reverse ss
  stops_in_reverse ss ts =
      map-reverse_lem v.service (supervisors_of v (map (launch v) ss ++ map (launch v) ts))
      ∙ ap (λ l. reverse (map v.service l))
          (supervisors_of-append (map (launch v) ss) (map (launch v) ts))
      ∙ ap reverse (
          map-append v.service (supervisors_of v (map (launch v) ss))
            (supervisors_of v (map (launch v) ts)))
      ∙ rw (services_launched ss, services_launched ts) (reverse-append ss ts)

  -- Where the services that are left can be sorted and every start thread returns, the services are
  -- stopped in the reverse order of their starts, the bootstrap services last, and when one of the
  -- others is stopped, each of them that it waits for is still to be stopped.
  pub stop_all-StopsFirst :
      (exists env : Text → Bool) (services : List Service) (waves : List (List Service))
      → wave_sort_services (remaining_services services) ≡ ok waves
      → ((stop_all v (start_all v (λ s. true) exists env services)).0
          ≡ reverse (flatten waves) ++ reverse (bootstrap_services services))
        × StopsFirst (remaining_services services) (reverse (flatten waves))
  unfolding stop_all start_all launches
  stop_all-StopsFirst exists env services waves sorted = (
    rw sorted (stops_in_reverse (bootstrap_services services) (flatten waves)),
    StopsFirst-waves (remaining_services services) [] waves
        (wave_sort_services-IsOrdered (remaining_services services) waves sorted) tt,
  )
