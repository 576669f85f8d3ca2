-- ===== src/Config/Unordered.antt =====
-- parser.rs: a directory is listed in no order that is known, and so the report's services and errors
-- are told from the bag of the files.
use mathlib.Core.List.Perm
use mathlib.Core.List.{
  Perm, filter_map, filter_map-cons-none, filter_map-cons-some, append_assoc, append-nil,
}
use mathlib.Core.Path.{fun_ext}
use mathlib.Core.Quot
use mathlib.Core.Quot.{Quot, Quot-set}
use quantra_system.Base.{
  ℕ, ◌≡◌, refl, sym, ap, ◌∙◌, Bool, true, false, Option, none, some, List, [], ◌∷◌, ◌++◌, map,
  keep_if, if◌then◌else◌, Bool-cases, inl, inr,
}
use quantra_system.Base.Text.{Text}
use quantra_system.Config.{Service}
use quantra_system.Config.Files.{
  Disk, Loaded, ok, bad, ServiceParseError, ServiceParseReport, join, is_toml_file, push,
  is_enabled, apply_enabled_filter, filtered, finished, parse_service_file, load_entry, load,
  parse_services_inner,
}

abbrev pub Bag : Type 0 → Type 0
Bag A = Quot (Perm {A = A})

-- What one file adds to the services, and to the errors.
abbrev pub kept : (Service → Bool) → Loaded → Option Service
kept wanted (ok svc) = if wanted svc then some svc else none
kept wanted (bad e) = none

abbrev pub failed : Text → Loaded → Option ServiceParseError
failed path (ok svc) = none
failed path (bad e) = some (record { path = path; error = e })

abbrev pub if_toml {ℓ} : {A : Type ℓ} → Text → Option A → Option A
if_toml name o = if is_toml_file name then o else none

abbrev pub wants : Disk → Option Text → Service → Bool
wants disk none svc = true
wants disk (some dir) svc = if disk.exists dir then is_enabled disk dir svc else true

-- An image of a bag under a function that may drop an item.
pub bag_filter_map : {A B : Type 0} → (A → Option B) → Bag A → Bag B
bag_filter_map f =
    Quot.lift Quot-set (λ xs. Quot.mk (filter_map f xs))
      (λ xs ys p. Quot.sound (Perm.filter_map f p))

-- An item, if there is one, as a list.
abbrev items {ℓ} : {A : Type ℓ} → Option A → List A
items none = []
items (some a) = a ∷ []

filter_map-cons :
    {A B : Type 0} (f : A → Option B) (a : A) (xs : List A)
    → filter_map f (a ∷ xs) ≡ items (f a) ++ filter_map f xs
filter_map-cons {B = B} f a xs = of_item (f a) refl
  where
    of_item : (o : Option B) → f a ≡ o → filter_map f (a ∷ xs) ≡ items o ++ filter_map f xs
    of_item none e = filter_map-cons-none f a xs e
    of_item (some b) e = filter_map-cons-some f a xs e

keep_if-items :
    (wanted : Service → Bool) (o : Option Service) (ys : List Service)
    → keep_if wanted (items o ++ ys) ≡ keep_if wanted (items o) ++ keep_if wanted ys
keep_if-items wanted none ys = refl
keep_if-items wanted (some a) ys = elim (Bool-cases (wanted a)) [
  | inl e ↦ rw e refl
  | inr e ↦ rw e refl
]

keep_if-filter_map :
    (wanted : Service → Bool) (f g : Text → Option Service)
    → ((a : Text) → items (g a) ≡ keep_if wanted (items (f a)))
    → (xs : List Text) → keep_if wanted (filter_map f xs) ≡ filter_map g xs
unfolding filter_map
keep_if-filter_map wanted f g h [] = refl
keep_if-filter_map wanted f g h (a ∷ xs) =
    ap (keep_if wanted) (filter_map-cons f a xs)
    ∙ keep_if-items wanted (f a) (filter_map f xs)
    ∙ ap (λ t. t ++ keep_if wanted (filter_map f xs)) (sym (h a))
    ∙ ap (λ t. items (g a) ++ t) (keep_if-filter_map wanted f g h xs)
    ∙ sym (filter_map-cons g a xs)

kept-keeps :
    (p : Service → Bool) (b : Bool) (l : Loaded)
    → items (if b then kept p l else none)
      ≡ keep_if p (items (if b then kept (λ s. true) l else none))
kept-keeps p true (ok svc) = elim (Bool-cases (p svc)) [ inl e ↦ rw e refl | inr e ↦ rw e refl ]
kept-keeps p true (bad e) = refl
kept-keeps p false l = refl

module _ (is_alphanumeric : ℕ → Bool) (from_str : Text → Option Service) (disk : Disk)
    (dir : Text) where
  abbrev pub loaded : Text → Loaded
  loaded name = parse_service_file is_alphanumeric from_str disk (join dir name)

  abbrev pub service_of : (Service → Bool) → Text → Option Service
  service_of wanted name = if_toml name (kept wanted (loaded name))

  abbrev pub error_of : Text → Option ServiceParseError
  error_of name = if_toml name (failed (join dir name) (loaded name))

  with_items : Option Service → Option ServiceParseError → ServiceParseReport → ServiceParseReport
  with_items o e r = record { services = r.services ++ items o; errors = r.errors ++ items e }

  added : List Text → ServiceParseReport → ServiceParseReport
  added files r = record {
    services = r.services ++ filter_map (service_of (λ s. true)) files;
    errors = r.errors ++ filter_map error_of files;
  }

  push-items :
      (path : Text) (l : Loaded) (r : ServiceParseReport)
      → push path l r ≡ with_items (kept (λ s. true) l) (failed path l) r
  unfolding with_items
  push-items path (ok svc) r =
      ap (λ es. record { services = r.services ++ (svc ∷ []); errors = es })
        (sym (append-nil r.errors))
  push-items path (bad w) r =
      ap
        (λ ss. record {
          services = ss;
          errors = r.errors ++ (record { path = path; error = w } ∷ []);
        })
        (sym (append-nil r.services))

  entry-items :
      (name : Text) (r : ServiceParseReport)
      → load_entry is_alphanumeric from_str disk dir name r
        ≡ with_items (service_of (λ s. true) name) (error_of name) r
  unfolding with_items
  entry-items name r = elim (Bool-cases (is_toml_file name)) [
    | inl e ↦ rw e (push-items (join dir name) (loaded name) r)
    | inr e ↦ rw e (rw (append-nil r.services) (rw (append-nil r.errors) refl))
  ]

  regroup :
      (name : Text) (files : List Text) (r : ServiceParseReport)
      → added files (with_items (service_of (λ s. true) name) (error_of name) r)
        ≡ added (name ∷ files) r
  unfolding with_items added
  regroup name files r = rw (filter_map-cons (service_of (λ s. true)) name files) (
      rw (filter_map-cons error_of name files) (
        rw
          (append_assoc r.services (items (service_of (λ s. true) name))
            (filter_map (service_of (λ s. true)) files))
          (rw (append_assoc r.errors (items (error_of name)) (filter_map error_of files)) refl)))

  -- What the loop adds to a report, file by file.
  load_appends :
      (files : List Text) (r : ServiceParseReport)
      → load is_alphanumeric from_str disk dir (map some files) r ≡ some (added files r)
  unfolding load filter_map added
  load_appends [] r = rw (append-nil r.services) (rw (append-nil r.errors) refl)
  load_appends (name ∷ files) r =
      let found = service_of (λ s. true) in
      ap (λ q. load is_alphanumeric from_str disk dir (map some files) q) (entry-items name r)
      ∙ load_appends files (with_items (found name) (error_of name) r)
      ∙ ap some (regroup name files r)

  -- The files' services that are wanted, and the errors, each as often as a file gives it.
  pub told : Option Text → Bag Text → Bag Service × Bag ServiceParseError
  told enabled files =
      (bag_filter_map (service_of (wants disk enabled)) files, bag_filter_map error_of files)

  wants-there :
      (marks : Text) → disk.exists marks ≡ true → wants disk (some marks) ≡ is_enabled disk marks
  wants-there marks e = fun_ext (λ svc. ap (λ b. if b then is_enabled disk marks svc else true) e)

  wants-gone : (marks : Text) → disk.exists marks ≡ false → wants disk (some marks) ≡ (λ svc. true)
  wants-gone marks e = fun_ext (λ svc. ap (λ b. if b then is_enabled disk marks svc else true) e)

  filtered-added :
      (enabled : Option Text) (files : List Text)
      → filtered disk enabled (added files (record { services = []; errors = [] })) ≡ record {
        services = filter_map (service_of (wants disk enabled)) files;
        errors = filter_map error_of files;
      }
  unfolding added apply_enabled_filter
  filtered-added none files = refl
  filtered-added (some marks) files = elim (Bool-cases (disk.exists marks)) [
    | inl there ↦ rw there (
        ap (λ ss. record { services = ss; errors = filter_map error_of files })
          (keep_if-filter_map (is_enabled disk marks) (service_of (λ s. true))
              (service_of (is_enabled disk marks))
              (λ name. kept-keeps (is_enabled disk marks) (is_toml_file name) (loaded name)) files
            ∙ ap (λ w. filter_map (service_of w) files) (sym (wants-there marks there))))
    | inr gone ↦ rw gone (
        ap
          (λ w. record {
            services = filter_map (service_of w) files;
            errors = filter_map error_of files;
          })
          (sym (wants-gone marks gone)))
  ]

  -- Where the directory and its entries can be read, the report's services and errors, as bags, are
  -- told from the bag of the directory's files alone: the order of its entries does not matter.
  pub parse_services_inner-told :
      (enabled : Option Text) (files : List Text)
      → disk.read_dir dir ≡ some (map some files)
      → (q : ServiceParseReport) × ((parse_services_inner is_alphanumeric from_str disk dir enabled
            ≡ some q)
          × ((Quot.mk q.services, Quot.mk q.errors) ≡ told enabled (Quot.mk files)))
  unfolding parse_services_inner told bag_filter_map
  parse_services_inner-told enabled files e = (
    record {
      services = filter_map (service_of (wants disk enabled)) files;
      errors = filter_map error_of files;
    },
    (
      rw e (
          ap (finished disk enabled) (load_appends files (record { services = []; errors = [] }))
          ∙ ap some (filtered-added enabled files)),
      refl,
    ),
  )
