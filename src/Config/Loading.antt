-- ===== src/Config/Loading.antt =====
-- parser.rs: what the loop over a directory's entries puts into the report.
use mathlib.Core.List.{Memᴰ}
use quantra_system.Base.{
  ℕ, ◌≡◌, refl, sym, ap, subst, Bool, true, Option, none, some, List, [], ◌∷◌, append-Memᴰ, map,
  Bool-cases, inl, inr, ◌↔◌, ◌⊎◌,
}
use quantra_system.Base.Text.{Text}
use quantra_system.Config.{Service, Invalid, validate_service}
use quantra_system.Config.Valid.{IsValid, validate_service-IsValid}
use quantra_system.Config.Extension.{IsToml, is_toml_file-IsToml}
use quantra_system.Config.Files.{
  Disk, Loaded, ok, bad, ServiceParseReport, join, is_toml_file, validated, parsed, parse_content,
  parse_service_file, push, load_entry, load,
}

module _ (from_str : Text → Option Service) (disk : Disk) where
  -- The directory lists a TOML file that reads and parses as a service.
  pub record IsListed (dir : Text) (files : List Text) (svc : Service) : Type 0 where
    pub file : Text
    pub content : Text
    pub listed : Memᴰ file files
    pub toml : IsToml file
    pub reads : disk.read_to_string (join dir file) ≡ some content
    pub parses : from_str content ≡ some svc

module _ (is_alphanumeric : ℕ → Bool) (from_str : Text → Option Service) (disk : Disk) where
  loaded_iff :
      (path : Text) (svc : Service)
      → (parse_service_file is_alphanumeric from_str disk path ≡ ok svc) ↔ (
          ((content : Text) × ((disk.read_to_string path ≡ some content)
              × (from_str content ≡ some svc)))
          × IsValid is_alphanumeric svc)
  unfolding parse_service_file
  loaded_iff path svc = (
    λ h. of_content (disk.read_to_string path) refl h,
    λ ((content, (reads, parses)), valid).
        rw reads (rw parses (rw (((validate_service-IsValid is_alphanumeric svc).1 valid)) refl)),
  )
    where
      of_verdict :
          (got : Service) (v : Option Invalid)
          → validate_service is_alphanumeric got ≡ v
          → validated is_alphanumeric from_str disk got v ≡ ok svc
          → (got ≡ svc) × IsValid is_alphanumeric svc
      of_verdict got none e h =
          let same : got ≡ svc = cc in
          (
            same,
            (validate_service-IsValid is_alphanumeric svc).0
                (subst (λ s. validate_service is_alphanumeric s ≡ none) same e),
          )
      of_verdict got (some w) e h = cc

      of_parsed :
          (o : Option Service)
          → parsed is_alphanumeric from_str disk o ≡ ok svc
          → (o ≡ some svc) × IsValid is_alphanumeric svc
      of_parsed none h = cc
      of_parsed (some got) h =
          let (same, valid) = of_verdict got (validate_service is_alphanumeric got) refl h in
          (ap some same, valid)

      of_content :
          (o : Option Text)
          → disk.read_to_string path ≡ o
          → parse_content is_alphanumeric from_str disk o ≡ ok svc
          → ((content : Text) × ((disk.read_to_string path ≡ some content)
                × (from_str content ≡ some svc)))
            × IsValid is_alphanumeric svc
      of_content none e h = cc
      of_content (some content) e h =
          let (parses, valid) = of_parsed (from_str content) h in ((content, (e, parses)), valid)

  -- The report after an entry, and what was in it before.
  entry_iff :
      (dir name : Text) (r : ServiceParseReport) (svc : Service)
      → Memᴰ svc (load_entry is_alphanumeric from_str disk dir name r).services ↔ (
          Memᴰ svc r.services
          ⊎ ((is_toml_file name ≡ true)
              × (parse_service_file is_alphanumeric from_str disk (join dir name) ≡ ok svc)))
  entry_iff dir name r svc = elim (Bool-cases (is_toml_file name)) [
    | inl e ↦ rw e (of_loaded (parse_service_file is_alphanumeric from_str disk (join dir name)))
    | inr e ↦ rw e (λ m. inl m, λ o. elim o [ inl m ↦ m | inr (h, k) ↦ cc ])
  ]
    where
      of_loaded :
          (l : Loaded)
          → Memᴰ svc (push (join dir name) l r).services
            ↔ (Memᴰ svc r.services ⊎ ((true ≡ true) × (l ≡ ok svc)))
      of_loaded (ok got) = (
        λ m. elim ((append-Memᴰ r.services got).0 m) [
          | inl k ↦ inl k
          | inr e ↦ inr (refl, ap ok (sym e))
        ],
        λ o. elim o [
          | inl m ↦ (append-Memᴰ r.services got).1 (inl m)
          | inr (t, e) ↦ let same : svc ≡ got = cc in (append-Memᴰ r.services got).1 (inr same)
        ],
      )
      of_loaded (bad w) = (λ m. inl m, λ o. elim o [ inl m ↦ m | inr (t, e) ↦ cc ])

  in_front :
      (dir : Text) (svc : Service) (name : Text) (files : List Text)
      → IsListed from_str disk dir files svc
      → IsListed from_str disk dir (name ∷ files) svc
  in_front dir svc name files l = record {
    file = l.file;
    content = l.content;
    listed = Memᴰ.tail l.listed;
    toml = l.toml;
    reads = l.reads;
    parses = l.parses;
  }

  abbrev pub Good : Text → List Text → Service → Type 0
  Good dir files svc = IsListed from_str disk dir files svc × IsValid is_alphanumeric svc

  first_iff :
      (dir name : Text) (files : List Text) (svc : Service)
      → Good dir (name ∷ files) svc ↔ (
          ((is_toml_file name ≡ true)
            × (parse_service_file is_alphanumeric from_str disk (join dir name) ≡ ok svc))
          ⊎ Good dir files svc)
  first_iff dir name files svc = (
    λ (l, v). elim l.listed [
      | Memᴰ.head e ↦ inl (
        (is_toml_file-IsToml name).1 (subst IsToml e l.toml),
        (loaded_iff (join dir name) svc).1 (
          (
            l.content,
            (subst (λ f. disk.read_to_string (join dir f) ≡ some l.content) e l.reads, l.parses),
          ),
          v,
        ),
      )
      | Memᴰ.tail m ↦ inr (
        record {
          file = l.file;
          content = l.content;
          listed = m;
          toml = l.toml;
          reads = l.reads;
          parses = l.parses;
        },
        v,
      )
    ],
    λ o. elim o [
      | inl (t, p) ↦
          let ((content, (reads, parses)), valid) = (loaded_iff (join dir name) svc).0 p in
          (
            record {
              file = name;
              content = content;
              listed = Memᴰ.head refl;
              toml = (is_toml_file-IsToml name).0 t;
              reads = reads;
              parses = parses;
            },
            valid,
          )
      | inr (l, v) ↦ (in_front dir svc name files l, v)
    ],
  )

  -- What the loop adds to a report.
  pub load_total :
      (dir : Text) (files : List Text) (r : ServiceParseReport)
      → (q : ServiceParseReport) × ((load is_alphanumeric from_str disk dir (map some files) r
            ≡ some q)
          × ((svc : Service) → Memᴰ svc q.services ↔ (Memᴰ svc r.services ⊎ Good dir files svc)))
  unfolding load
  load_total dir [] r =
      (r, (refl, λ svc. (λ m. inl m, λ o. elim o [ inl m ↦ m | inr (l, v) ↦ elim l.listed [ ] ])))
  load_total dir (name ∷ files) r =
      let (q, (e, ih)) =
        load_total dir files (load_entry is_alphanumeric from_str disk dir name r) in
      (
        q,
        (
          e,
          λ svc.
              let step = entry_iff dir name r svc in
              let here = first_iff dir name files svc in
              (
                λ m. elim ((ih svc).0 m) [
                  | inl k ↦ elim (step.0 k) [ inl old ↦ inl old | inr new ↦ inr (here.1 (inl new)) ]
                  | inr g ↦ inr (here.1 (inr g))
                ],
                λ o. elim o [
                  | inl m ↦ (ih svc).1 (inl (step.1 (inl m)))
                  | inr g ↦ elim (here.0 g) [
                    | inl new ↦ (ih svc).1 (inl (step.1 (inr new)))
                    | inr later ↦ (ih svc).1 (inr later)
                  ]
                ],
              ),
        ),
      )
