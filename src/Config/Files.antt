-- ===== src/Config/Files.antt =====
-- parser.rs: a directory of configurations. What the file system holds, and the TOML parser, are
-- arguments; a directory lists neither `.` nor `..`.
use mathlib.Core.List.{reverse}
use quantra_system.Base.{
  ℕ, Bool, false, ◌||◌, Option, none, some, List, [], ◌∷◌, ◌++◌, keep_if, if◌then◌else◌, ◌==◌,
}
use quantra_system.Base.Text.{Text, codes, text_eq, split_once, has_word, starts_with}
use quantra_system.Config.{Service, Invalid, validate_service}

-- `read_dir` lists the names in a directory; an entry may fail to be read.
pub record Disk : Type 0 where
  pub read_dir : Text → Option (List (Option Text))
  pub read_to_string : Text → Option Text
  pub exists : Text → Bool

pub data FileError : Type 0 where
  unread unparsed : FileError
  invalid : (why : Invalid) → FileError

pub data Loaded : Type 0 where
  ok : (svc : Service) → Loaded
  bad : (error : FileError) → Loaded

pub record ServiceParseError : Type 0 where
  pub path : Text
  pub error : FileError

pub record ServiceParseReport : Type 0 where
  pub services : List Service
  pub errors : List ServiceParseError

abbrev pub bootstrap_services : List Text
bootstrap_services = codes "quantra-netd" ∷ codes "quantra-net" ∷ codes "console-shell" ∷ []

-- The directory, reversed, with a slash at its end.
abbrev pub slash : Text → Text
slash [] = []
slash (c ∷ d) = if c == 47 then c ∷ d else 47 ∷ c ∷ d

-- `Path::join`: an absolute path takes the directory's place.
unfoldable pub join : Text → Text → Text
join dir name = if starts_with (codes "/") name then name else reverse (slash (reverse dir)) ++ name

-- What follows the last dot of a file's name, where something stands before that dot.
abbrev pub after_dot : Text × Option Text → Option Text
after_dot (back, none) = none
after_dot (back, some []) = none
after_dot (back, some (c ∷ stem)) = some (reverse back)

unfoldable pub extension : Text → Option Text
extension name = after_dot (split_once 46 (reverse name))

abbrev pub is_some_toml : Option Text → Bool
is_some_toml none = false
is_some_toml (some e) = text_eq e (codes "toml")

unfoldable pub is_toml_file : Text → Bool
is_toml_file name = is_some_toml (extension name)

abbrev pub push : Text → Loaded → ServiceParseReport → ServiceParseReport
push path (ok svc) r = record r { services = r.services ++ (svc ∷ []) }
push path (bad e) r = record r { errors = r.errors ++ (record { path = path; error = e } ∷ []) }

module _ (disk : Disk) where
  abbrev pub is_enabled : Text → Service → Bool
  is_enabled dir svc = has_word svc.name bootstrap_services || disk.exists (join dir svc.name)

  unfoldable pub apply_enabled_filter : List Service → Text → List Service
  apply_enabled_filter services dir =
      if disk.exists dir then keep_if (is_enabled dir) services else services

  abbrev pub filtered : Option Text → ServiceParseReport → ServiceParseReport
  filtered none r = r
  filtered (some dir) r = record r { services = apply_enabled_filter r.services dir }

  abbrev pub finished : Option Text → Option ServiceParseReport → Option ServiceParseReport
  finished enabled none = none
  finished enabled (some r) = some (filtered enabled r)

module _ (is_alphanumeric : ℕ → Bool) (from_str : Text → Option Service) (disk : Disk) where
  abbrev pub validated : Service → Option Invalid → Loaded
  validated svc none = ok svc
  validated svc (some e) = bad (invalid e)

  abbrev pub parsed : Option Service → Loaded
  parsed none = bad unparsed
  parsed (some svc) = validated svc (validate_service is_alphanumeric svc)

  abbrev pub parse_content : Option Text → Loaded
  parse_content none = bad unread
  parse_content (some content) = parsed (from_str content)

  unfoldable pub parse_service_file : Text → Loaded
  parse_service_file path = parse_content (disk.read_to_string path)

  abbrev pub load_entry : Text → Text → ServiceParseReport → ServiceParseReport
  load_entry dir name r =
      if is_toml_file name then push (join dir name) (parse_service_file (join dir name)) r else r

  -- The loop over the entries; it ends with an error at one that cannot be read.
  unfoldable pub load : Text → List (Option Text) → ServiceParseReport → Option ServiceParseReport
  load dir [] r = some r
  load dir (none ∷ entries) r = none
  load dir (some name ∷ entries) r = load dir entries (load_entry dir name r)

  abbrev pub load_listed :
      Text → Option Text → Option (List (Option Text)) → Option ServiceParseReport
  load_listed dir enabled none = none
  load_listed dir enabled (some entries) =
      finished disk enabled (load dir entries (record { services = []; errors = [] }))

  unfoldable pub parse_services_inner : Text → Option Text → Option ServiceParseReport
  parse_services_inner dir enabled = load_listed dir enabled (disk.read_dir dir)

  abbrev pub parse_services : Text → Option ServiceParseReport
  parse_services dir = parse_services_inner dir none

  abbrev pub parse_services_with_enabled_filter : Text → Text → Option ServiceParseReport
  parse_services_with_enabled_filter dir enabled = parse_services_inner dir (some enabled)
