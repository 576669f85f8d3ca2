-- ===== src/Config/Samples.antt =====
-- A directory of configurations, what is read from it, and the theorems applied to it. The
-- alphanumeric characters are the ASCII ones here, and a text that a file holds stands for the name of
-- the service in it.
use mathlib.Core.List.{Memᴰ}
use mathlib.Core.Quot.{Quot}
use quantra_system.Base.{
  ℕ, ◌≡◌, refl, Bool, false, ◌||◌, ◌&&◌, ◌↔◌, Option, none, some, List, [], ◌∷◌, map, arith,
  if◌then◌else◌, leb,
}
use quantra_system.Base.Text.{
  Text, codes, text_eq, trim, trim_start, is_space, split_once, parse_uint, parse_digits,
}
use quantra_system.Config.{simple, bg_process, Service, no_pid_file, self_chain, validate_service}
use quantra_system.Config.Valid.{IsValid, validate_service-IsValid}
use quantra_system.Config.Files.{
  Disk, invalid, ServiceParseReport, join, extension, is_toml_file, parse_service_file, load,
  apply_enabled_filter, parse_services_inner,
}
use quantra_system.Config.Loading.{IsListed}
use quantra_system.Config.Report.{IsWanted, parse_services_inner-holds}
use quantra_system.Config.Unordered.{told, parse_services_inner-told}
use quantra_system.Config.Memory.{parse_memory_limit}
use quantra_system.Config.Memory.Units.{mega, parse_memory_limit-units}

abbrev ascii : ℕ → Bool
ascii c = (leb 48 c && leb c 57) || (leb 65 c && leb c 90) || (leb 97 c && leb c 122)

abbrev named : Text → Service
named name = record {
  name = name;
  command = codes "/bin/true";
  notify_type = simple;
  pid_file = none;
  chain_to = some (codes "loop");
  rlimit = some (record {
    nofile = some (1024, 4096);
    nproc = some (9, 0);
    fsize = none;
    stack = none;
    memlock = none;
    core = none;
  });
  socket_listen = codes "unix:/run/good.sock" ∷ codes "tcp:80" ∷ [];
}

reading : Unit {0}
unfolding validate_service trim trim_start is_space join extension is_toml_file split_once
    parse_service_file load apply_enabled_filter parse_services_inner parse_memory_limit parse_uint
    parse_digits
reading = tt

good_is_accepted : validate_service ascii (named (codes "good")) ≡ none
unfolding reading
good_is_accepted = refl

loop_is_rejected : validate_service ascii (named (codes "loop")) ≡ some self_chain
unfolding reading
loop_is_rejected = refl

forked_is_rejected :
    validate_service ascii (record (named (codes "good")) { notify_type = bg_process })
    ≡ some no_pid_file
unfolding reading
forked_is_rejected = refl

validate_service-IsValid_example :
    (validate_service ascii (named (codes "good")) ≡ none) ↔ IsValid ascii (named (codes "good"))
validate_service-IsValid_example = validate_service-IsValid ascii (named (codes "good"))

abbrev files : List Text
files =
    codes "good.toml"
    ∷ codes "loop.toml"
    ∷ codes "plain.toml"
    ∷ codes "notes.txt"
    ∷ codes ".toml"
    ∷ []

abbrev content_of : Text → Option Text
content_of path =
    if text_eq path (codes "/etc/good.toml")
    then some (codes "good")
    else if text_eq path (codes "/etc/loop.toml")
    then some (codes "loop")
    else some (codes "plain")

abbrev disk : Disk
disk = record {
  read_dir = λ dir. some (map some files);
  read_to_string = content_of;
  exists = λ path. text_eq path (codes "/on") || text_eq path (codes "/on/good");
}

abbrev from_str : Text → Option Service
from_str content = some (named content)

-- The service that leads to itself is an error, and the one without a marker is left out.
read_etc :
    parse_services_inner ascii from_str disk (codes "/etc/") (some (codes "/on"))
    ≡ some (record {
      services = named (codes "good") ∷ [];
      errors = record { path = codes "/etc/loop.toml"; error = invalid self_chain } ∷ [];
    })
unfolding reading
read_etc = refl

parse_services_inner-holds_example :
    (q : ServiceParseReport) × ((parse_services_inner ascii from_str disk
          (codes "/etc")
          (some (codes "/on"))
        ≡ some q)
      × ((svc : Service)
          → Memᴰ svc q.services ↔ (
              IsListed from_str disk (codes "/etc") files svc
              × (IsValid ascii svc × IsWanted disk svc (some (codes "/on"))))))
parse_services_inner-holds_example =
    parse_services_inner-holds ascii from_str disk (codes "/etc") (some (codes "/on")) files refl

parse_services_inner-told_example :
    (q : ServiceParseReport) × ((parse_services_inner ascii from_str disk
          (codes "/etc")
          (some (codes "/on"))
        ≡ some q)
      × ((Quot.mk q.services, Quot.mk q.errors)
          ≡ told ascii from_str disk (codes "/etc") (some (codes "/on")) (Quot.mk files)))
parse_services_inner-told_example =
    parse_services_inner-told ascii from_str disk (codes "/etc") (some (codes "/on")) files refl

parse_memory_limit-units_example : parse_memory_limit (codes "512m") ≡ 536870912
parse_memory_limit-units_example =
    parse_memory_limit-units 5 (1 ∷ 2 ∷ []) mega false
      (omega arith, (omega arith, (omega arith, tt)))

-- Digits past the largest number, and a unit of two letters, are no limit.
too_large : parse_memory_limit (codes "18446744073709551616") ≡ 0
unfolding reading
too_large = refl

two_letters : parse_memory_limit (codes " 512MB ") ≡ 0
unfolding reading
two_letters = refl
