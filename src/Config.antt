-- ===== src/Config.antt =====
-- quantra/src/services/parser.rs: the validation of a service's configuration, with the types of
-- quantra/src/services/types.rs that it reads. Whether a character is alphanumeric (a table of
-- Unicode) is an argument. The restart policy and the timeouts lead to log lines at most.
pub mod Blank
pub mod Valid
pub mod Files
pub mod Extension
pub mod Loading
pub mod Report
pub mod Unordered
pub mod Memory
mod Samples
use quantra_system.Base.{
  ℕ, Bool, true, false, not, ◌&&◌, ◌||◌, Option, none, some, List, [], ◌∷◌, any, ◌==◌, ltb,
}
use quantra_system.Base.Text.{Text, codes, text_eq, trim, starts_with}

pub data NotifyType : Type 0 where
  simple notify bg_process : NotifyType

-- Each limit is a pair of a soft and a hard one.
pub record ResourceLimits : Type 0 where
  pub nofile : Option (ℕ × ℕ)
  pub nproc : Option (ℕ × ℕ)
  pub fsize : Option (ℕ × ℕ)
  pub stack : Option (ℕ × ℕ)
  pub memlock : Option (ℕ × ℕ)
  pub core : Option (ℕ × ℕ)

-- The fields of a service that are validated.
pub record Service : Type 0 where
  pub name : Text
  pub command : Text
  pub notify_type : NotifyType
  pub pid_file : Option Text
  pub chain_to : Option Text
  pub rlimit : Option ResourceLimits
  pub socket_listen : List Text

pub data Invalid : Type 0 where
  empty_name invalid_characters empty_command no_pid_file self_chain : Invalid
  soft_above_hard bad_socket : (what : Text) → Invalid

abbrev pub is_empty : Text → Bool
is_empty [] = true
is_empty (c ∷ s) = false

-- `if … { return Err(e) }`, and what follows it.
abbrev pub reject : Bool → Invalid → Option Invalid → Option Invalid
reject true e next = some e
reject false e next = next

abbrev pub is_forked : NotifyType → Bool
is_forked bg_process = true
is_forked _ = false

abbrev pub is_missing : Option Text → Bool
is_missing none = true
is_missing (some path) = false

abbrev pub chains_to : Option Text → Text → Bool
chains_to none name = false
chains_to (some next) name = text_eq next name

abbrev pub is_reversed : Option (ℕ × ℕ) → Bool
is_reversed none = false
is_reversed (some (soft, hard)) = not (hard == 0) && ltb hard soft

abbrev pub pairs : ResourceLimits → List (Text × Option (ℕ × ℕ))
pairs rl =
    (codes "nofile", rl.nofile)
    ∷ (codes "nproc", rl.nproc)
    ∷ (codes "fsize", rl.fsize)
    ∷ (codes "stack", rl.stack)
    ∷ (codes "memlock", rl.memlock)
    ∷ (codes "core", rl.core)
    ∷ []

abbrev pub check_pairs : List (Text × Option (ℕ × ℕ)) → Option Invalid → Option Invalid
check_pairs [] next = next
check_pairs ((name, pair) ∷ more) next =
    reject (is_reversed pair) (soft_above_hard name) (check_pairs more next)

abbrev pub check_rlimit : Option ResourceLimits → Option Invalid → Option Invalid
check_rlimit none next = next
check_rlimit (some rl) next = check_pairs (pairs rl) next

abbrev pub is_listenable : Text → Bool
is_listenable spec = starts_with (codes "unix:") spec || starts_with (codes "tcp:") spec

abbrev pub check_sockets : List Text → Option Invalid
check_sockets [] = none
check_sockets (spec ∷ specs) =
    reject (not (is_listenable spec)) (bad_socket spec) (check_sockets specs)

module _ (is_alphanumeric : ℕ → Bool) where
  abbrev pub in_name : ℕ → Bool
  in_name c = is_alphanumeric c || c == 95 || c == 45

  -- The first thing that is wrong with a service.
  unfoldable pub validate_service : Service → Option Invalid
  validate_service svc = reject (is_empty (trim svc.name)) empty_name (
      reject (any (λ c. not (in_name c)) svc.name) invalid_characters (
        reject (is_empty (trim svc.command)) empty_command (
          reject (is_forked svc.notify_type && is_missing svc.pid_file) no_pid_file (
            reject (chains_to svc.chain_to svc.name) self_chain
              (check_rlimit svc.rlimit (check_sockets svc.socket_listen))))))
