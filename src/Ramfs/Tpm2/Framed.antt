-- ===== src/Ramfs/Tpm2/Framed.antt =====
-- tpm2.rs: the size in the header of every command.
use quantra_system.Base.{
  ℕ, zero, suc, ◌+◌, ◌≤◌, ◌<◌, ◌≡◌, refl, Option, none, some, [], ◌∷◌, ◌++◌, ltb, length, take,
  drop, All, arith, length-append, if-both,
}
use quantra_system.Resolver.Message.{be16}
use quantra_system.Ramfs.Tpm2.{
  Bytes, u16_at, u32_at, load_command, start_auth_session_command, policy_pcr_command,
  unseal_command, flush_command, parse_blob, read_parent_handle, Run, Device, flush_both,
  with_policy, with_session, with_object, with_areas, with_parent, unseal_luks_key,
}

-- The size in the header is the length of the command.
abbrev pub IsFramed : Bytes → Type 0
IsFramed cmd = u32_at 2 cmd ≡ length cmd

load_command-IsFramed :
    (parent : ℕ) (public private : Bytes)
    → length public + length private < 4294967000
    → IsFramed (load_command parent public private)
unfolding load_command
load_command-IsFramed parent public private h =
    let whole = length-append private (be16 (length public) ++ public) in omega (arith, h, whole)

policy_pcr_command-IsFramed : (session mask : ℕ) → IsFramed (policy_pcr_command session mask)
unfolding policy_pcr_command
policy_pcr_command-IsFramed session mask = refl

unseal_command-IsFramed : (object session : ℕ) → IsFramed (unseal_command object session)
unfolding unseal_command
unseal_command-IsFramed object session = refl

flush_command-IsFramed : (handle : ℕ) → IsFramed (flush_command handle)
unfolding flush_command
flush_command-IsFramed handle = refl

start_auth_session_command-IsFramed : IsFramed start_auth_session_command
unfolding start_auth_session_command
start_auth_session_command-IsFramed = refl

length-take : (n : ℕ) (s : Bytes) → length (take n s) ≤ length s
length-take zero s = omega arith
length-take (suc n) [] = omega arith
length-take (suc n) (b ∷ s) = omega (arith, length-take n s)

length-drop : (n : ℕ) (s : Bytes) → length (drop n s) ≤ length s
length-drop zero s = omega arith
length-drop (suc n) [] = omega arith
length-drop (suc n) (b ∷ s) = omega (arith, length-drop n s)

-- Neither area is longer than the blob.
abbrev FitIn : Bytes → Option (Bytes × Bytes) → Type 0
FitIn blob none = Unit
FitIn blob (some (public, private)) = (length public ≤ length blob) × (length private ≤ length blob)

parse_blob-FitIn : (blob : Bytes) → FitIn blob (parse_blob blob)
unfolding parse_blob
parse_blob-FitIn blob =
    let n = u16_at 0 blob in
    let rest = drop (2 + n) blob in
    let m = u16_at 0 rest in
    if-both (FitIn blob) (ltb (length blob) 4) (λ short. tt)
      (λ long.
        if-both (FitIn blob) (ltb (length blob) (2 + n + 2)) (λ short. tt)
          (λ longer.
            if-both (FitIn blob) (ltb (length rest) (2 + m)) (λ short. tt)
              (λ whole. (
                omega (arith, length-take n (drop 2 blob), length-drop 2 blob),
                omega (
                  arith,
                  length-take m (drop 2 rest),
                  length-drop 2 rest,
                  length-drop (2 + n) blob,
                ),
              ))))

module _ (dev : Device) where
  abbrev AllFramed : Run → Type 0
  AllFramed r = All IsFramed r.sent

  flush_both-AllFramed :
      (object session : ℕ) (key : Option Bytes) → AllFramed (flush_both dev object session key)
  flush_both-AllFramed object session none = tt
  flush_both-AllFramed object session (some key) =
      (flush_command-IsFramed session, (flush_command-IsFramed object, tt))

  with_policy-AllFramed :
      (object session : ℕ) (resp : Option Bytes) → AllFramed (with_policy dev object session resp)
  with_policy-AllFramed object session none = tt
  with_policy-AllFramed object session (some resp) =
      (unseal_command-IsFramed object session, flush_both-AllFramed object session _)

  with_session-AllFramed :
      (object : ℕ) (session : Option ℕ) → AllFramed (with_session dev object session)
  with_session-AllFramed object none = tt
  with_session-AllFramed object (some session) = (
    policy_pcr_command-IsFramed session dev.read_pcr_mask,
    with_policy-AllFramed object session _,
  )

  with_object-AllFramed : (object : Option ℕ) → AllFramed (with_object dev object)
  with_object-AllFramed none = tt
  with_object-AllFramed (some object) =
      (start_auth_session_command-IsFramed, with_session-AllFramed object _)

  with_areas-AllFramed :
      (blob : Bytes) (parent : ℕ) (areas : Option (Bytes × Bytes))
      → length blob < 2147483000
      → FitIn blob areas
      → AllFramed (with_areas dev parent areas)
  with_areas-AllFramed blob parent none h f = tt
  with_areas-AllFramed blob parent (some (public, private)) h f =
      (load_command-IsFramed parent public private (omega (arith, h, f)), with_object-AllFramed _)

  with_parent-AllFramed :
      (blob : Bytes) (parent : Option ℕ)
      → length blob < 2147483000
      → AllFramed (with_parent dev blob parent)
  with_parent-AllFramed blob none h = tt
  with_parent-AllFramed blob (some parent) h =
      if-both AllFramed dev.opens
        (λ opened. with_areas-AllFramed blob parent (parse_blob blob) h (parse_blob-FitIn blob))
        (λ closed. tt)

  -- Of a blob below two gigabytes, every command that is sent to the device states its own length,
  -- whatever the device answers.
  pub unseal_luks_key-AllFramed :
      (blob : Bytes) (parent : Option Bytes)
      → length blob < 2147483000
      → All IsFramed (unseal_luks_key dev (some blob) parent).sent
  unfolding unseal_luks_key
  unseal_luks_key-AllFramed blob parent h =
      if-both AllFramed (ltb (length blob) 8) (λ short. tt)
        (λ long. with_parent-AllFramed blob (read_parent_handle parent) h)
