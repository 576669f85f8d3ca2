-- ===== src/Ramfs/Tpm2/Flush.antt =====
-- tpm2.rs: what is left in the device.
use quantra_system.Base.{
  ℕ, ◌≡◌, refl, false, Bool, Option, none, some, List, [], ◌∷◌, ◌==◌, ltb, length, All, if-both,
}
use quantra_system.Ramfs.Tpm2.{
  Bytes, u32_at, load_command, start_auth_session_command, policy_pcr_command, unseal_command,
  flush_command, tpm2_send, handle_in, unsealed, parse_blob, read_parent_handle, Run, Device,
  flush_both, with_policy, with_session, with_object, with_areas, with_parent, unseal_luks_key,
}

abbrev pub is_flush : Bytes → Bool
is_flush cmd = u32_at 6 cmd == 0x165

load_command-stays :
    (parent : ℕ) (public private : Bytes) → is_flush (load_command parent public private) ≡ false
unfolding load_command
load_command-stays parent public private = refl

policy_pcr_command-stays : (session mask : ℕ) → is_flush (policy_pcr_command session mask) ≡ false
unfolding policy_pcr_command
policy_pcr_command-stays session mask = refl

unseal_command-stays : (object session : ℕ) → is_flush (unseal_command object session) ≡ false
unfolding unseal_command
unseal_command-stays object session = refl

start_auth_session_command-stays : is_flush start_auth_session_command ≡ false
unfolding start_auth_session_command
start_auth_session_command-stays = refl

module _ (dev : Device) where
  abbrev pub object_of : Option ℕ
  object_of = handle_in 18 (tpm2_send (dev.answer 0))

  abbrev pub session_of : Option ℕ
  session_of = handle_in 14 (tpm2_send (dev.answer 1))

  -- How an unsealing ends: with an error, and nothing flushed; or with the key of the device's
  -- fourth answer, and both handles flushed that the first and the second answer gave.
  pub data Ending : Run → Type 0 where
    failed :
        {sent : List Bytes}
        → All (λ c. is_flush c ≡ false) sent
        → Ending (record { sent = sent; key = none })
    flushed :
        {sent : List Bytes} {k : Bytes} (parent object session : ℕ) (public private : Bytes)
        → object_of ≡ some object
        → session_of ≡ some session
        → unsealed (tpm2_send (dev.answer 3)) ≡ some k
        → sent
          ≡ load_command parent public private
            ∷ start_auth_session_command
            ∷ policy_pcr_command session dev.read_pcr_mask
            ∷ unseal_command object session
            ∷ flush_command session
            ∷ flush_command object
            ∷ []
        → Ending (record { sent = sent; key = some k })

  module _ (parent : ℕ) (public private : Bytes) (object : ℕ) (o : object_of ≡ some object) where
    abbrev loading : List Bytes → List Bytes
    loading cmds = load_command parent public private ∷ start_auth_session_command ∷ cmds

    flush_both-Ending :
        (session : ℕ) (k : Option Bytes)
        → session_of ≡ some session
        → unsealed (tpm2_send (dev.answer 3)) ≡ k
        → Ending (record {
          sent = loading (
              policy_pcr_command session dev.read_pcr_mask
              ∷ unseal_command object session
              ∷ (flush_both dev object session k).sent);
          key = (flush_both dev object session k).key;
        })
    flush_both-Ending session none s e = failed (
      load_command-stays parent public private,
      (
        start_auth_session_command-stays,
        (
          policy_pcr_command-stays session dev.read_pcr_mask,
          (unseal_command-stays object session, tt),
        ),
      ),
    )
    flush_both-Ending session (some k) s e = flushed parent object session public private o s e refl

    with_policy-Ending :
        (session : ℕ) (resp : Option Bytes)
        → session_of ≡ some session
        → Ending (record {
          sent = loading (
              policy_pcr_command session dev.read_pcr_mask
              ∷ (with_policy dev object session resp).sent);
          key = (with_policy dev object session resp).key;
        })
    with_policy-Ending session none s = failed (
      load_command-stays parent public private,
      (start_auth_session_command-stays, (policy_pcr_command-stays session dev.read_pcr_mask, tt)),
    )
    with_policy-Ending session (some resp) s = flush_both-Ending session _ s refl

    with_session-Ending :
        (session : Option ℕ)
        → session_of ≡ session
        → Ending (record {
          sent = loading (with_session dev object session).sent;
          key = (with_session dev object session).key;
        })
    with_session-Ending none s =
        failed (load_command-stays parent public private, (start_auth_session_command-stays, tt))
    with_session-Ending (some session) s = with_policy-Ending session _ s

  with_object-Ending :
      (parent : ℕ) (public private : Bytes) (object : Option ℕ)
      → object_of ≡ object
      → Ending (record {
        sent = load_command parent public private ∷ (with_object dev object).sent;
        key = (with_object dev object).key;
      })
  with_object-Ending parent public private none o =
      failed (load_command-stays parent public private, tt)
  with_object-Ending parent public private (some object) o =
      with_session-Ending parent public private object o _ refl

  with_areas-Ending :
      (parent : ℕ) (areas : Option (Bytes × Bytes)) → Ending (with_areas dev parent areas)
  with_areas-Ending parent none = failed tt
  with_areas-Ending parent (some (public, private)) =
      with_object-Ending parent public private _ refl

  with_parent-Ending : (blob : Bytes) (parent : Option ℕ) → Ending (with_parent dev blob parent)
  with_parent-Ending blob none = failed tt
  with_parent-Ending blob (some parent) =
      if-both Ending dev.opens (λ opened. with_areas-Ending parent (parse_blob blob))
        (λ closed. failed tt)

  -- If the key is unsealed, it is the data of the fourth answer, and both handles that the device
  -- gave are flushed last; if not, no handle is flushed, those that the device gave included.
  pub unseal_luks_key-Ending :
      (blob parent : Option Bytes) → Ending (unseal_luks_key dev blob parent)
  unfolding unseal_luks_key
  unseal_luks_key-Ending none parent = failed tt
  unseal_luks_key-Ending (some blob) parent =
      if-both Ending (ltb (length blob) 8) (λ short. failed tt)
        (λ long. with_parent-Ending blob (read_parent_handle parent))
