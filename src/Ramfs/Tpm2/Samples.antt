-- ===== src/Ramfs/Tpm2/Samples.antt =====
-- A small blob, a device that answers, one that refuses, and the theorems applied to them.
use quantra_system.Base.{◌≡◌, refl, true, some, [], ◌∷◌, ◌++◌, All, if◌then◌else◌, ◌==◌, arith}
use quantra_system.Dhcp.Packet.{to_be_bytes}
use quantra_system.Resolver.Message.{be16}
use quantra_system.Ramfs.Tpm2.{
  Bytes, load_command, start_auth_session_command, policy_pcr_command, unseal_command,
  flush_command, tpm2_send, unsealed, parse_blob, Device, unseal_luks_key,
}
use quantra_system.Ramfs.Tpm2.Framed.{IsFramed, unseal_luks_key-AllFramed}
use quantra_system.Ramfs.Tpm2.Flush.{Ending, unseal_luks_key-Ending}

abbrev blob : Bytes
blob = be16 3 ++ ((1 ∷ 2 ∷ 3 ∷ []) ++ (be16 2 ++ (4 ∷ 5 ∷ []) ++ []))

abbrev answered : Bytes → Bytes
answered body = be16 0x8001 ++ (to_be_bytes 0 ++ (to_be_bytes 0 ++ body))

-- The handles 80 and 90, no data for the policy, and a key of three bytes.
abbrev dev : Device
dev = record {
  opens = true;
  read_pcr_mask = 387;
  answer = λ k. some (
      if k == 0
      then answered (to_be_bytes 80 ++ to_be_bytes 0)
      else if k == 1
      then answered (to_be_bytes 90 ++ be16 0)
      else if k == 2
      then answered []
      else answered (to_be_bytes 5 ++ (be16 3 ++ 7 ∷ 8 ∷ 9 ∷ [])));
}

unsealing : Unit {0}
unfolding unseal_luks_key load_command start_auth_session_command policy_pcr_command unseal_command
    flush_command tpm2_send unsealed parse_blob
unsealing = tt

unseals : (unseal_luks_key dev (some blob) (some (to_be_bytes 1))).key ≡ some (7 ∷ 8 ∷ 9 ∷ [])
unfolding unsealing
unseals = refl

unseal_luks_key-AllFramed_example :
    All IsFramed (unseal_luks_key dev (some blob) (some (to_be_bytes 1))).sent
unseal_luks_key-AllFramed_example =
    unseal_luks_key-AllFramed dev blob (some (to_be_bytes 1)) (omega arith)

unseal_luks_key-Ending_example : Ending dev (unseal_luks_key dev (some blob) (some (to_be_bytes 1)))
unseal_luks_key-Ending_example = unseal_luks_key-Ending dev (some blob) (some (to_be_bytes 1))
