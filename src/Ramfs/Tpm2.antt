-- ===== src/Ramfs/Tpm2.antt =====
-- quantra-ramfs/src/tpm2.rs: unsealing the disk key. What the device answers to the k-th command is
-- an argument, none where it cannot be written or read; so are the files.
pub mod Framed
pub mod Flush
pub mod Blob
mod Samples
use quantra_system.Base.{
  ℕ, suc, ◌+◌, ◌*◌, ◌/◌, ◌%◌, Bool, Option, none, some, List, [], ◌∷◌, ◌++◌, if◌then◌else◌, ◌==◌,
  ltb, length, get_or, take, drop,
}
use quantra_system.Dhcp.Packet.{to_be_bytes, from_be_bytes}
use quantra_system.Resolver.Message.{be16}

abbrev pub Bytes : Type 0
Bytes = List ℕ

abbrev pub u16_at : ℕ → Bytes → ℕ
u16_at i s = get_or s i 0 * 256 + get_or s (suc i) 0

abbrev pub u32_at : ℕ → Bytes → ℕ
u32_at i s =
    from_be_bytes (get_or s i 0) (get_or s (i + 1) 0) (get_or s (i + 2) 0) (get_or s (i + 3) 0)

-- The header of a command: its tag, its size and its code.
abbrev pub command : ℕ → ℕ → ℕ → Bytes → Bytes
command tag size code body = be16 tag ++ (to_be_bytes size ++ (to_be_bytes code ++ body))

abbrev pub build_pw_auth_area : Bytes
build_pw_auth_area = to_be_bytes 0x40000009 ++ (be16 0 ++ 0 ∷ be16 0)

abbrev pub build_policy_auth_area : ℕ → Bytes
build_policy_auth_area session = to_be_bytes session ++ (be16 0 ++ 0 ∷ be16 0)

abbrev pub build_pcr_selection : ℕ → Bytes
build_pcr_selection mask =
    to_be_bytes 1 ++ (be16 11 ++ 3 ∷ mask % 256 ∷ mask / 256 % 256 ∷ mask / 65536 % 256 ∷ [])

unfoldable pub load_command : ℕ → Bytes → Bytes → Bytes
load_command parent public private =
    let auth_area = build_pw_auth_area in
    let body_size = 4 + 4 + length auth_area + 2 + length private + 2 + length public in
    command 0x8002 (10 + body_size) 0x157 (
      to_be_bytes parent
      ++ (to_be_bytes (length auth_area)
          ++ (auth_area
              ++ (be16 (length private) ++ (private ++ (be16 (length public) ++ public))))))

unfoldable pub start_auth_session_command : Bytes
start_auth_session_command = command 0x8001 (10 + 17) 0x176 (
    to_be_bytes 0x40000007
    ++ (to_be_bytes 0x40000007 ++ (be16 0 ++ (be16 0 ++ 1 ∷ (be16 16 ++ be16 11)))))

unfoldable pub policy_pcr_command : ℕ → ℕ → Bytes
policy_pcr_command session pcr_mask =
    let pcr_sel = build_pcr_selection pcr_mask in
    command 0x8001 (10 + (4 + 2 + length pcr_sel)) 0x17f
      (to_be_bytes session ++ (be16 0 ++ pcr_sel))

unfoldable pub unseal_command : ℕ → ℕ → Bytes
unseal_command object session =
    let auth_area = build_policy_auth_area session in
    command 0x8002 (10 + (4 + 4 + length auth_area)) 0x15e
      (to_be_bytes object ++ (to_be_bytes (length auth_area) ++ auth_area))

unfoldable pub flush_command : ℕ → Bytes
flush_command handle = command 0x8001 14 0x165 (to_be_bytes handle)

-- The checks of `tpm2_send` on what was read.
unfoldable pub tpm2_send : Option Bytes → Option Bytes
tpm2_send none = none
tpm2_send (some resp) =
    if ltb (length resp) 10 then none else if u32_at 6 resp == 0 then some resp else none

-- The handle in an answer of at least so many bytes.
abbrev pub handle_in : ℕ → Option Bytes → Option ℕ
handle_in least none = none
handle_in least (some resp) = if ltb (length resp) least then none else some (u32_at 10 resp)

unfoldable pub unsealed : Option Bytes → Option Bytes
unsealed none = none
unsealed (some resp) =
    if ltb (length resp) 16
    then none
    else if ltb (length resp) (16 + u16_at 14 resp)
    then none
    else some (take (u16_at 14 resp) (drop 16 resp))

-- The public and the private area; the second size stands after the first area.
abbrev pub split_private : Bytes → Bytes → Option (Bytes × Bytes)
split_private public rest =
    if ltb (length rest) (2 + u16_at 0 rest)
    then none
    else some (public, take (u16_at 0 rest) (drop 2 rest))

unfoldable pub parse_blob : Bytes → Option (Bytes × Bytes)
parse_blob blob =
    if ltb (length blob) 4
    then none
    else if ltb (length blob) (2 + u16_at 0 blob + 2)
    then none
    else split_private (take (u16_at 0 blob) (drop 2 blob)) (drop (2 + u16_at 0 blob) blob)

abbrev pub read_parent_handle : Option Bytes → Option ℕ
read_parent_handle none = none
read_parent_handle (some s) = if ltb (length s) 4 then none else some (u32_at 0 s)

-- The commands that were sent, and the key or an error.
pub record Run : Type 0 where
  pub sent : List Bytes
  pub key : Option Bytes

abbrev pub fails : Run
fails = record { sent = []; key = none }

abbrev pub sending : Bytes → Run → Run
sending cmd r = record r { sent = cmd ∷ r.sent }

-- Whether the device opens, the mask of the registers, and the device's answers.
pub record Device : Type 0 where
  pub opens : Bool
  pub read_pcr_mask : ℕ
  pub answer : ℕ → Option Bytes

module _ (dev : Device) where
  -- Both handles are flushed, whatever the device answers.
  abbrev pub flush_both : ℕ → ℕ → Option Bytes → Run
  flush_both object session none = fails
  flush_both object session (some key) = record {
    sent = flush_command session ∷ flush_command object ∷ [];
    key = some key;
  }

  abbrev pub with_policy : ℕ → ℕ → Option Bytes → Run
  with_policy object session none = fails
  with_policy object session (some resp) =
      sending (unseal_command object session)
        (flush_both object session (unsealed (tpm2_send (dev.answer 3))))

  abbrev pub with_session : ℕ → Option ℕ → Run
  with_session object none = fails
  with_session object (some session) =
      sending (policy_pcr_command session dev.read_pcr_mask)
        (with_policy object session (tpm2_send (dev.answer 2)))

  abbrev pub with_object : Option ℕ → Run
  with_object none = fails
  with_object (some object) =
      sending start_auth_session_command
        (with_session object (handle_in 14 (tpm2_send (dev.answer 1))))

  abbrev pub with_areas : ℕ → Option (Bytes × Bytes) → Run
  with_areas parent none = fails
  with_areas parent (some (public, private)) =
      sending (load_command parent public private)
        (with_object (handle_in 18 (tpm2_send (dev.answer 0))))

  abbrev pub with_parent : Bytes → Option ℕ → Run
  with_parent blob none = fails
  with_parent blob (some parent) = if dev.opens then with_areas parent (parse_blob blob) else fails

  unfoldable pub unseal_luks_key : Option Bytes → Option Bytes → Run
  unseal_luks_key none parent = fails
  unseal_luks_key (some blob) parent =
      if ltb (length blob) 8 then fails else with_parent blob (read_parent_handle parent)
