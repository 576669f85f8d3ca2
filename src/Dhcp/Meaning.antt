-- ===== src/Dhcp/Meaning.antt =====
-- dhcp.rs: what the options of a reply say.
use quantra_system.Base.{
  ℕ, ◌+◌, ◌*◌, ◌<◌, ◌≡◌, ◌≢◌, ◌⊎◌, refl, ap, ◌∙◌, Option, none, some, List, [], ◌∷◌, ◌++◌, length,
  map, All, arith, sym, true, false, ◌&&◌, ◌==◌, leb,
}
use mathlib.Core.List.{append_assoc, append-nil}
use quantra_system.Dhcp.Packet.{Ip}
use quantra_system.Dhcp.Reply.{Fields, addresses, apply_option}
use quantra_system.Dhcp.Options.{apply_all}

-- An option by what it says, with the bytes of its data that are passed over.
pub data Said : Type 0 where
  message_type : (kind : ℕ) → Said
  subnet_mask gateway server_id : (ip : Ip) → Said
  dns : (ips : List Ip) → Said
  lease_secs : (w x y z : ℕ) → Said
  nothing : (code : ℕ) → Said

abbrev pub ip_octets : Ip → List ℕ
ip_octets ip = ip.a ∷ ip.b ∷ ip.c ∷ ip.d ∷ []

abbrev pub all_ip_octets : List Ip → List ℕ
all_ip_octets [] = []
all_ip_octets (ip ∷ ips) = ip_octets ip ++ all_ip_octets ips

abbrev pub option_of : Said × List ℕ → ℕ × List ℕ
option_of (message_type kind, more) = (53, kind ∷ more)
option_of (subnet_mask ip, more) = (1, ip_octets ip ++ more)
option_of (gateway ip, more) = (3, ip_octets ip ++ more)
option_of (dns ips, more) = (6, all_ip_octets ips ++ more)
option_of (lease_secs w x y z, more) = (51, w ∷ x ∷ y ∷ z ∷ more)
option_of (server_id ip, more) = (54, ip_octets ip ++ more)
option_of (nothing code, payload) = (code, payload)

-- An option that says nothing is of another code or too short; addresses leave less than one.
abbrev pub IsSaid : Said × List ℕ → Type 0
IsSaid (nothing code, payload) =
    ((code ≢ 53) ⊎ (length payload < 1))
    × ((code ≢ 1) ⊎ (length payload < 4))
    × ((code ≢ 3) ⊎ (length payload < 4))
    × (code ≢ 6)
    × ((code ≢ 51) ⊎ (length payload < 4))
    × ((code ≢ 54) ⊎ (length payload < 4))
IsSaid (dns ips, more) = length more < 4
IsSaid _ = Unit

-- The last value that is said, or the one that holds without.
abbrev pub last_of {ℓ} : {A : Type ℓ} → (Said → Option A) → A → List (Said × List ℕ) → A
last_of said d [] = d
last_of said d ((s, more) ∷ os) = elim (said s) [
  | none ↦ last_of said d os
  | some v ↦ last_of said v os
]

abbrev pub message_type_of : Said → Option ℕ
message_type_of (message_type kind) = some kind
message_type_of _ = none

abbrev pub subnet_mask_of : Said → Option Ip
subnet_mask_of (subnet_mask ip) = some ip
subnet_mask_of _ = none

abbrev pub gateway_of : Said → Option (Option Ip)
gateway_of (gateway ip) = some (some ip)
gateway_of _ = none

abbrev pub server_id_of : Said → Option Ip
server_id_of (server_id ip) = some ip
server_id_of _ = none

abbrev pub lease_secs_of : Said → Option ℕ
lease_secs_of (lease_secs w x y z) = some (w * 16777216 + x * 65536 + y * 256 + z)
lease_secs_of _ = none

abbrev pub servers_of : List (Said × List ℕ) → List Ip
servers_of [] = []
servers_of ((dns ips, more) ∷ os) = ips ++ servers_of os
servers_of (o ∷ os) = servers_of os

-- What the options leave of the fields that they start from.
abbrev pub said_by : List (Said × List ℕ) → Fields → Fields
said_by os f = record {
  msg_type = last_of message_type_of f.msg_type os;
  server_id = last_of server_id_of f.server_id os;
  subnet_mask = last_of subnet_mask_of f.subnet_mask os;
  gateway = last_of gateway_of f.gateway os;
  dns = f.dns ++ servers_of os;
  lease_secs = last_of lease_secs_of f.lease_secs os;
}

addresses-ip_octets :
    (ips : List Ip) (more : List ℕ) → length more < 4 → addresses (all_ip_octets ips ++ more) ≡ ips
unfolding addresses
addresses-ip_octets [] [] h = refl
addresses-ip_octets [] (a ∷ []) h = refl
addresses-ip_octets [] (a ∷ b ∷ []) h = refl
addresses-ip_octets [] (a ∷ b ∷ c ∷ []) h = refl
addresses-ip_octets [] (a ∷ b ∷ c ∷ d ∷ more) h = absurd (omega (arith, h))
addresses-ip_octets (ip ∷ ips) more h = ap (λ l. ip ∷ l) (addresses-ip_octets ips more h)

too_short : (code k n size : ℕ) → ((code ≢ k) ⊎ (size < n)) → (code == k && leb n size) ≡ false
too_short code k n size h = ground arith

apply_option-nothing :
    (code : ℕ) (payload : List ℕ) (f : Fields)
    → IsSaid (nothing code, payload)
    → apply_option code payload f ≡ f
unfolding apply_option
apply_option-nothing code payload f (a, b, c, d, e, g) =
    let no_dns : (code == 6) ≡ false = ground arith in
    rw
      (
        too_short code 53 1 (length payload) a,
        too_short code 1 4 (length payload) b,
        too_short code 3 4 (length payload) c,
        no_dns,
        too_short code 51 4 (length payload) e,
        too_short code 54 4 (length payload) g,
      )
      refl

one : (a : ℕ) (more : List ℕ) → leb 1 (length (a ∷ more)) ≡ true
one a more = ground arith

four : (a b c d : ℕ) (more : List ℕ) → leb 4 (length (a ∷ b ∷ c ∷ d ∷ more)) ≡ true
four a b c d more = ground arith

first_said :
    (o : Said × List ℕ) (os : List (Said × List ℕ)) (f : Fields)
    → IsSaid o
    → said_by os (apply_option (option_of o).0 (option_of o).1 f) ≡ said_by (o ∷ os) f
unfolding apply_option
first_said (message_type kind, more) os f h = rw (one kind more) refl
first_said (subnet_mask ip, more) os f h = rw (four ip.a ip.b ip.c ip.d more) refl
first_said (gateway ip, more) os f h = rw (four ip.a ip.b ip.c ip.d more) refl
first_said (server_id ip, more) os f h = rw (four ip.a ip.b ip.c ip.d more) refl
first_said (lease_secs w x y z, more) os f h = rw (four w x y z more) refl
first_said (dns ips, more) os f h =
    ap (λ l. record (said_by os f) { dns = l })
      (append_assoc f.dns (addresses (all_ip_octets ips ++ more)) (servers_of os)
        ∙ ap (λ l. f.dns ++ (l ++ servers_of os)) (addresses-ip_octets ips more h))
first_said (nothing code, payload) os f h = ap (said_by os) (apply_option-nothing code payload f h)

pub apply_all-said :
    (os : List (Said × List ℕ)) (f : Fields)
    → All IsSaid os
    → apply_all (map option_of os) f ≡ said_by os f
unfolding apply_all
apply_all-said [] f h = ap (λ l. record f { dns = l }) (sym (append-nil f.dns))
apply_all-said (o ∷ os) f h =
    apply_all-said os (apply_option (option_of o).0 (option_of o).1 f) h.1 ∙ first_said o os f h.0
