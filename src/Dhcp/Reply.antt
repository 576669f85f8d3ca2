-- ===== src/Dhcp/Reply.antt =====
-- dhcp.rs: what the client reads in a server's reply.
use quantra_system.Base.{
  ℕ, zero, suc, ◌+◌, not, ◌&&◌, Option, none, some, List, [], ◌∷◌, ◌++◌, if◌then◌else◌, ◌==◌, ltb,
  leb, length, get_or, take, drop,
}
use quantra_system.Base.Text.{text_eq}
use quantra_system.Dhcp.Packet.{Ip, from_be_bytes, magic_cookie}

pub record DhcpReply : Type 0 where
  pub msg_type : ℕ
  pub your_ip : Ip
  pub server_ip : Ip
  pub server_id : Ip
  pub subnet_mask : Ip
  pub gateway : Option Ip
  pub dns : List Ip
  pub lease_secs : ℕ
  pub xid : ℕ

-- The variables that the loop over the options sets.
pub record Fields : Type 0 where
  pub msg_type : ℕ
  pub server_id : Ip
  pub subnet_mask : Ip
  pub gateway : Option Ip
  pub dns : List Ip
  pub lease_secs : ℕ

abbrev pub ip_at : ℕ → List ℕ → Ip
ip_at i buf = record {
  a = get_or buf i 0;
  b = get_or buf (i + 1) 0;
  c = get_or buf (i + 2) 0;
  d = get_or buf (i + 3) 0;
}

abbrev pub u32_at : ℕ → List ℕ → ℕ
u32_at i buf =
    from_be_bytes (get_or buf i 0) (get_or buf (i + 1) 0) (get_or buf (i + 2) 0)
      (get_or buf (i + 3) 0)

-- `while j + 4 <= len`, with the four bytes at `j`.
unfoldable pub addresses : List ℕ → List Ip
addresses (a ∷ b ∷ c ∷ d ∷ payload) = record { a = a; b = b; c = c; d = d } ∷ addresses payload
addresses _ = []

-- The match on an option's code; an option that is too short is passed over.
unfoldable pub apply_option : ℕ → List ℕ → Fields → Fields
apply_option code payload f =
    if code == 53 && leb 1 (length payload)
    then record f { msg_type = get_or payload 0 0 }
    else if code == 1 && leb 4 (length payload)
    then record f { subnet_mask = ip_at 0 payload }
    else if code == 3 && leb 4 (length payload)
    then record f { gateway = some (ip_at 0 payload) }
    else if code == 6
    then record f { dns = f.dns ++ addresses payload }
    else if code == 51 && leb 4 (length payload)
    then record f { lease_secs = u32_at 0 payload }
    else if code == 54 && leb 4 (length payload)
    then record f { server_id = ip_at 0 payload }
    else f

-- The loop over the options: what stands from index `i` on, on fuel.
unfoldable pub read_options : ℕ → List ℕ → Fields → Fields
read_options zero rest f = f
read_options (suc fuel) [] f = f
read_options (suc fuel) (code ∷ []) f = f
read_options (suc fuel) (code ∷ len ∷ rest) f =
    let padded = read_options fuel (len ∷ rest) f in
    let next = read_options fuel (drop len rest) (apply_option code (take len rest) f) in
    if code == 255
    then f
    else if code == 0
    then padded
    else if ltb (length rest) len
    then f
    else next

abbrev pub start : List ℕ → Fields
start buf = record {
  msg_type = 0;
  server_id = ip_at 20 buf;
  subnet_mask = record { a = 255; b = 255; c = 255; d = 0 };
  gateway = none;
  dns = [];
  lease_secs = 86400;
}

abbrev pub reply_of : List ℕ → Fields → DhcpReply
reply_of buf f = record {
  msg_type = f.msg_type;
  your_ip = ip_at 16 buf;
  server_ip = ip_at 20 buf;
  server_id = f.server_id;
  subnet_mask = f.subnet_mask;
  gateway = f.gateway;
  dns = f.dns;
  lease_secs = f.lease_secs;
  xid = u32_at 4 buf;
}

unfoldable pub parse_reply : List ℕ → Option DhcpReply
parse_reply buf =
    let f = read_options (length buf) (drop 240 buf) (start buf) in
    if ltb (length buf) 240
    then none
    else if not (get_or buf 0 0 == 2)
    then none
    else if not (text_eq (take 4 (drop 236 buf)) magic_cookie)
    then none
    else if f.msg_type == 0
    then none
    else some (reply_of buf f)
