-- ===== src/Dhcp6/Reply.antt =====
-- ipv6.rs: the parser of a server's messages. A position in the buffer is the list of the bytes from
-- there on; the loops run on the number of the bytes as fuel, since each turn reads some.
use quantra_system.Base.{
  ℕ, zero, suc, ◌+◌, ◌*◌, ◌&&◌, Option, none, some, List, [], ◌∷◌, ◌++◌, if◌then◌else◌, ◌==◌, ltb,
  leb, length, get_or, take, drop,
}
use quantra_system.Dhcp.Packet.{from_be_bytes}
use quantra_system.Dhcp6.Packet.{Xid}

pub record Dhcp6Reply : Type 0 where
  pub msg_type : ℕ
  pub xid : Xid
  pub server_duid : List ℕ
  pub ia_address : Option (List ℕ)
  pub prefix_len : ℕ
  pub preferred : ℕ
  pub valid : ℕ
  pub t1 : ℕ
  pub t2 : ℕ
  pub dns : List (List ℕ)
  pub status_code : ℕ

-- What the parser starts from, before the first option.
abbrev pub fresh : ℕ → Xid → Dhcp6Reply
fresh msg_type xid = record {
  msg_type = msg_type;
  xid = xid;
  server_duid = [];
  ia_address = none;
  prefix_len = 128;
  preferred = 3600;
  valid = 7200;
  t1 = 1800;
  t2 = 2880;
  dns = [];
  status_code = 0;
}

abbrev pub u16_at : ℕ → List ℕ → ℕ
u16_at i s = get_or s i 0 * 256 + get_or s (suc i) 0

abbrev pub u32_at : ℕ → List ℕ → ℕ
u32_at i s =
    from_be_bytes (get_or s i 0) (get_or s (i + 1) 0) (get_or s (i + 2) 0) (get_or s (i + 3) 0)

unfoldable pub apply_sub_opt : ℕ → List ℕ → Dhcp6Reply → Dhcp6Reply
apply_sub_opt code payload r =
    if code == 5 && leb 24 (length payload)
    then record r {
      ia_address = some (take 16 payload);
      preferred = u32_at 16 payload;
      valid = u32_at 20 payload;
    }
    else r

unfoldable pub read_sub_opts : ℕ → List ℕ → Dhcp6Reply → Dhcp6Reply
read_sub_opts (suc fuel) (c1 ∷ c0 ∷ l1 ∷ l0 ∷ s) r =
    let n = l1 * 256 + l0 in
    let next = read_sub_opts fuel (drop n s) (apply_sub_opt (c1 * 256 + c0) (take n s) r) in
    if ltb (length s) n then r else next
read_sub_opts _ _ r = r

unfoldable pub read_addresses : ℕ → List ℕ → List (List ℕ)
read_addresses zero s = []
read_addresses (suc fuel) s =
    let rest = read_addresses fuel (drop 16 s) in if leb 16 (length s) then take 16 s ∷ rest else []

unfoldable pub apply_opt : ℕ → List ℕ → Dhcp6Reply → Dhcp6Reply
apply_opt code payload r =
    if code == 2
    then record r { server_duid = payload }
    else if code == 3 && leb 12 (length payload)
    then read_sub_opts (length payload) (drop 12 payload)
        (record r { t1 = u32_at 4 payload; t2 = u32_at 8 payload })
    else if code == 23
    then record r { dns = r.dns ++ read_addresses (length payload) payload }
    else if code == 13 && leb 2 (length payload)
    then record r { status_code = u16_at 0 payload }
    else r

unfoldable pub read_opts : ℕ → List ℕ → Dhcp6Reply → Dhcp6Reply
read_opts (suc fuel) (c1 ∷ c0 ∷ l1 ∷ l0 ∷ s) r =
    let n = l1 * 256 + l0 in
    let next = read_opts fuel (drop n s) (apply_opt (c1 * 256 + c0) (take n s) r) in
    if ltb (length s) n then r else next
read_opts _ _ r = r

unfoldable pub parse_dhcp6_reply : List ℕ → Option Dhcp6Reply
parse_dhcp6_reply (t ∷ a ∷ b ∷ c ∷ s) =
    some (read_opts (length s) s (fresh t (record { x0 = a; x1 = b; x2 = c })))
parse_dhcp6_reply _ = none
