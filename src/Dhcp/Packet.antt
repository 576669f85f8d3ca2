-- ===== src/Dhcp/Packet.antt =====
-- dhcp.rs: the packets that the client builds. A byte is a number; the bytes of a message are a list.
use quantra_system.Base.{
  ℕ, zero, suc, ◌+◌, ◌*◌, ◌/◌, ◌%◌, Bool, List, [], ◌∷◌, ◌++◌, if◌then◌else◌, ltb, length,
  replicate,
}

-- `Ipv4Addr` by its octets, and a hardware address.
pub record Ip : Type 0 where
  pub a : ℕ
  pub b : ℕ
  pub c : ℕ
  pub d : ℕ

pub record Mac : Type 0 where
  pub b0 : ℕ
  pub b1 : ℕ
  pub b2 : ℕ
  pub b3 : ℕ
  pub b4 : ℕ
  pub b5 : ℕ

abbrev pub octets : Ip → List ℕ
octets ip = ip.a ∷ ip.b ∷ ip.c ∷ ip.d ∷ []

abbrev pub mac_bytes : Mac → List ℕ
mac_bytes m = m.b0 ∷ m.b1 ∷ m.b2 ∷ m.b3 ∷ m.b4 ∷ m.b5 ∷ []

abbrev pub to_be_bytes : ℕ → List ℕ
to_be_bytes n = n / 16777216 % 256 ∷ n / 65536 % 256 ∷ n / 256 % 256 ∷ n % 256 ∷ []

abbrev pub from_be_bytes : ℕ → ℕ → ℕ → ℕ → ℕ
from_be_bytes a b c d = a * 16777216 + b * 65536 + c * 256 + d

abbrev pub magic_cookie : List ℕ
magic_cookie = 99 ∷ 130 ∷ 83 ∷ 99 ∷ []

pub record DhcpPacket : Type 0 where
  pub buf : List ℕ
  pub xid : ℕ

-- `buf[i..i + data.len()].copy_from_slice(data)`, for a range inside the buffer.
unfoldable pub copy_at : ℕ → List ℕ → List ℕ → List ℕ
copy_at i payload [] = []
copy_at zero [] (b ∷ bs) = b ∷ bs
copy_at zero (d ∷ payload) (b ∷ bs) = d ∷ copy_at zero payload bs
copy_at (suc i) payload (b ∷ bs) = b ∷ copy_at i payload bs

unfoldable pub new : ℕ → DhcpPacket
new xid = record { buf = replicate 236 0 ++ magic_cookie; xid = xid }

unfoldable pub set_header : ℕ → Mac → DhcpPacket → DhcpPacket
set_header op mac p = record p {
  buf = copy_at 28 (mac_bytes mac) (
      copy_at 10 (128 ∷ 0 ∷ [])
        (copy_at 4 (to_be_bytes p.xid) (copy_at 0 (op ∷ 1 ∷ 6 ∷ 0 ∷ []) p.buf)));
}

unfoldable pub set_ciaddr : Ip → DhcpPacket → DhcpPacket
set_ciaddr ip p = record p { buf = copy_at 12 (octets ip) p.buf }

-- `data.len() as u8` keeps the low byte of the length.
unfoldable pub push_opt : ℕ → List ℕ → DhcpPacket → DhcpPacket
push_opt code payload p = record p { buf = p.buf ++ code ∷ length payload % 256 ∷ payload }

abbrev pub push_opt_byte : ℕ → ℕ → DhcpPacket → DhcpPacket
push_opt_byte code val p = push_opt code (val ∷ []) p

abbrev pub push_opt_u32 : ℕ → ℕ → DhcpPacket → DhcpPacket
push_opt_u32 code val p = push_opt code (to_be_bytes val) p

abbrev pub push_opt_ip : ℕ → Ip → DhcpPacket → DhcpPacket
push_opt_ip code ip p = push_opt code (octets ip) p

-- `while buf.len() < 300 { buf.push(OPT_PAD) }`, on fuel: 300 is enough.
unfoldable pub pad : ℕ → List ℕ → List ℕ
pad zero buf = buf
pad (suc fuel) buf =
    let more = pad fuel (buf ++ 0 ∷ []) in if ltb (length buf) 300 then more else buf

unfoldable pub finish : DhcpPacket → DhcpPacket
finish p = record p { buf = pad 300 (p.buf ++ 255 ∷ []) }

unfoldable pub discover : ℕ → Mac → DhcpPacket
discover xid mac = finish (
    push_opt 55 (1 ∷ 3 ∷ 6 ∷ 51 ∷ [])
      (push_opt 61 (1 ∷ mac_bytes mac) (push_opt_byte 53 1 (set_header 1 mac (new xid)))))

unfoldable pub request : ℕ → Mac → Ip → Ip → Bool → DhcpPacket
request xid mac requested_ip server_id is_renewal =
    let p = set_header 1 mac (new xid) in
    let p = if is_renewal then set_ciaddr requested_ip p else p in
    let p = push_opt_byte 53 3 p in
    let p = if is_renewal then p else push_opt_ip 54 server_id (push_opt_ip 50 requested_ip p) in
    finish (push_opt 55 (1 ∷ 3 ∷ 6 ∷ 51 ∷ []) (push_opt 61 (1 ∷ mac_bytes mac) p))

unfoldable pub release : ℕ → Mac → Ip → Ip → DhcpPacket
release xid mac client_ip server_id = finish (
    push_opt_ip 54 server_id
      (push_opt_byte 53 7 (set_ciaddr client_ip (set_header 1 mac (new xid)))))
