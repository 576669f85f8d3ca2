-- ===== src/Dhcp/Requests.antt =====
-- dhcp.rs: what stands in the messages that the client builds.
use quantra_system.Base.{
  ℕ, ◌/◌, ◌%◌, ◌^◌, ◌<◌, ◌≡◌, refl, Bool, true, false, none, drop, if◌then◌else◌, length, arith,
}
use quantra_system.Dhcp.Packet.{
  Ip, Mac, DhcpPacket, copy_at, new, set_header, set_ciaddr, push_opt, pad, finish, discover,
  request, release, from_be_bytes,
}
use quantra_system.Dhcp.Reply.{
  Fields, ip_at, u32_at, start, read_options, apply_option, addresses, parse_reply,
}

from_be_bytes-to_be_bytes :
    (n : ℕ)
    → n < 2 ^ 32
    → from_be_bytes (n / 16777216 % 256) (n / 65536 % 256) (n / 256 % 256) (n % 256) ≡ n
from_be_bytes-to_be_bytes n lt = omega (arith, lt)

abbrev pub unset : Ip
unset = record { a = 0; b = 0; c = 0; d = 0 }

-- What a server reads in a message.
abbrev pub read : DhcpPacket → Fields
read p = read_options 300 (drop 240 p.buf) (start p.buf)

-- A message of 300 bytes for a server: it has the transaction's number, the client's address and
-- the message type, and it is no reply.
pub record IsMessage (p : DhcpPacket) (xid msg_type : ℕ) (ciaddr : Ip) : Type 0 where
  pub size : length p.buf ≡ 300
  pub transaction : u32_at 4 p.buf ≡ xid
  pub client : ip_at 12 p.buf ≡ ciaddr
  pub kind : (read p).msg_type ≡ msg_type
  pub no_reply : parse_reply p.buf ≡ none

program : Unit {0}
unfolding copy_at new set_header set_ciaddr push_opt pad finish discover request release
    read_options apply_option addresses parse_reply
program = tt

module _ (xid : ℕ) (mac : Mac) (lt : xid < 2 ^ 32) where
  -- A DISCOVER message for a 32-bit transaction number has 300 bytes, that number and message type
  -- 1, names no client address, and is no reply to the client's own parser.
  pub discover-IsMessage : IsMessage (discover xid mac) xid 1 unset
  unfolding program
  discover-IsMessage = record {
    size = refl;
    transaction = from_be_bytes-to_be_bytes xid lt;
    client = refl;
    kind = refl;
    no_reply = refl;
  }

module _ (xid : ℕ) (mac : Mac) (ip server : Ip) (lt : xid < 2 ^ 32) where
  -- A REQUEST message for a 32-bit transaction number has 300 bytes, that number and message type
  -- 3, and is no reply to the client's own parser. When it renews a lease it names the client's
  -- address and no server; otherwise it names the chosen server and no client address.
  pub request-IsMessage :
      (renewal : Bool)
      → IsMessage (request xid mac ip server renewal) xid 3 (if renewal then ip else unset)
        × ((read (request xid mac ip server renewal)).server_id
            ≡ (if renewal then unset else server))
  unfolding program
  request-IsMessage true = (
    record {
      size = refl;
      transaction = from_be_bytes-to_be_bytes xid lt;
      client = refl;
      kind = refl;
      no_reply = refl;
    },
    refl,
  )
  request-IsMessage false = (
    record {
      size = refl;
      transaction = from_be_bytes-to_be_bytes xid lt;
      client = refl;
      kind = refl;
      no_reply = refl;
    },
    refl,
  )

  -- A RELEASE message for a 32-bit transaction number has 300 bytes, that number and message type
  -- 7, names the client's address and the server that gave it, and is no reply to the client's own
  -- parser.
  pub release-IsMessage :
      IsMessage (release xid mac ip server) xid 7 ip
      × ((read (release xid mac ip server)).server_id ≡ server)
  unfolding program
  release-IsMessage = (
    record {
      size = refl;
      transaction = from_be_bytes-to_be_bytes xid lt;
      client = refl;
      kind = refl;
      no_reply = refl;
    },
    refl,
  )
