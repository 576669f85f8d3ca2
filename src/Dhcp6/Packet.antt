-- ===== src/Dhcp6/Packet.antt =====
-- ipv6.rs: the messages that the client builds. A byte is a number, and an address its 16 octets.
use quantra_system.Base.{ℕ, ◌/◌, ◌%◌, Option, none, some, List, [], ◌∷◌, ◌++◌, length}
use quantra_system.Dhcp.Packet.{Mac, mac_bytes, to_be_bytes, from_be_bytes}
use quantra_system.Resolver.Message.{be16}

-- The three bytes of a transaction number.
pub record Xid : Type 0 where
  pub x0 : ℕ
  pub x1 : ℕ
  pub x2 : ℕ

-- The nanoseconds of the clock, none where it stands before the epoch.
unfoldable pub make_xid : Option ℕ → Xid
make_xid none = record { x0 = 18; x1 = 52; x2 = 86 }
make_xid (some t) = record { x0 = t / 65536 % 256; x1 = t / 256 % 256; x2 = t % 256 }

abbrev pub make_duid_ll : Mac → List ℕ
make_duid_ll mac = be16 3 ++ (be16 1 ++ mac_bytes mac)

abbrev pub iaid_from_mac : Mac → ℕ
iaid_from_mac mac = from_be_bytes mac.b2 mac.b3 mac.b4 mac.b5

pub record Dhcp6Packet : Type 0 where
  pub buf : List ℕ

abbrev pub new : ℕ → Xid → Dhcp6Packet
new msg_type xid = record { buf = msg_type ∷ xid.x0 ∷ xid.x1 ∷ xid.x2 ∷ [] }

-- `data.len() as u16` keeps the low 16 bits of the length, as `be16` does.
unfoldable pub push_opt : ℕ → List ℕ → Dhcp6Packet → Dhcp6Packet
push_opt code payload p = record p {
  buf = p.buf ++ (be16 code ++ (be16 (length payload) ++ payload));
}

abbrev pub push_opt_u16 : ℕ → ℕ → Dhcp6Packet → Dhcp6Packet
push_opt_u16 code val p = push_opt code (be16 val) p

-- The identity association without an address: its number and no times.
abbrev pub ia_na_head : ℕ → List ℕ
ia_na_head iaid = to_be_bytes iaid ++ (to_be_bytes 0 ++ to_be_bytes 0)

-- The address inside the association, with its lifetimes.
abbrev pub ia_addr : List ℕ → ℕ → ℕ → List ℕ
ia_addr addr preferred valid =
    let payload : List ℕ = addr ++ (to_be_bytes preferred ++ to_be_bytes valid) in
    be16 5 ++ (be16 (length payload) ++ payload)

abbrev pub hint : Option (List ℕ) → List ℕ
hint none = []
hint (some addr) = ia_addr addr 3600 7200

unfoldable pub solicit : Mac → Xid → ℕ → Dhcp6Packet
solicit mac xid iaid =
    push_opt 6 (be16 23 ++ be16 24)
      (push_opt_u16 8 0 (push_opt 3 (ia_na_head iaid) (push_opt 1 (make_duid_ll mac) (new 1 xid))))

unfoldable pub request : Mac → Xid → List ℕ → ℕ → Option (List ℕ) → Dhcp6Packet
request mac xid server_duid iaid requested_addr = push_opt_u16 8 0 (
    push_opt 6 (be16 23) (
      push_opt 3 (ia_na_head iaid ++ hint requested_addr)
        (push_opt 2 server_duid (push_opt 1 (make_duid_ll mac) (new 3 xid)))))

unfoldable pub release : Mac → Xid → List ℕ → ℕ → List ℕ → Dhcp6Packet
release mac xid server_duid iaid addr =
    push_opt 3 (ia_na_head iaid ++ ia_addr addr 0 0)
      (push_opt 2 server_duid (push_opt 1 (make_duid_ll mac) (new 8 xid)))
