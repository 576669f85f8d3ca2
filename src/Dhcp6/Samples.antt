-- ===== src/Dhcp6/Samples.antt =====
-- A small exchange with a DHCPv6 server, and the theorems applied to it.
use quantra_system.Base.{ℕ, ◌≡◌, refl, Bool, true, some, List, [], ◌∷◌, ◌++◌, replicate}
use quantra_system.Dhcp.Packet.{Mac}
use quantra_system.Dhcp.Handshake.{Event, datagram}
use quantra_system.Timer.Calendar.{checked, wrapping}
use quantra_system.Dhcp6.Packet
use quantra_system.Dhcp6.Packet.{Xid, Dhcp6Packet}
use quantra_system.Dhcp6.Reply
use quantra_system.Dhcp6.Handshake
use quantra_system.Dhcp6.Exchange
use quantra_system.Dhcp6.Lease
use quantra_system.Dhcp6.Lease.Outcome

abbrev mac : Mac
mac = record { b0 = 2; b1 = 0; b2 = 0; b3 = 0; b4 = 0; b5 = 1 }

abbrev address : List ℕ
address = 32 ∷ 1 ∷ 13 ∷ 184 ∷ replicate 11 0 ++ 20 ∷ []

abbrev server : List ℕ
server = 0 ∷ 3 ∷ 0 ∷ 1 ∷ 9 ∷ 9 ∷ []

abbrev xids : ℕ → Xid
xids left = record { x0 = 1; x1 = 2; x2 = left }

abbrev req_xids : ℕ → Xid
req_xids left = record { x0 = 5; x1 = 6; x2 = left }

abbrev always : Dhcp6Packet → Bool
always p = true

-- An answer of the server: its identifier, and an association with the address.
abbrev message : ℕ → Xid → List ℕ
message kind xid =
    (Packet.push_opt 3 (Packet.ia_na_head 1 ++ Packet.ia_addr address 4294967295 4294967295)
      (Packet.push_opt 2 server (Packet.new kind xid))).buf

abbrev heard : Reply.Dhcp6Reply
heard = record (Reply.fresh 7 (req_xids 2)) {
  server_duid = server;
  ia_address = some address;
  preferred = 4294967295;
  valid = 4294967295;
  t1 = 0;
  t2 = 0;
}

-- Noise, an ADVERTISE, the ADVERTISE again, a REPLY.
abbrev events : List Event
events =
    datagram (1 ∷ 2 ∷ [])
    ∷ datagram (message 2 (xids 2))
    ∷ datagram (message 2 (xids 2))
    ∷ datagram (message 7 (req_xids 2))
    ∷ []

messages : Unit {0}
unfolding Packet.push_opt Packet.solicit Packet.request Reply.parse_dhcp6_reply Reply.read_opts
    Reply.apply_opt Reply.read_sub_opts Reply.apply_sub_opt Handshake.do_dhcp6_handshake
    Handshake.attempts Handshake.recv_dhcp6_matching Lease.dhcp6_acquire
messages = tt

events_granted :
    (Handshake.do_dhcp6_handshake mac xids req_xids always events).ending ≡ Handshake.granted heard
unfolding messages
events_granted = refl

do_dhcp6_handshake-IsGranted_example :
    Exchange.IsGranted mac xids req_xids always heard
      (Handshake.do_dhcp6_handshake mac xids req_xids always events).sent
      events
do_dhcp6_handshake-IsGranted_example =
    Exchange.do_dhcp6_handshake-IsGranted mac xids req_xids always heard events events_granted

abbrev sys : Lease.System
sys = record {
  mac = some mac;
  opens = true;
  applies = λ r. true;
  can_send = always;
  xids = xids;
  req_xids = req_xids;
  release_xid = xids 0;
  events = events;
}

-- A preferred lifetime of infinity without renewal times: checked arithmetic panics on it.
acquire_infinite : (Lease.dhcp6_acquire checked sys "eth0" []).answer ≡ Lease.panic
unfolding messages
acquire_infinite = refl

dhcp6_acquire-Outcome_example :
    Outcome.Outcome wrapping sys "eth0" [] (Lease.dhcp6_acquire wrapping sys "eth0" [])
dhcp6_acquire-Outcome_example = Outcome.dhcp6_acquire-Outcome wrapping sys "eth0" []
