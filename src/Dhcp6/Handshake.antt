-- ===== src/Dhcp6/Handshake.antt =====
-- ipv6.rs: the exchange with a server. What comes in on the socket is a sequence of events; the
-- numbers that `make_xid` draws and the success of a send are arguments.
use quantra_system.Base.{
  ℕ, zero, suc, Bool, ◌&&◌, Option, none, some, List, [], ◌∷◌, if◌then◌else◌, ◌==◌,
}
use quantra_system.Dhcp.Packet.{Mac}
use quantra_system.Dhcp.Handshake.{Event, datagram, failure, expiry}
use quantra_system.Dhcp6.Packet.{Xid, Dhcp6Packet, iaid_from_mac, solicit, request}
use quantra_system.Dhcp6.Reply.{Dhcp6Reply, parse_dhcp6_reply}

pub data Received : Type 0 where
  got : (r : Dhcp6Reply) (rest : List Event) → Received
  broken silent : (rest : List Event) → Received

abbrev pub xid_eq : Xid → Xid → Bool
xid_eq a b = (a.x0 == b.x0) && ((a.x1 == b.x1) && (a.x2 == b.x2))

abbrev pub wanted : Xid → ℕ → Dhcp6Reply → Bool
wanted xid expected r = xid_eq r.xid xid && (r.msg_type == expected)

abbrev pub matched : Xid → ℕ → Option Dhcp6Reply → List Event → Received → Received
matched xid expected none rest later = later
matched xid expected (some r) rest later = if wanted xid expected r then got r rest else later

-- The receive loop under `timeout`. Silence ends with the time.
unfoldable pub recv_dhcp6_matching : Xid → ℕ → List Event → Received
recv_dhcp6_matching xid expected [] = silent []
recv_dhcp6_matching xid expected (datagram bytes ∷ rest) =
    matched xid expected (parse_dhcp6_reply bytes) rest (recv_dhcp6_matching xid expected rest)
recv_dhcp6_matching xid expected (failure ∷ rest) = broken rest
recv_dhcp6_matching xid expected (expiry ∷ rest) = silent rest

-- How the exchange ends, and the messages that were sent.
pub data Ending : Type 0 where
  granted : Dhcp6Reply → Ending
  send_failed exhausted : Ending

pub record Trace : Type 0 where
  pub sent : List Dhcp6Packet
  pub ending : Ending

abbrev pub sending : Dhcp6Packet → Trace → Trace
sending p t = record { sent = p ∷ t.sent; ending = t.ending }

abbrev pub stop : Ending → Trace
stop e = record { sent = []; ending = e }

abbrev pub on_reply : Received → (List Event → Trace) → Trace
on_reply (got r rest) next = if r.status_code == 0 then stop (granted r) else next rest
on_reply (broken rest) next = next rest
on_reply (silent rest) next = next rest

abbrev pub asking : Mac → Xid → Dhcp6Reply → Dhcp6Packet
asking mac xid advertise =
    request mac xid advertise.server_duid (iaid_from_mac mac) advertise.ia_address

-- The REQUEST's number is drawn anew, by the second of the two.
module _ (mac : Mac) (xids req_xids : ℕ → Xid) (can_send : Dhcp6Packet → Bool) where
  abbrev pub ask : Xid → Dhcp6Reply → List Event → (List Event → Trace) → Trace
  ask xid advertise rest next =
      if can_send (asking mac xid advertise)
      then sending (asking mac xid advertise) (on_reply (recv_dhcp6_matching xid 7 rest) next)
      else stop send_failed

  abbrev pub on_advertise : Xid → Received → (List Event → Trace) → Trace
  on_advertise xid (broken rest) next = next rest
  on_advertise xid (silent rest) next = next rest
  on_advertise xid (got advertise rest) next =
      if advertise.status_code == 0 then ask xid advertise rest next else next rest

  -- The attempts that are left.
  unfoldable pub attempts : ℕ → List Event → Trace
  attempts zero events = stop exhausted
  attempts (suc left) events =
      let soliciting = solicit mac (xids left) (iaid_from_mac mac) in
      if can_send soliciting
      then sending soliciting
          (on_advertise (req_xids left) (recv_dhcp6_matching (xids left) 2 events) (attempts left))
      else stop send_failed

  unfoldable pub do_dhcp6_handshake : List Event → Trace
  do_dhcp6_handshake events = attempts 3 events
