-- ===== src/Dhcp/Handshake.antt =====
-- dhcp.rs: the exchange with a server. What comes in on the socket is a sequence of events; the
-- numbers that `make_xid` draws and the success of a send are arguments.
use quantra_system.Base.{
  ℕ, zero, suc, Bool, false, ◌&&◌, Option, none, some, List, [], ◌∷◌, if◌then◌else◌, ◌==◌, any,
}
use quantra_system.Dhcp.Packet.{Mac, DhcpPacket, discover, request}
use quantra_system.Dhcp.Reply.{DhcpReply, parse_reply}

-- A datagram, an error of `recv_from`, or the end of the time that `timeout` gives.
pub data Event : Type 0 where
  datagram : (bytes : List ℕ) → Event
  failure expiry : Event

pub data Received : Type 0 where
  reply : (r : DhcpReply) (rest : List Event) → Received
  failed expired : (rest : List Event) → Received

-- The checks of the two receive loops on a datagram; `recv_matching` has one type in the list.
abbrev pub wanted : ℕ → List ℕ → DhcpReply → Bool
wanted xid types r = (r.xid == xid) && any (λ t. r.msg_type == t) types

abbrev pub matched : ℕ → List ℕ → Option DhcpReply → List Event → Received → Received
matched xid types none rest later = later
matched xid types (some r) rest later = if wanted xid types r then reply r rest else later

-- `recv_matching` and `recv_matching_multi` under `timeout`. Silence ends with the time.
unfoldable pub recv_matching : ℕ → List ℕ → List Event → Received
recv_matching xid types [] = expired []
recv_matching xid types (datagram bytes ∷ rest) =
    matched xid types (parse_reply bytes) rest (recv_matching xid types rest)
recv_matching xid types (failure ∷ rest) = failed rest
recv_matching xid types (expiry ∷ rest) = expired rest

-- How the exchange ends, and the messages that were sent.
pub data Ending : Type 0 where
  acked : DhcpReply → Ending
  send_failed exhausted : Ending

pub record Trace : Type 0 where
  pub sent : List DhcpPacket
  pub ending : Ending

abbrev pub sending : DhcpPacket → Trace → Trace
sending p t = record { sent = p ∷ t.sent; ending = t.ending }

abbrev pub stop : Ending → Trace
stop e = record { sent = []; ending = e }

-- The answer to a REQUEST: an ACK ends the exchange, all else goes on to the next attempt.
abbrev pub on_answer : Received → (List Event → Trace) → Trace
on_answer (reply r rest) next = if r.msg_type == 5 then stop (acked r) else next rest
on_answer (failed rest) next = next rest
on_answer (expired rest) next = next rest

module _ (mac : Mac) (xids : ℕ → ℕ) (can_send : DhcpPacket → Bool) where
  abbrev pub on_offer : ℕ → Received → (List Event → Trace) → Trace
  on_offer xid (failed rest) next = next rest
  on_offer xid (expired rest) next = next rest
  on_offer xid (reply offer rest) next =
      let asked = request xid mac offer.your_ip offer.server_id false in
      if can_send asked
      then sending asked (on_answer (recv_matching xid (5 ∷ 6 ∷ []) rest) next)
      else stop send_failed

  -- The attempts that are left.
  unfoldable pub attempts : ℕ → List Event → Trace
  attempts zero events = stop exhausted
  attempts (suc left) events =
      let xid = xids left in
      let found = discover xid mac in
      if can_send found
      then sending found (on_offer xid (recv_matching xid (2 ∷ []) events) (attempts left))
      else stop send_failed

  unfoldable pub do_discover_request : List Event → Trace
  do_discover_request events = attempts 3 events
