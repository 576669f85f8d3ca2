-- ===== src/Dhcp/Exchange.antt =====
-- dhcp.rs: what the exchange with a server ends with, and what it sent.
use quantra_system.Base.{
  ℕ, zero, suc, ◌≡◌, refl, subst, Bool, true, false, List, [], ◌∷◌, if◌then◌else◌, ◌==◌, ==_iff,
}
use mathlib.Core.List.{Memᴰ}
use quantra_system.Dhcp.Packet.{Mac, DhcpPacket, discover, request}
use quantra_system.Dhcp.Reply.{DhcpReply}
use quantra_system.Dhcp.Handshake.{
  Event, Received, reply, failed, expired, recv_matching, acked, send_failed, Trace, sending, stop,
  on_answer, on_offer, attempts, do_discover_request,
}
use quantra_system.Dhcp.Events.{
  Arrives, IsLater, same, IsLater-trans, remaining, recv_matching-Arrives, recv_matching-IsLater,
}

module _ (mac : Mac) (xids : ℕ → ℕ) (can_send : DhcpPacket → Bool) where
  -- An exchange that ended with an ACK: in one attempt an OFFER of its transaction came, its
  -- address was asked for of its server, and after it the ACK came in the same transaction.
  pub record IsAcked (r : DhcpReply) (sent : List DhcpPacket) (events : List Event) : Type 0 where
    pub attempt : ℕ
    pub offer : DhcpReply
    pub from : List Event
    pub mid : List Event
    pub rest : List Event
    pub later_on : IsLater from events
    pub offered : Arrives (xids attempt) (2 ∷ []) offer mid from
    pub answered : Arrives (xids attempt) (5 ∷ 6 ∷ []) r rest mid
    pub is_ack : r.msg_type ≡ 5
    pub asked : Memᴰ (request (xids attempt) mac offer.your_ip offer.server_id false) sent

  -- Of an exchange that begins with some events: if it ends with an ACK, this is how.
  abbrev Goal : DhcpReply → List Event → Trace → Type 0
  Goal r events t = t.ending ≡ acked r → IsAcked r t.sent events

  widen :
      {r : DhcpReply} {rest events : List Event} {sent : List DhcpPacket} (p : DhcpPacket)
      → IsLater rest events
      → IsAcked r sent rest
      → IsAcked r (p ∷ sent) events
  widen p k h = record {
    attempt = h.attempt;
    offer = h.offer;
    from = h.from;
    mid = h.mid;
    rest = h.rest;
    later_on = IsLater-trans h.later_on k;
    offered = h.offered;
    answered = h.answered;
    is_ack = h.is_ack;
    asked = Memᴰ.tail h.asked;
  }

  left_after :
      (xid : ℕ) (types : List ℕ) (events : List Event) (got : Received)
      → recv_matching xid types events ≡ got
      → IsLater (remaining got) events
  left_after xid types events got e =
      subst (λ g. IsLater (remaining g) events) e (recv_matching-IsLater xid types events)

  module _ (r : DhcpReply) (left : ℕ) (events : List Event)
      (rec : (rest : List Event) → Goal r rest (attempts mac xids can_send left rest)) where
    abbrev next : List Event → Trace
    next = attempts mac xids can_send left

    abbrev xid : ℕ
    xid = xids left

    answer-IsAcked :
        (offer : DhcpReply) (mid : List Event) (got : Received)
        → Arrives xid (2 ∷ []) offer mid events
        → IsLater mid events
        → recv_matching xid (5 ∷ 6 ∷ []) mid ≡ got
        → Goal r events
            (sending (request xid mac offer.your_ip offer.server_id false) (on_answer got next))
    answer-IsAcked offer mid (failed rest) o k e h =
        widen _ (IsLater-trans (left_after xid (5 ∷ 6 ∷ []) mid _ e) k) (rec rest h)
    answer-IsAcked offer mid (expired rest) o k e h =
        widen _ (IsLater-trans (left_after xid (5 ∷ 6 ∷ []) mid _ e) k) (rec rest h)
    answer-IsAcked offer mid (reply q rest) o k e h = go (q.msg_type == 5) refl h
      where
        go :
            (b : Bool)
            → (q.msg_type == 5) ≡ b
            → Goal r events (
                sending
                  (request xid mac offer.your_ip offer.server_id false)
                  (if b then stop (acked q) else next rest))
        go false f h = widen _ (IsLater-trans (left_after xid (5 ∷ 6 ∷ []) mid _ e) k) (rec rest h)
        go true f h =
            let agree : q ≡ r = cc in
            record {
              attempt = left;
              offer = offer;
              from = events;
              mid = mid;
              rest = rest;
              later_on = same;
              offered = o;
              answered = recv_matching-Arrives xid (5 ∷ 6 ∷ []) r rest mid (rw agree at e);
              is_ack = rw agree at ((==_iff q.msg_type 5).0 f);
              asked = Memᴰ.head refl;
            }

    offer-IsAcked :
        (p : DhcpPacket) (got : Received)
        → recv_matching xid (2 ∷ []) events ≡ got
        → Goal r events (sending p (on_offer mac xids can_send xid got next))
    offer-IsAcked p (failed rest) e h = widen p (left_after xid (2 ∷ []) events _ e) (rec rest h)
    offer-IsAcked p (expired rest) e h = widen p (left_after xid (2 ∷ []) events _ e) (rec rest h)
    offer-IsAcked p (reply offer mid) e h =
        go (can_send (request xid mac offer.your_ip offer.server_id false)) h
      where
        go :
            (b : Bool)
            → Goal r events (
                sending p (
                  if b
                  then sending
                      (request xid mac offer.your_ip offer.server_id false)
                      (on_answer (recv_matching xid (5 ∷ 6 ∷ []) mid) next)
                  else stop send_failed))
        go false h = cc
        go true h = widen p same (
            answer-IsAcked offer mid (recv_matching xid (5 ∷ 6 ∷ []) mid)
              (recv_matching-Arrives xid (2 ∷ []) offer mid events e)
              (left_after xid (2 ∷ []) events _ e) refl h)

  attempts-IsAcked :
      (r : DhcpReply) (left : ℕ) (events : List Event)
      → Goal r events (attempts mac xids can_send left events)
  unfolding attempts
  attempts-IsAcked r zero events h = cc
  attempts-IsAcked r (suc left) events h =
      go (attempts-IsAcked r left) (can_send (discover (xids left) mac)) h
    where
      go :
          ((rest : List Event) → Goal r rest (attempts mac xids can_send left rest))
          → (b : Bool)
          → Goal r events (
              if b
              then sending (discover (xids left) mac) (
                  on_offer mac xids can_send
                    (xids left)
                    (recv_matching (xids left) (2 ∷ []) events)
                    (attempts mac xids can_send left))
              else stop send_failed)
      go rec false h = cc
      go rec true h =
          offer-IsAcked r left events rec (discover (xids left) mac)
            (recv_matching (xids left) (2 ∷ []) events) refl h

  -- If the exchange ends with a reply, then in one attempt an OFFER of the attempt's transaction
  -- came in, a REQUEST for its address was sent to its server, and after the OFFER the reply came
  -- in, an ACK of the same transaction.
  pub do_discover_request-IsAcked :
      (r : DhcpReply) (events : List Event)
      → (do_discover_request mac xids can_send events).ending ≡ acked r
      → IsAcked r (do_discover_request mac xids can_send events).sent events
  unfolding do_discover_request
  do_discover_request-IsAcked r events h = attempts-IsAcked r 3 events h
