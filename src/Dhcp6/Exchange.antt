-- ===== src/Dhcp6/Exchange.antt =====
-- ipv6.rs: what the exchange with a server ends with, what came in and what was sent.
use quantra_system.Base.{
  ℕ, zero, suc, ◌≡◌, refl, subst, Bool, List, ◌∷◌, ◌==◌, ==_iff, inl, inr, Bool-cases,
}
use mathlib.Core.List.{Memᴰ}
use quantra_system.Dhcp.Packet.{Mac}
use quantra_system.Dhcp.Handshake.{Event}
use quantra_system.Dhcp.Events.{IsLater, same, IsLater-trans}
use quantra_system.Dhcp6.Packet.{Xid, Dhcp6Packet, iaid_from_mac, solicit}
use quantra_system.Dhcp6.Reply.{Dhcp6Reply}
use quantra_system.Dhcp6.Handshake.{
  Received, got, broken, silent, recv_dhcp6_matching, Trace, granted, send_failed, sending, stop,
  on_reply, asking, on_advertise, attempts, do_dhcp6_handshake,
}
use quantra_system.Dhcp6.Events.{
  Arrives, remaining, recv_dhcp6_matching-Arrives, recv_dhcp6_matching-IsLater,
}

module _ (mac : Mac) (xids req_xids : ℕ → Xid) (can_send : Dhcp6Packet → Bool) where
  abbrev soliciting : ℕ → Dhcp6Packet
  soliciting attempt = solicit mac (xids attempt) (iaid_from_mac mac)

  -- What a reply that ends the exchange answers: in one attempt a SOLICIT was sent, an ADVERTISE of
  -- its transaction came in, with status success; a REQUEST to its server was sent; and after the
  -- ADVERTISE a REPLY of the REQUEST's transaction came in, with status success.
  pub record IsGranted (r : Dhcp6Reply) (sent : List Dhcp6Packet) (events : List Event)
      : Type 0 where
    pub attempt : ℕ
    pub advertise : Dhcp6Reply
    pub from : List Event
    pub mid : List Event
    pub rest : List Event
    pub later_on : IsLater from events
    pub solicited : Memᴰ (soliciting attempt) sent
    pub advertised : Arrives (xids attempt) 2 advertise mid from
    pub advertise_ok : advertise.status_code ≡ 0
    pub asked : Memᴰ (asking mac (req_xids attempt) advertise) sent
    pub replied : Arrives (req_xids attempt) 7 r rest mid
    pub reply_ok : r.status_code ≡ 0

  abbrev Goal : Dhcp6Reply → List Event → Trace → Type 0
  Goal r events t = t.ending ≡ granted r → IsGranted r t.sent events

  widen :
      {r : Dhcp6Reply} {rest events : List Event} {sent : List Dhcp6Packet} (p : Dhcp6Packet)
      → IsLater rest events
      → IsGranted r sent rest
      → IsGranted r (p ∷ sent) events
  widen p k h = record {
    attempt = h.attempt;
    advertise = h.advertise;
    from = h.from;
    mid = h.mid;
    rest = h.rest;
    later_on = IsLater-trans h.later_on k;
    solicited = Memᴰ.tail h.solicited;
    advertised = h.advertised;
    advertise_ok = h.advertise_ok;
    asked = Memᴰ.tail h.asked;
    replied = h.replied;
    reply_ok = h.reply_ok;
  }

  left_after :
      (xid : Xid) (expected : ℕ) (events : List Event) (received : Received)
      → recv_dhcp6_matching xid expected events ≡ received
      → IsLater (remaining received) events
  left_after xid expected events received e =
      subst (λ g. IsLater (remaining g) events) e (recv_dhcp6_matching-IsLater xid expected events)

  module _ (r : Dhcp6Reply) (left : ℕ) (events : List Event) (next : List Event → Trace)
      (rec : (rest : List Event) → Goal r rest (next rest)) where
    on_reply-IsGranted :
        (adv : Dhcp6Reply) (mid : List Event) (received : Received)
        → Arrives (xids left) 2 adv mid events
        → IsLater mid events
        → adv.status_code ≡ 0
        → recv_dhcp6_matching (req_xids left) 7 mid ≡ received
        → Goal r events (
            sending
              (soliciting left)
              (sending (asking mac (req_xids left) adv) (on_reply received next)))
    on_reply-IsGranted adv mid (broken rest) o k z e h =
        widen _ k (widen _ (left_after (req_xids left) 7 mid _ e) (rec rest h))
    on_reply-IsGranted adv mid (silent rest) o k z e h =
        widen _ k (widen _ (left_after (req_xids left) 7 mid _ e) (rec rest h))
    on_reply-IsGranted adv mid (got q rest) o k z e h = elim (Bool-cases (q.status_code == 0)) [
      | inr refused ↦
          rw refused (
            widen _ k (widen _ (left_after (req_xids left) 7 mid _ e) (rec rest (rw refused at h))))
      | inl ok ↦
          let taken : granted q ≡ granted r = rw ok at h in
          let agree : q ≡ r = cc in
          rw ok record {
            attempt = left;
            advertise = adv;
            from = events;
            mid = mid;
            rest = rest;
            later_on = same;
            solicited = Memᴰ.head refl;
            advertised = o;
            advertise_ok = z;
            asked = Memᴰ.tail (Memᴰ.head refl);
            replied = recv_dhcp6_matching-Arrives (req_xids left) 7 r rest mid (rw agree at e);
            reply_ok = rw agree at ((==_iff q.status_code 0).0 ok);
          }
    ]

    on_advertise-IsGranted :
        (received : Received)
        → recv_dhcp6_matching (xids left) 2 events ≡ received
        → Goal r events (
            sending
              (soliciting left)
              (on_advertise mac xids req_xids can_send (req_xids left) received next))
    on_advertise-IsGranted (broken rest) e h =
        widen _ (left_after (xids left) 2 events _ e) (rec rest h)
    on_advertise-IsGranted (silent rest) e h =
        widen _ (left_after (xids left) 2 events _ e) (rec rest h)
    on_advertise-IsGranted (got adv mid) e h =
        let o = recv_dhcp6_matching-Arrives (xids left) 2 adv mid events e in
        let k = left_after (xids left) 2 events _ e in
        elim (Bool-cases (adv.status_code == 0)) [
          | inr refused ↦ rw refused (widen _ k (rec mid (rw refused at h)))
          | inl ok ↦ elim (Bool-cases (can_send (asking mac (req_xids left) adv))) [
            | inr lost ↦
                let no : Trace.ending (stop send_failed) ≡ granted r = rw (ok, lost) at h in cc
            | inl sent ↦
                rw (ok, sent)
                  (on_reply-IsGranted adv mid _ o k ((==_iff adv.status_code 0).0 ok) refl
                    (rw (ok, sent) at h))
          ]
        ]

  attempts-IsGranted :
      (r : Dhcp6Reply) (left : ℕ) (events : List Event)
      → Goal r events (attempts mac xids req_xids can_send left events)
  unfolding attempts
  attempts-IsGranted r zero events h = cc
  attempts-IsGranted r (suc left) events h =
      elim (Bool-cases (can_send (solicit mac (xids left) (iaid_from_mac mac)))) [
        | inr lost ↦ let no : Trace.ending (stop send_failed) ≡ granted r = rw lost at h in cc
        | inl sent ↦ rw sent (
            on_advertise-IsGranted r left events (attempts mac xids req_xids can_send left)
              (attempts-IsGranted r left) _ refl (rw sent at h))
      ]

  -- If the exchange ends with a reply, then in one attempt a SOLICIT was sent, an ADVERTISE of its
  -- transaction came in, a REQUEST for its address to its server was sent, and after the ADVERTISE
  -- the reply came in, a REPLY of the REQUEST's transaction; both came with status success.
  pub do_dhcp6_handshake-IsGranted :
      (r : Dhcp6Reply) (events : List Event)
      → (do_dhcp6_handshake mac xids req_xids can_send events).ending ≡ granted r
      → IsGranted r (do_dhcp6_handshake mac xids req_xids can_send events).sent events
  unfolding do_dhcp6_handshake
  do_dhcp6_handshake-IsGranted r events h = attempts-IsGranted r 3 events h
