-- ===== src/Dhcp6/Events.antt =====
-- ipv6.rs: which datagram the receive loop takes.
use quantra_system.Base.{
  ℕ, ◌≡◌, refl, ap, ◌∙◌, true, Option, none, some, List, [], ◌∷◌, ◌==◌, ==_iff, inl, inr,
  Bool-cases, arith,
}
use quantra_system.Dhcp.Handshake.{Event, datagram, failure, expiry}
use quantra_system.Dhcp.Events.{IsLater, same, after}
use quantra_system.Dhcp6.Packet.{Xid}
use quantra_system.Dhcp6.Reply.{Dhcp6Reply, parse_dhcp6_reply}
use quantra_system.Dhcp6.Handshake.{
  Received, got, broken, silent, xid_eq, wanted, matched, recv_dhcp6_matching,
}

-- A datagram of the events, with those after it, that parses to a message of the transaction and of
-- the type.
pub data Arrives (xid : Xid) (expected : ℕ) (r : Dhcp6Reply) (rest : List Event)
    : List Event → Type 0 where
  now :
      {bytes : List ℕ}
      → parse_dhcp6_reply bytes ≡ some r
      → r.xid ≡ xid
      → r.msg_type ≡ expected
      → Arrives xid expected r rest (datagram bytes ∷ rest)
  later :
      {bytes : List ℕ} {events : List Event}
      → Arrives xid expected r rest events
      → Arrives xid expected r rest (datagram bytes ∷ events)

xid_eq_sound : (a b : Xid) → xid_eq a b ≡ true → a ≡ b
xid_eq_sound a b h =
    let e0 : a.x0 ≡ b.x0 = ground arith in
    let e1 : a.x1 ≡ b.x1 = ground arith in
    let e2 : a.x2 ≡ b.x2 = ground arith in
    ap (λ n. record { x0 = n; x1 = a.x1; x2 = a.x2 }) e0
    ∙ ap (λ n. record { x0 = b.x0; x1 = n; x2 = a.x2 }) e1
    ∙ ap (λ n. record { x0 = b.x0; x1 = b.x1; x2 = n }) e2

module _ (xid : Xid) (expected : ℕ) (r : Dhcp6Reply) (rest : List Event) where
  taken :
      (bytes : List ℕ) (events : List Event) (q : Dhcp6Reply)
      → parse_dhcp6_reply bytes ≡ some q
      → wanted xid expected q ≡ true
      → got q events ≡ got r rest
      → Arrives xid expected r rest (datagram bytes ∷ events)
  taken bytes events q e fits h =
      let agree : q ≡ r = cc in
      let end : events ≡ rest = cc in
      let fits' : wanted xid expected r ≡ true = rw agree at fits in
      let here : xid_eq r.xid xid ≡ true = ground (arith, fits') in
      let kind : (r.msg_type == expected) ≡ true = ground (arith, fits') in
      rw end
        (now (rw agree at e) (xid_eq_sound r.xid xid here) ((==_iff r.msg_type expected).0 kind))

  matched-Arrives :
      (bytes : List ℕ) (events : List Event) (found : Option Dhcp6Reply)
      → parse_dhcp6_reply bytes ≡ found
      → (recv_dhcp6_matching xid expected events ≡ got r rest → Arrives xid expected r rest events)
      → matched xid expected found events (recv_dhcp6_matching xid expected events) ≡ got r rest
      → Arrives xid expected r rest (datagram bytes ∷ events)
  matched-Arrives bytes events none e rec h = later (rec h)
  matched-Arrives bytes events (some q) e rec h = elim (Bool-cases (wanted xid expected q)) [
    | inr misses ↦ later (rec (rw misses at h))
    | inl fits ↦ taken bytes events q e fits (rw fits at h)
  ]

  pub recv_dhcp6_matching-Arrives :
      (events : List Event)
      → recv_dhcp6_matching xid expected events ≡ got r rest
      → Arrives xid expected r rest events
  unfolding recv_dhcp6_matching
  recv_dhcp6_matching-Arrives [] h = cc
  recv_dhcp6_matching-Arrives (datagram bytes ∷ events) h =
      matched-Arrives bytes events (parse_dhcp6_reply bytes) refl
        (recv_dhcp6_matching-Arrives events) h
  recv_dhcp6_matching-Arrives (failure ∷ events) h = cc
  recv_dhcp6_matching-Arrives (expiry ∷ events) h = cc

abbrev pub remaining : Received → List Event
remaining (got r rest) = rest
remaining (broken rest) = rest
remaining (silent rest) = rest

module _ (xid : Xid) (expected : ℕ) where
  matched-IsLater :
      (bytes : List ℕ) (events : List Event) (found : Option Dhcp6Reply)
      → IsLater (remaining (recv_dhcp6_matching xid expected events)) events
      → IsLater
          (remaining (matched xid expected found events (recv_dhcp6_matching xid expected events)))
          (datagram bytes ∷ events)
  matched-IsLater bytes events none h = after h
  matched-IsLater bytes events (some q) h = elim (Bool-cases (wanted xid expected q)) [
    | inl fits ↦ rw fits (after same)
    | inr misses ↦ rw misses (after h)
  ]

  pub recv_dhcp6_matching-IsLater :
      (events : List Event) → IsLater (remaining (recv_dhcp6_matching xid expected events)) events
  unfolding recv_dhcp6_matching
  recv_dhcp6_matching-IsLater [] = same
  recv_dhcp6_matching-IsLater (datagram bytes ∷ events) =
      matched-IsLater bytes events (parse_dhcp6_reply bytes) (recv_dhcp6_matching-IsLater events)
  recv_dhcp6_matching-IsLater (failure ∷ events) = after same
  recv_dhcp6_matching-IsLater (expiry ∷ events) = after same
