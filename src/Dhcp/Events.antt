-- ===== src/Dhcp/Events.antt =====
-- dhcp.rs: which datagram the receive loops take.
use quantra_system.Base.{
  ℕ, ◌≡◌, refl, inl, inr, true, Option, none, some, List, [], ◌∷◌, Bool-cases,
}
use quantra_system.Dhcp.Reply.{DhcpReply, parse_reply}
use quantra_system.Dhcp.Handshake.{
  Event, datagram, failure, expiry, Received, reply, failed, expired, wanted, matched,
  recv_matching,
}

-- A datagram of the events, with those after it, that parses to a reply of the transaction.
pub data Arrives (xid : ℕ) (types : List ℕ) (r : DhcpReply) (rest : List Event)
    : List Event → Type 0 where
  now :
      {bytes : List ℕ}
      → parse_reply bytes ≡ some r
      → wanted xid types r ≡ true
      → Arrives xid types r rest (datagram bytes ∷ rest)
  later :
      {bytes : List ℕ} {events : List Event}
      → Arrives xid types r rest events
      → Arrives xid types r rest (datagram bytes ∷ events)

module _ (xid : ℕ) (types : List ℕ) (r : DhcpReply) (rest : List Event) where
  matched-Arrives :
      (bytes : List ℕ) (events : List Event) (found : Option DhcpReply)
      → parse_reply bytes ≡ found
      → (recv_matching xid types events ≡ reply r rest → Arrives xid types r rest events)
      → matched xid types found events (recv_matching xid types events) ≡ reply r rest
      → Arrives xid types r rest (datagram bytes ∷ events)
  matched-Arrives bytes events none e rec h = later (rec h)
  matched-Arrives bytes events (some q) e rec h = elim (Bool-cases (wanted xid types q)) [
    | inr misses ↦ later (rec (rw misses at h))
    | inl fits ↦
        let taken : reply q events ≡ reply r rest = rw fits at h in
        let same : q ≡ r = cc in
        let after : events ≡ rest = cc in rw after (now (rw same at e) (rw same at fits))
  ]

  pub recv_matching-Arrives :
      (events : List Event)
      → recv_matching xid types events ≡ reply r rest
      → Arrives xid types r rest events
  unfolding recv_matching
  recv_matching-Arrives [] h = cc
  recv_matching-Arrives (datagram bytes ∷ events) h =
      matched-Arrives bytes events (parse_reply bytes) refl (recv_matching-Arrives events) h
  recv_matching-Arrives (failure ∷ events) h = cc
  recv_matching-Arrives (expiry ∷ events) h = cc

-- One sequence of events is the other from some event on.
pub data IsLater (rest : List Event) : List Event → Type 0 where
  same : IsLater rest rest
  after : {e : Event} {events : List Event} → IsLater rest events → IsLater rest (e ∷ events)

pub IsLater-trans : {a b c : List Event} → IsLater a b → IsLater b c → IsLater a c
IsLater-trans h same = h
IsLater-trans h (after k) = after (IsLater-trans h k)

abbrev pub remaining : Received → List Event
remaining (reply r rest) = rest
remaining (failed rest) = rest
remaining (expired rest) = rest

module _ (xid : ℕ) (types : List ℕ) where
  matched-IsLater :
      (bytes : List ℕ) (events : List Event) (found : Option DhcpReply)
      → IsLater (remaining (recv_matching xid types events)) events
      → IsLater
          (remaining (matched xid types found events (recv_matching xid types events)))
          (datagram bytes ∷ events)
  matched-IsLater bytes events none h = after h
  matched-IsLater bytes events (some q) h = elim (Bool-cases (wanted xid types q)) [
    | inl fits ↦ rw fits (after same)
    | inr misses ↦ rw misses (after h)
  ]

  pub recv_matching-IsLater :
      (events : List Event) → IsLater (remaining (recv_matching xid types events)) events
  unfolding recv_matching
  recv_matching-IsLater [] = same
  recv_matching-IsLater (datagram bytes ∷ events) =
      matched-IsLater bytes events (parse_reply bytes) (recv_matching-IsLater events)
  recv_matching-IsLater (failure ∷ events) = after same
  recv_matching-IsLater (expiry ∷ events) = after same
