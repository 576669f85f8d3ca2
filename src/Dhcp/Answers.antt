-- ===== src/Dhcp/Answers.antt =====
-- dhcp.rs: a server that answers is heard, and the exchange sends six messages at most.
use quantra_system.Base.{
  ℕ, zero, suc, ◌+◌, ◌*◌, ◌≤◌, ◌≡◌, refl, ◌∙◌, Bool, true, false, Option, none, some, List, [], ◌∷◌,
  ◌++◌, map, ◌==◌, ==_iff, length, All, arith,
}
use quantra_system.Dhcp.Packet.{Mac, DhcpPacket, discover, request}
use quantra_system.Dhcp.Reply.{DhcpReply, parse_reply}
use quantra_system.Dhcp.Handshake.{
  Event, datagram, Received, reply, failed, expired, wanted, matched, recv_matching, acked, Trace,
  on_answer, on_offer, attempts, do_discover_request,
}

abbrev meets : ℕ → List ℕ → Option DhcpReply → Bool
meets xid types none = false
meets xid types (some r) = wanted xid types r

-- A datagram that is no reply, or none of the types and the transaction.
abbrev pub IsNoise : ℕ → List ℕ → List ℕ → Type 0
IsNoise xid types bytes = meets xid types (parse_reply bytes) ≡ false

module _ (xid : ℕ) (types : List ℕ) where
  matched-noise :
      (found : Option DhcpReply) (events : List Event) (later : Received)
      → meets xid types found ≡ false
      → matched xid types found events later ≡ later
  matched-noise none events later h = refl
  matched-noise (some r) events later h = rw h refl

  recv_matching-noise :
      (noise : List (List ℕ)) (bytes : List ℕ) (r : DhcpReply) (rest : List Event)
      → All (IsNoise xid types) noise
      → parse_reply bytes ≡ some r
      → wanted xid types r ≡ true
      → recv_matching xid types (map datagram noise ++ datagram bytes ∷ rest) ≡ reply r rest
  unfolding recv_matching
  recv_matching-noise [] bytes r rest h e w = rw (e, w) refl
  recv_matching-noise (n ∷ noise) bytes r rest h e w =
      matched-noise (parse_reply n) _ _ h.0 ∙ recv_matching-noise noise bytes r rest h.1 e w

module _ (mac : Mac) (xids : ℕ → ℕ) (can_send : DhcpPacket → Bool) where
  -- Where every send succeeds, the first OFFER of the first transaction and, after it, an ACK of it
  -- end the exchange in its first attempt with the ACK, whatever other datagrams come before the
  -- OFFER, and whatever ones but an ACK or a NAK of the transaction come between the two: it sends
  -- a DISCOVER and the REQUEST for the offered address.
  pub do_discover_request-answers :
      (noise noise' : List (List ℕ)) (offer_bytes ack_bytes : List ℕ) (offer r : DhcpReply)
      → (rest : List Event) → ((p : DhcpPacket) → can_send p ≡ true)
      → All (IsNoise (xids 2) (2 ∷ [])) noise
      → parse_reply offer_bytes ≡ some offer
      → wanted (xids 2) (2 ∷ []) offer ≡ true
      → All (IsNoise (xids 2) (5 ∷ 6 ∷ [])) noise'
      → parse_reply ack_bytes ≡ some r
      → wanted (xids 2) (5 ∷ 6 ∷ []) r ≡ true
      → r.msg_type ≡ 5
      → do_discover_request mac xids can_send (
          map datagram noise
          ++ datagram offer_bytes ∷ (map datagram noise' ++ datagram ack_bytes ∷ rest))
        ≡ record {
          sent =
              discover (xids 2) mac ∷ request (xids 2) mac offer.your_ip offer.server_id false ∷ [];
          ending = acked r;
        }
  unfolding do_discover_request attempts
  do_discover_request-answers noise noise' offer_bytes ack_bytes offer r rest can n e w n' e' w' a =
      let heard =
        recv_matching-noise (xids 2) (2 ∷ []) noise offer_bytes offer
          (map datagram noise' ++ datagram ack_bytes ∷ rest) n e w in
      let answered = recv_matching-noise (xids 2) (5 ∷ 6 ∷ []) noise' ack_bytes r rest n' e' w' in
      let is_ack : (r.msg_type == 5) ≡ true = (==_iff r.msg_type 5).1 a in
      rw
        (
          can (discover (xids 2) mac),
          heard,
          can (request (xids 2) mac offer.your_ip offer.server_id false),
          answered,
          is_ack,
        )
        refl

  -- The messages of an attempt and of those after it.
  abbrev count : Trace → ℕ
  count t = length t.sent

  answer-count :
      (next : List Event → Trace) (n : ℕ) (got : Received)
      → ((rest : List Event) → count (next rest) ≤ n)
      → count (on_answer got next) ≤ n
  answer-count next n (reply r rest) h = ground (arith, h rest)
  answer-count next n (failed rest) h = h rest
  answer-count next n (expired rest) h = h rest

  offer-count :
      (next : List Event → Trace) (n xid : ℕ) (got : Received)
      → ((rest : List Event) → count (next rest) ≤ n)
      → count (on_offer mac xids can_send xid got next) ≤ n + 1
  offer-count next n xid (reply offer rest) h =
      ground (arith, answer-count next n (recv_matching xid (5 ∷ 6 ∷ []) rest) h)
  offer-count next n xid (failed rest) h = omega (arith, h rest)
  offer-count next n xid (expired rest) h = omega (arith, h rest)

  attempts-count :
      (left : ℕ) (events : List Event) → count (attempts mac xids can_send left events) ≤ left * 2
  unfolding attempts
  attempts-count zero events = omega arith
  attempts-count (suc left) events = ground (
    arith,
    offer-count (attempts mac xids can_send left) (left * 2) (xids left)
        (recv_matching (xids left) (2 ∷ []) events) (attempts-count left),
  )

  -- Whatever comes in, the exchange sends six messages at most.
  pub do_discover_request-count :
      (events : List Event) → length (do_discover_request mac xids can_send events).sent ≤ 6
  unfolding do_discover_request
  do_discover_request-count events = omega (arith, attempts-count 3 events)
