-- ===== src/Dhcp6/Lease/Outcome.antt =====
-- ipv6.rs: how acquiring a lease ends, and what its renewal leaves.
use Prim.Native.String.{String}
use quantra_system.Base.{
  ℕ, ◌≤◌, ◌≡◌, refl, Bool, true, false, Option, none, some, List, if◌then◌else◌, ltb, inl, inr,
  Bool-cases, arith,
}
use quantra_system.Base.Assoc.{string_eq, insert}
use quantra_system.Timer.Calendar.{Overflow, checked, wrapping}
use quantra_system.Dhcp.Packet.{Mac}
use quantra_system.Dhcp6.Reply.{Dhcp6Reply}
use quantra_system.Dhcp6.Handshake.{Ending, granted, send_failed, exhausted, do_dhcp6_handshake}
use quantra_system.Dhcp6.Exchange.{IsGranted, do_dhcp6_handshake-IsGranted}
use quantra_system.Dhcp6.Lease.{
  Leases, System, leased, error, panic, Done, ends, four_fifths, renew_time, rebind_time, lease_of,
  stored, applied, on_ending, exchange, acquire_with, dhcp6_acquire,
}

module _ (mode : Overflow) (sys : System) (iface : String) (leases : Leases) where
  -- The reply that a lease comes from: it ends the exchange for the interface's address, it answers
  -- a REQUEST that was sent, and the system took it.
  pub record IsFrom (r : Dhcp6Reply) : Type 0 where
    pub mac : Mac
    pub is_mac : sys.mac ≡ some mac
    pub is_open : sys.opens ≡ true
    pub is_granted :
        IsGranted mac sys.xids sys.req_xids sys.can_send r
          (do_dhcp6_handshake mac sys.xids sys.req_xids sys.can_send sys.events).sent
          sys.events
    pub is_applied : sys.applies r ≡ true

  pub data Outcome : Done → Type 0 where
    failed : Outcome (ends error leases)
    -- The rebinding time of an address that is preferred for a long time does not fit.
    overflowed :
        (r : Dhcp6Reply)
        → IsFrom r
        → mode ≡ checked
        → r.t2 ≡ 0
        → 1073741824 ≤ r.preferred
        → Outcome (ends panic leases)
    stored_as :
        (r : Dhcp6Reply) (addr : List ℕ) (t2 : ℕ)
        → IsFrom r
        → r.ia_address ≡ some addr
        → rebind_time mode r ≡ some t2
        → Outcome (record {
          answer = leased (lease_of iface addr r t2);
          leases = insert iface (lease_of iface addr r t2) leases;
          spawned = some (renew_time r);
        })

  four_fifths-none :
      (m : Overflow) (n : ℕ) → four_fifths m n ≡ none → (m ≡ checked) × (1073741824 ≤ n)
  four_fifths-none wrapping n h = cc
  four_fifths-none checked n h = (refl, ground (arith, h))

  rebind_time-none :
      (r : Dhcp6Reply)
      → rebind_time mode r ≡ none
      → (mode ≡ checked) × ((r.t2 ≡ 0) × (1073741824 ≤ r.preferred))
  rebind_time-none r h = elim (Bool-cases (ltb 0 r.t2)) [
    | inl given ↦ let no : some r.t2 ≡ none = rw given at h in cc
    | inr missing ↦
        let (m, big) = four_fifths-none mode r.preferred (rw missing at h) in
        (m, (ground (arith, missing), big))
  ]

  stored-Outcome :
      (r : Dhcp6Reply) (addr : List ℕ) (t2 : Option ℕ)
      → IsFrom r
      → r.ia_address ≡ some addr
      → rebind_time mode r ≡ t2
      → Outcome (stored iface addr r leases t2)
  stored-Outcome r addr none f a e =
      let (m, (z, big)) = rebind_time-none r e in overflowed r f m z big
  stored-Outcome r addr (some t2) f a e = stored_as r addr t2 f a e

  module _ (mac : Mac) (is_mac : sys.mac ≡ some mac) (is_open : sys.opens ≡ true) where
    applied-Outcome :
        (r : Dhcp6Reply) (found : Option (List ℕ))
        → exchange sys mac ≡ granted r
        → r.ia_address ≡ found
        → Outcome (applied mode sys iface leases r found)
    applied-Outcome r none g a = failed
    applied-Outcome r (some addr) g a = elim (Bool-cases (sys.applies r)) [
      | inr refused ↦ rw refused failed
      | inl took ↦ rw took (
          stored-Outcome r addr (rebind_time mode r)
            record {
              mac = mac;
              is_mac = is_mac;
              is_open = is_open;
              is_granted =
                  do_dhcp6_handshake-IsGranted mac sys.xids sys.req_xids sys.can_send r sys.events
                    g;
              is_applied = took;
            }
            a refl)
    ]

    on_ending-Outcome :
        (e : Ending) → exchange sys mac ≡ e → Outcome (on_ending mode sys iface leases e)
    on_ending-Outcome send_failed g = failed
    on_ending-Outcome exhausted g = failed
    on_ending-Outcome (granted r) g = applied-Outcome r r.ia_address g refl

  acquire_with-Outcome :
      (found : Option Mac) → sys.mac ≡ found → Outcome (acquire_with mode sys iface leases found)
  acquire_with-Outcome none e = failed
  acquire_with-Outcome (some mac) e = opening sys.opens refl
    where
      opening :
          (b : Bool)
          → sys.opens ≡ b
          → Outcome
              (if b then on_ending mode sys iface leases (exchange sys mac) else ends error leases)
      opening false h = failed
      opening true h = on_ending-Outcome mac e h (exchange sys mac) refl

  -- Acquiring a lease fails and leaves the leases as they were; or, where the arithmetic is checked,
  -- it panics, on a reply without a rebinding time that prefers its address for 2^30 seconds or
  -- more; or it answers with the lease of a reply to a REQUEST that was sent, which it stores, and
  -- spawns a renewal task for the lease's renewal time.
  pub dhcp6_acquire-Outcome : Outcome (dhcp6_acquire mode sys iface leases)
  unfolding dhcp6_acquire
  dhcp6_acquire-Outcome = acquire_with-Outcome sys.mac refl
