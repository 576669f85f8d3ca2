-- ===== src/Dhcp/Lease/Store.antt =====
-- dhcp.rs: what the operations do to the leases.
use Prim.Native.String.{String}
use text.Mathlib.TextEquality.{eq_iff}
use quantra_system.Base.{
  ℕ, ◌≡◌, ◌≢◌, refl, ap, ◌∙◌, Bool, true, ◌&&◌, Option, none, some, List, [], ◌∷◌, arith,
  Bool-cases, ◌⊎◌, inl, inr,
}
use quantra_system.Base.Assoc.{string_eq, get, get-remove, beq_refl}
use quantra_system.Dhcp.Packet.{Mac, request, release}
use quantra_system.Dhcp.Reply.{DhcpReply}
use quantra_system.Dhcp.Handshake.{
  Event, Received, reply, failed, expired, recv_matching, Ending, acked, send_failed, exhausted,
  do_discover_request,
}
use quantra_system.Dhcp.Lease.{
  ActiveLease, Leases, store_lease, System, leased, nothing_to_do, error, Done, applied, with_mac,
  fresh_lease, spawn_for, spawning, dhcp_acquire, renewed, renewing, dhcp_renew, releasing,
  dhcp_release,
}

-- What an operation on an interface may do: with a lease it stores that lease; without one, and on
-- an error, the leases stay as they were.
pub data IsStored (iface : String) (before : Leases) : Done → Type 0 where
  kept :
      (spawned : Option ℕ)
      → IsStored iface before (record { answer = error; leases = before; spawned = spawned })
  stored :
      (ack : DhcpReply) (mac : Mac) (spawned : Option ℕ)
      → IsStored iface before (record {
        answer = leased ack;
        leases = store_lease iface ack mac before;
        spawned = spawned;
      })

-- Either the interface has no lease any more and the others keep theirs, or it failed and the leases
-- are as they were.
abbrev pub IsReleased : String → Leases → Done → Type 0
IsReleased iface before d =
    (d.answer ≡ nothing_to_do)
      × (get iface d.leases ≡ none)
      × ((other : String) → other ≢ iface → get other d.leases ≡ get other before)
    ⊎ (d.answer ≡ error) × (d.leases ≡ before)

module _ (sys : System) (iface : String) (before : Leases) where
  applied-IsStored :
      (mac : Mac) (e : Ending) → IsStored iface before (applied sys iface mac before e)
  applied-IsStored mac send_failed = kept none
  applied-IsStored mac exhausted = kept none
  applied-IsStored mac (acked ack) = elim (Bool-cases (sys.applies ack)) [
    | inl taken ↦ rw taken (stored ack mac none)
    | inr refused ↦ rw refused (kept none)
  ]

  with_mac-IsStored :
      (events : List Event) (mac : Option Mac)
      → IsStored iface before (with_mac sys iface events before mac)
  with_mac-IsStored events none = kept none
  with_mac-IsStored events (some mac) = elim (Bool-cases sys.opens) [
    | inl open_ ↦
        rw open_
          (applied-IsStored mac (do_discover_request mac sys.xids sys.can_send events).ending)
    | inr shut ↦ rw shut (kept none)
  ]

  spawning-IsStored : (d : Done) → IsStored iface before d → IsStored iface before (spawning d)
  spawning-IsStored d (kept s) = kept none
  spawning-IsStored d (stored ack mac s) = stored ack mac (some ack.lease_secs)

  renewed-IsStored :
      (l : ActiveLease) (got : Received) → IsStored iface before (renewed sys iface l before got)
  unfolding fresh_lease
  renewed-IsStored l (reply ack rest) = stored ack l.mac none
  renewed-IsStored l (failed rest) = kept none
  renewed-IsStored l (expired rest) = with_mac-IsStored rest sys.get_mac

  renewing-IsStored : (l : Option ActiveLease) → IsStored iface before (renewing sys iface before l)
  unfolding dhcp_acquire fresh_lease
  renewing-IsStored none = spawning-IsStored _ (with_mac-IsStored sys.events sys.get_mac)
  renewing-IsStored (some l) =
      let sent : Bool =
        sys.opens && sys.can_send (request sys.renew_xid l.mac l.your_ip l.server_id true) in
      elim (Bool-cases sent) [
        | inl out ↦ rw out (renewed-IsStored l (recv_matching sys.renew_xid (5 ∷ []) sys.events))
        | inr stuck ↦ rw stuck (kept none)
      ]

  -- Acquiring and renewing a lease on an interface either fail and leave the leases as they were,
  -- or answer with an ACK whose lease they store for the interface.
  pub dhcp_renew-IsStored :
      IsStored iface before (dhcp_acquire sys iface before)
      × IsStored iface before (dhcp_renew sys iface before)
  unfolding dhcp_acquire fresh_lease dhcp_renew
  dhcp_renew-IsStored = (
    spawning-IsStored _ (with_mac-IsStored sys.events sys.get_mac),
    renewing-IsStored (get iface before),
  )

  applied-spawned : (mac : Mac) (e : Ending) → (applied sys iface mac before e).spawned ≡ none
  applied-spawned mac send_failed = refl
  applied-spawned mac exhausted = refl
  applied-spawned mac (acked ack) = ground arith

  with_mac-spawned :
      (events : List Event) (mac : Option Mac)
      → (with_mac sys iface events before mac).spawned ≡ none
  with_mac-spawned events none = refl
  with_mac-spawned events (some mac) =
      ground
        (arith, applied-spawned mac (do_discover_request mac sys.xids sys.can_send events).ending)

  renewed-spawned :
      (l : ActiveLease) (got : Received) → (renewed sys iface l before got).spawned ≡ none
  unfolding fresh_lease
  renewed-spawned l (reply ack rest) = refl
  renewed-spawned l (failed rest) = refl
  renewed-spawned l (expired rest) = with_mac-spawned rest sys.get_mac

  -- Acquiring a lease spawns a renewal task for the time of the lease that it answers with, and
  -- none on a failure; renewing a lease that is held spawns none, whatever comes of it.
  pub dhcp_renew-spawned :
      ((dhcp_acquire sys iface before).spawned ≡ spawn_for (dhcp_acquire sys iface before).answer)
      × ((l : ActiveLease)
          → get iface before ≡ some l
          → (dhcp_renew sys iface before).spawned ≡ none)
  unfolding dhcp_renew dhcp_acquire
  dhcp_renew-spawned = (
    refl,
    λ l held.
        ap (λ o. (renewing sys iface before o).spawned) held
        ∙ ground (arith, renewed-spawned l (recv_matching sys.renew_xid (5 ∷ []) sys.events)),
  )

  releasing-leases :
      (l : Option ActiveLease)
      → get iface before ≡ l
      → IsReleased iface before (releasing sys iface before l)
  releasing-leases none e = inl (refl, e, λ other apart. refl)
  releasing-leases (some l) e =
      let sent : Bool =
        sys.opens && sys.can_send (release sys.renew_xid l.mac l.your_ip l.server_id) in
      elim (Bool-cases sent) [
        | inr stuck ↦ rw stuck (inr (refl, refl))
        | inl out ↦ rw out (
            inl (
              refl,
              ground (arith, get-remove iface iface before, beq_refl iface),
              λ other apart.
                  ground (arith, get-remove other iface before, eq_iff iface other, apart),
            ))
      ]

  -- After a release that does not fail the interface has no lease and the other interfaces have
  -- theirs; a release that fails leaves the leases as they were.
  pub dhcp_release-leases : IsReleased iface before (dhcp_release sys iface before)
  unfolding dhcp_release
  dhcp_release-leases = releasing-leases (get iface before) refl
