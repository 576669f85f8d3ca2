-- ===== src/Dhcp6/Lease.antt =====
-- ipv6.rs: the store of the leases. The system's answers to reading the address, opening the socket
-- and applying a lease are arguments, and a spawned renewal task is a value of the result.
pub mod Outcome
use Prim.Native.String.{String}
use quantra_system.Base.{
  ℕ, ◌*◌, ◌/◌, ◌%◌, max, Bool, true, false, Option, none, some, List, if◌then◌else◌, ltb,
}
use quantra_system.Base.Assoc.{string_eq, get, insert, remove}
use quantra_system.Timer.Calendar.{Overflow, checked, wrapping}
use quantra_system.Dhcp.Packet.{Mac}
use quantra_system.Dhcp.Handshake.{Event}
use quantra_system.Dhcp6.Packet.{Xid, Dhcp6Packet, iaid_from_mac, release}
use quantra_system.Dhcp6.Reply.{Dhcp6Reply}
use quantra_system.Dhcp6.Handshake.{Ending, granted, send_failed, exhausted, do_dhcp6_handshake}

pub record Dhcp6Lease : Type 0 where
  pub interface : String
  pub address : List ℕ
  pub prefix_len : ℕ
  pub preferred : ℕ
  pub valid : ℕ
  pub dns : List (List ℕ)
  pub server_duid : List ℕ
  pub t1 : ℕ
  pub t2 : ℕ

abbrev pub Leases : Type 0
Leases = List (String × Dhcp6Lease)

-- What the system answers an operation with: the hardware address of the interface, whether a
-- socket opens, whether the interface takes an address and the name servers can be written, which
-- messages can be sent, the numbers that `make_xid` draws, and what comes in on the socket.
pub record System : Type 0 where
  pub mac : Option Mac
  pub opens : Bool
  pub applies : Dhcp6Reply → Bool
  pub can_send : Dhcp6Packet → Bool
  pub xids : ℕ → Xid
  pub req_xids : ℕ → Xid
  pub release_xid : Xid
  pub events : List Event

pub data Answer : Type 0 where
  leased : (lease : Dhcp6Lease) → Answer
  released error panic : Answer

pub record Done : Type 0 where
  pub answer : Answer
  pub leases : Leases
  pub spawned : Option ℕ

abbrev pub ends : Answer → Leases → Done
ends a leases = record { answer = a; leases = leases; spawned = none }

-- `preferred * 4 / 5` in 32 bits, where a product that does not fit wraps or panics.
abbrev pub four_fifths : Overflow → ℕ → Option ℕ
four_fifths checked n = if ltb (n * 4) 4294967296 then some (n * 4 / 5) else none
four_fifths wrapping n = some (n * 4 % 4294967296 / 5)

abbrev pub renew_time : Dhcp6Reply → ℕ
renew_time r = if ltb 0 r.t1 then r.t1 else r.preferred / 2

abbrev pub rebind_time : Overflow → Dhcp6Reply → Option ℕ
rebind_time mode r = if ltb 0 r.t2 then some r.t2 else four_fifths mode r.preferred

abbrev pub lease_of : String → List ℕ → Dhcp6Reply → ℕ → Dhcp6Lease
lease_of iface addr r t2 = record {
  interface = iface;
  address = addr;
  prefix_len = r.prefix_len;
  preferred = r.preferred;
  valid = r.valid;
  dns = r.dns;
  server_duid = r.server_duid;
  t1 = renew_time r;
  t2 = t2;
}

abbrev pub stored : String → List ℕ → Dhcp6Reply → Leases → Option ℕ → Done
stored iface addr r leases none = ends panic leases
stored iface addr r leases (some t2) = record {
  answer = leased (lease_of iface addr r t2);
  leases = insert iface (lease_of iface addr r t2) leases;
  spawned = some (renew_time r);
}

-- `apply_dhcp6_lease` fails without an address, before it asks the system.
abbrev pub applied : Overflow → System → String → Leases → Dhcp6Reply → Option (List ℕ) → Done
applied mode sys iface leases r none = ends error leases
applied mode sys iface leases r (some addr) =
    if sys.applies r then stored iface addr r leases (rebind_time mode r) else ends error leases

abbrev pub on_ending : Overflow → System → String → Leases → Ending → Done
on_ending mode sys iface leases send_failed = ends error leases
on_ending mode sys iface leases exhausted = ends error leases
on_ending mode sys iface leases (granted r) = applied mode sys iface leases r r.ia_address

abbrev pub exchange : System → Mac → Ending
exchange sys mac = (do_dhcp6_handshake mac sys.xids sys.req_xids sys.can_send sys.events).ending

abbrev pub acquire_with : Overflow → System → String → Leases → Option Mac → Done
acquire_with mode sys iface leases none = ends error leases
acquire_with mode sys iface leases (some mac) =
    if sys.opens then on_ending mode sys iface leases (exchange sys mac) else ends error leases

unfoldable pub dhcp6_acquire : Overflow → System → String → Leases → Done
dhcp6_acquire mode sys iface leases = acquire_with mode sys iface leases sys.mac

abbrev pub release_with : System → Leases → Dhcp6Lease → Option Mac → Done
release_with sys leases l none = ends error leases
release_with sys leases l (some mac) =
    if sys.opens
    then if sys.can_send (release mac sys.release_xid l.server_duid (iaid_from_mac mac) l.address)
      then ends released leases
      else ends error leases
    else ends error leases

abbrev pub releasing : System → String → Leases → Option Dhcp6Lease → Done
releasing sys iface leases none = ends released leases
releasing sys iface leases (some l) = release_with sys (remove iface leases) l sys.mac

-- The lease is removed first, whatever the system answers then.
unfoldable pub dhcp6_release : System → String → Leases → Done
dhcp6_release sys iface leases = releasing sys iface leases (get iface leases)

-- The seconds that the renewal task sleeps.
abbrev pub renew_at : ℕ → ℕ
renew_at t1 = max t1 30

abbrev pub after_renewal : String → Done → Done
after_renewal iface d = elim d.answer [
  | leased lease ↦ d
  | released ↦ d
  | error ↦ record d { leases = remove iface d.leases }
  | panic ↦ d
]

-- The renewal task after its sleep, over the leases of that time.
unfoldable pub dhcp6_renewal_loop : Overflow → System → String → Leases → Done
dhcp6_renewal_loop mode sys iface leases = after_renewal iface (dhcp6_acquire mode sys iface leases)
