-- ===== src/Dhcp/Lease.antt =====
-- dhcp.rs: the leases that are kept, and the operations that acquire, renew and release them.
pub mod Store
pub mod Times
use Prim.Native.String.{String}
use quantra_system.Base.{
  ℕ, zero, suc, ◌+◌, ◌*◌, ◌/◌, ◌%◌, Bool, true, false, not, ◌&&◌, Option, none, some, List, [], ◌∷◌,
  if◌then◌else◌, max, ltb,
}
use quantra_system.Base.Assoc.{string_eq, get, insert, remove}
use quantra_system.Dhcp.Packet.{Ip, Mac, DhcpPacket, request, release, from_be_bytes}
use quantra_system.Dhcp.Reply.{DhcpReply}
use quantra_system.Dhcp.Handshake.{
  Event, Received, reply, failed, expired, recv_matching, Ending, acked, send_failed, exhausted,
  do_discover_request,
}
use quantra_system.Timer.Calendar.{Overflow, checked, wrapping}

pub record ActiveLease : Type 0 where
  pub your_ip : Ip
  pub server_id : Ip
  pub lease_secs : ℕ
  pub mac : Mac

abbrev pub Leases : Type 0
Leases = List (String × ActiveLease)

abbrev pub lease_of : DhcpReply → Mac → ActiveLease
lease_of ack mac = record {
  your_ip = ack.your_ip;
  server_id = ack.server_id;
  lease_secs = ack.lease_secs;
  mac = mac;
}

pub store_lease : String → DhcpReply → Mac → Leases → Leases
store_lease iface ack mac leases = insert iface (lease_of ack mac) leases

-- What the system answers an operation with: the hardware address of the interface, whether a
-- socket opens, whether the kernel takes a lease, which messages can be sent, the numbers that
-- `make_xid` draws, and what comes in on the socket.
pub record System : Type 0 where
  pub get_mac : Option Mac
  pub opens : Bool
  pub applies : DhcpReply → Bool
  pub can_send : DhcpPacket → Bool
  pub xids : ℕ → ℕ
  pub renew_xid : ℕ
  pub events : List Event

-- How an operation ends: the ACK it went by, if any, the leases then, and the lease time for which
-- it spawned a renewal task, if it did.
pub data Answer : Type 0 where
  leased : (ack : DhcpReply) → Answer
  nothing_to_do error : Answer

pub record Done : Type 0 where
  pub answer : Answer
  pub leases : Leases
  pub spawned : Option ℕ

abbrev pub fails : Leases → Done
fails leases = record { answer = error; leases = leases; spawned = none }

abbrev pub applied : System → String → Mac → Leases → Ending → Done
applied sys iface mac leases send_failed = fails leases
applied sys iface mac leases exhausted = fails leases
applied sys iface mac leases (acked ack) =
    if sys.applies ack
    then record { answer = leased ack; leases = store_lease iface ack mac leases; spawned = none }
    else fails leases

-- The address is read, a socket opened, the exchange made, and its lease applied and stored.
abbrev pub with_mac : System → String → List Event → Leases → Option Mac → Done
with_mac sys iface events leases none = fails leases
with_mac sys iface events leases (some mac) =
    if sys.opens
    then applied sys iface mac leases (do_discover_request mac sys.xids sys.can_send events).ending
    else fails leases

pub fresh_lease : System → String → List Event → Leases → Done
fresh_lease sys iface events leases = with_mac sys iface events leases sys.get_mac

abbrev pub spawn_for : Answer → Option ℕ
spawn_for (leased ack) = some ack.lease_secs
spawn_for nothing_to_do = none
spawn_for error = none

abbrev pub spawning : Done → Done
spawning d = record d { spawned = spawn_for d.answer }

pub dhcp_acquire : System → String → Leases → Done
dhcp_acquire sys iface leases = spawning (fresh_lease sys iface sys.events leases)

abbrev pub renewed : System → String → ActiveLease → Leases → Received → Done
renewed sys iface l leases (reply ack rest) = record {
  answer = leased ack;
  leases = store_lease iface ack l.mac leases;
  spawned = none;
}
renewed sys iface l leases (failed rest) = fails leases
renewed sys iface l leases (expired rest) = fresh_lease sys iface rest leases

abbrev pub renewing : System → String → Leases → Option ActiveLease → Done
renewing sys iface leases none = dhcp_acquire sys iface leases
renewing sys iface leases (some l) =
    if sys.opens && sys.can_send (request sys.renew_xid l.mac l.your_ip l.server_id true)
    then renewed sys iface l leases (recv_matching sys.renew_xid (5 ∷ []) sys.events)
    else fails leases

pub dhcp_renew : System → String → Leases → Done
dhcp_renew sys iface leases = renewing sys iface leases (get iface leases)

abbrev pub releasing : System → String → Leases → Option ActiveLease → Done
releasing sys iface leases none = record { answer = nothing_to_do; leases = leases; spawned = none }
releasing sys iface leases (some l) =
    if sys.opens && sys.can_send (release sys.renew_xid l.mac l.your_ip l.server_id)
    then record { answer = nothing_to_do; leases = remove iface leases; spawned = none }
    else fails leases

pub dhcp_release : System → String → Leases → Done
dhcp_release sys iface leases = releasing sys iface leases (get iface leases)

-- `u32::count_ones`, and the prefix length of a mask.
pub count_ones : ℕ → ℕ → ℕ
count_ones zero n = 0
count_ones (suc bits) n = n % 2 + count_ones bits (n / 2)

pub mask_to_prefix : Ip → ℕ
mask_to_prefix mask = count_ones 32 (from_be_bytes mask.a mask.b mask.c mask.d)

-- `lease_secs * 7 / 8` in 32 bits, where a product that does not fit wraps or panics.
abbrev pub seven_eighths : Overflow → ℕ → Option ℕ
seven_eighths checked lease = if ltb (lease * 7) 4294967296 then some (lease * 7 / 8) else none
seven_eighths wrapping lease = some (lease * 7 % 4294967296 / 8)

abbrev pub with_rebind : ℕ → Option ℕ → Option (ℕ × ℕ)
with_rebind t1 none = none
with_rebind t1 (some t2) = some (t1, max t2 60)

-- The times T1 and T2 of `renewal_loop`.
pub renewal_times : Overflow → ℕ → Option (ℕ × ℕ)
renewal_times mode lease = with_rebind (max (lease / 2) 30) (seven_eighths mode lease)
