-- ===== src/Dhcp/Samples.antt =====
-- A small exchange with a server, what the client does in it, and the theorems applied to it.
use quantra_system.Base.{ℕ, ◌≡◌, refl, Bool, true, false, none, some, List, [], ◌∷◌, map, arith}
use quantra_system.Base.Assoc.{string_eq}
use quantra_system.Dhcp.Packet
use quantra_system.Dhcp.Packet.{Ip, Mac, DhcpPacket}
use quantra_system.Dhcp.Reply
use quantra_system.Dhcp.Options
use quantra_system.Dhcp.Roundtrip
use quantra_system.Dhcp.Meaning.{Said, message_type, server_id, lease_secs, option_of}
use quantra_system.Dhcp.Requests
use quantra_system.Dhcp.Handshake
use quantra_system.Dhcp.Exchange
use quantra_system.Dhcp.Answers
use quantra_system.Dhcp.Lease

abbrev mac : Mac
mac = record { b0 = 2; b1 = 0; b2 = 0; b3 = 0; b4 = 0; b5 = 1 }

abbrev router : Ip
router = record { a = 192; b = 168; c = 1; d = 1 }

abbrev address : Ip
address = record { a = 192; b = 168; c = 1; d = 20 }

-- A server's message for the transaction, with the address in its header.
abbrev header : DhcpPacket
header = record (Packet.set_header 2 mac (Packet.new 7)) {
  buf = Packet.copy_at 16 (Packet.octets address) (Packet.set_header 2 mac (Packet.new 7)).buf;
}

-- What the server says, in three options.
abbrev says : ℕ → List (Said × List ℕ)
says kind = (message_type kind, []) ∷ (server_id router, []) ∷ (lease_secs 0 0 14 16, []) ∷ []

abbrev options : ℕ → List (ℕ × List ℕ)
options kind = map option_of (says kind)

messages : Unit {0}
unfolding Packet.new Packet.set_header Packet.copy_at Packet.push_opt Packet.finish Packet.pad
    Reply.parse_reply Reply.read_options Reply.apply_option Options.push_all Options.apply_all
    Handshake.do_discover_request Handshake.attempts Handshake.recv_matching Packet.discover
    Packet.request
messages = tt

header-IsReplyHeader : Roundtrip.IsReplyHeader header.buf
unfolding messages
header-IsReplyHeader = record { size = refl; op = refl; cookie = refl }

parse_reply-push_all_example :
    Reply.parse_reply (Packet.finish (Options.push_all (options 2) header)).buf
    ≡ some (record {
      msg_type = 2;
      your_ip = Roundtrip.ip_in header.buf 16;
      server_ip = Roundtrip.ip_in header.buf 20;
      server_id = router;
      subnet_mask = record { a = 255; b = 255; c = 255; d = 0 };
      gateway = none;
      dns = [];
      lease_secs = 3600;
      xid = 7;
    })
unfolding messages
parse_reply-push_all_example =
    Roundtrip.parse_reply-push_all header (says 2) header-IsReplyHeader
      (
        (omega arith, omega arith, omega arith),
        ((omega arith, omega arith, omega arith), ((omega arith, omega arith, omega arith), tt)),
      )
      (tt, (tt, (tt, tt)))

abbrev message : ℕ → List ℕ
message kind = (Packet.finish (Options.push_all (options kind) header)).buf

abbrev heard : ℕ → Reply.DhcpReply
heard kind = record {
  msg_type = kind;
  your_ip = address;
  server_ip = Requests.unset;
  server_id = router;
  subnet_mask = record { a = 255; b = 255; c = 255; d = 0 };
  gateway = none;
  dns = [];
  lease_secs = 3600;
  xid = 7;
}

parse-offer : Reply.parse_reply (message 2) ≡ some (heard 2)
unfolding messages
parse-offer = refl

parse-ack : Reply.parse_reply (message 5) ≡ some (heard 5)
unfolding messages
parse-ack = refl

parse-garbage : Reply.parse_reply (1 ∷ 2 ∷ []) ≡ none
unfolding messages
parse-garbage = refl

abbrev xids : ℕ → ℕ
xids left = 7

abbrev always : DhcpPacket → Bool
always p = true

-- Noise, an offer, noise, an ACK.
abbrev events : List Handshake.Event
events =
    Handshake.datagram (1 ∷ 2 ∷ [])
    ∷ Handshake.datagram (message 2)
    ∷ Handshake.datagram (message 2)
    ∷ Handshake.datagram (message 5)
    ∷ []

events_acked :
    (Handshake.do_discover_request mac xids always events).ending ≡ Handshake.acked (heard 5)
unfolding messages
events_acked = refl

do_discover_request-IsAcked_example :
    Exchange.IsAcked mac xids always
      (heard 5)
      (Handshake.do_discover_request mac xids always events).sent
      events
do_discover_request-IsAcked_example =
    Exchange.do_discover_request-IsAcked mac xids always (heard 5) events events_acked

IsNoise-offer : Answers.IsNoise 7 (2 ∷ []) (1 ∷ 2 ∷ [])
unfolding messages
IsNoise-offer = refl

IsNoise-ack : Answers.IsNoise 7 (5 ∷ 6 ∷ []) (message 2)
unfolding messages
IsNoise-ack = refl

do_discover_request-answers_example :
    Handshake.do_discover_request mac xids always events ≡ record {
      sent = Packet.discover 7 mac ∷ Packet.request 7 mac address router false ∷ [];
      ending = Handshake.acked (heard 5);
    }
do_discover_request-answers_example =
    Answers.do_discover_request-answers mac xids always ((1 ∷ 2 ∷ []) ∷ []) (message 2 ∷ [])
      (message 2) (message 5) (heard 2) (heard 5) [] (λ p. refl) (IsNoise-offer, tt) parse-offer
      refl (IsNoise-ack, tt) parse-ack refl refl

abbrev sys : Lease.System
sys = record {
  get_mac = some mac;
  opens = true;
  applies = λ ack. true;
  can_send = always;
  xids = xids;
  renew_xid = 7;
  events = events;
}

abbrev leases : Lease.Leases
leases = ("eth0", Lease.lease_of (heard 5) mac) ∷ []
