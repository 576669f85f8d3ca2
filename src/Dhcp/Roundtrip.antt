-- ===== src/Dhcp/Roundtrip.antt =====
-- dhcp.rs: the options that `push_opt` writes are the options that the reply parser reads.
use quantra_system.Base.{
  ℕ, zero, suc, ◌+◌, ◌-◌, ◌≤◌, ◌<◌, ◌≡◌, refl, sym, ap, ◌∙◌, true, false, Option, none, some, List,
  [], ◌∷◌, ◌++◌, if◌then◌else◌, ◌==◌, ltb, length, get_or, take, drop, replicate, All, arith,
  length-append, drop-append_length, map, ◌*◌,
}
use mathlib.Core.List.{append_assoc}
use quantra_system.Base.Text.{text_eq}
use quantra_system.Dhcp.Packet.{Ip, DhcpPacket, pad, finish, magic_cookie}
use quantra_system.Dhcp.Reply.{Fields, read_options, start, reply_of, parse_reply, DhcpReply}
use quantra_system.Dhcp.Meaning.{
  Said, IsSaid, option_of, last_of, message_type_of, server_id_of, subnet_mask_of, gateway_of,
  servers_of, lease_secs_of, apply_all-said,
}
use quantra_system.Dhcp.Options.{
  IsOption, push_all, apply_all, encoded, pad-replicate, push_all-encoded, read-encoded,
}

ltb-false : (a b : ℕ) → b ≤ a → ltb a b ≡ false
ltb-false a b le = ground arith

get_or-append : (xs ys : List ℕ) (i : ℕ) → i < length xs → get_or (xs ++ ys) i 0 ≡ get_or xs i 0
get_or-append [] ys i lt = absurd (omega (arith, lt))
get_or-append (x ∷ xs) ys zero lt = refl
get_or-append (x ∷ xs) ys (suc i) lt = get_or-append xs ys i (omega (arith, lt))

take-append : (n : ℕ) (xs ys : List ℕ) → n ≤ length xs → take n (xs ++ ys) ≡ take n xs
take-append zero xs ys le = refl
take-append (suc n) [] ys le = absurd (omega (arith, le))
take-append (suc n) (x ∷ xs) ys le = ap (◌∷◌ x) (take-append n xs ys (omega (arith, le)))

take-drop-append :
    (n i : ℕ) (xs ys : List ℕ) → i + n ≤ length xs → take n (drop i (xs ++ ys)) ≡ take n (drop i xs)
take-drop-append n zero xs ys le = take-append n xs ys (omega (arith, le))
take-drop-append n (suc i) [] ys le = absurd (omega (arith, le))
take-drop-append n (suc i) (x ∷ xs) ys le = take-drop-append n i xs ys (omega (arith, le))

drop-append : (n : ℕ) (xs ys : List ℕ) → length xs ≡ n → drop n (xs ++ ys) ≡ ys
drop-append n xs ys e = ap (λ k. drop k (xs ++ ys)) (sym e) ∙ drop-append_length xs ys

-- The header of a reply: 240 bytes, the first that of a reply and the last four the cookie.
pub record IsReplyHeader (buf : List ℕ) : Type 0 where
  pub size : length buf ≡ 240
  pub op : get_or buf 0 0 ≡ 2
  pub cookie : text_eq (take 4 (drop 236 buf)) magic_cookie ≡ true

abbrev pub answered : List ℕ → Fields → Option DhcpReply
answered buf f = if f.msg_type == 0 then none else some (reply_of buf f)

module _ (buf tail : List ℕ) (h : IsReplyHeader buf) where
  header_at : (i : ℕ) → i < 240 → get_or (buf ++ tail) i 0 ≡ get_or buf i 0
  header_at i lt = get_or-append buf tail i (omega (arith, lt, h.size))

  reply_of-append : (f : Fields) → reply_of (buf ++ tail) f ≡ reply_of buf f
  reply_of-append f =
      rw
        (
          header_at 4 (omega arith),
          header_at 5 (omega arith),
          header_at 6 (omega arith),
          header_at 7 (omega arith),
          header_at 16 (omega arith),
          header_at 17 (omega arith),
          header_at 18 (omega arith),
          header_at 19 (omega arith),
          header_at 20 (omega arith),
          header_at 21 (omega arith),
          header_at 22 (omega arith),
          header_at 23 (omega arith),
        )
        refl

  start-append : start (buf ++ tail) ≡ start buf
  start-append =
      rw
        (
          header_at 20 (omega arith),
          header_at 21 (omega arith),
          header_at 22 (omega arith),
          header_at 23 (omega arith),
        )
        refl

  parse_reply-header :
      parse_reply (buf ++ tail) ≡ answered buf (read_options (240 + length tail) tail (start buf))
  unfolding parse_reply
  parse_reply-header =
      let long : ltb (length (buf ++ tail)) 240 ≡ false =
        ltb-false _ 240 (omega (arith, length-append buf tail, h.size)) in
      let size : length (buf ++ tail) ≡ 240 + length tail =
        omega (arith, length-append buf tail, h.size) in
      let op : (get_or (buf ++ tail) 0 0 == 2) ≡ true =
        ap (λ n. n == 2) (header_at 0 (omega arith) ∙ h.op) in
      let cookie : text_eq (take 4 (drop 236 (buf ++ tail))) magic_cookie ≡ true =
        ap (λ c. text_eq c magic_cookie) (take-drop-append 4 236 buf tail (omega (arith, h.size)))
        ∙ h.cookie in
      rw (long, op, cookie, size, drop-append 240 buf tail h.size, start-append, reply_of-append)
        refl

read_back :
    (p : DhcpPacket) (opts : List (ℕ × List ℕ))
    → IsReplyHeader p.buf
    → All IsOption opts
    → parse_reply (finish (push_all opts p)).buf ≡ answered p.buf (apply_all opts (start p.buf))
unfolding finish
read_back p opts h valid =
    let body : List ℕ = (push_all opts p).buf in
    let zeros : List ℕ = replicate (300 - length (body ++ 255 ∷ [])) 0 in
    let tail : List ℕ = encoded opts ++ 255 ∷ zeros in
    let written : pad 300 (body ++ 255 ∷ []) ≡ p.buf ++ tail =
      pad-replicate 300 (body ++ 255 ∷ []) (omega arith)
      ∙ append_assoc body (255 ∷ []) zeros
      ∙ ap (λ b. b ++ 255 ∷ zeros) (push_all-encoded opts p valid)
      ∙ append_assoc p.buf (encoded opts) (255 ∷ zeros) in
    let enough : length (encoded opts) < 240 + length tail =
      omega (arith, length-append (encoded opts) (255 ∷ zeros)) in
    ap parse_reply written
    ∙ parse_reply-header p.buf tail h
    ∙ ap (answered p.buf) (read-encoded opts zeros (240 + length tail) (start p.buf) valid enough)

abbrev pub ip_in : List ℕ → ℕ → Ip
ip_in buf i = record {
  a = get_or buf i 0;
  b = get_or buf (i + 1) 0;
  c = get_or buf (i + 2) 0;
  d = get_or buf (i + 3) 0;
}

-- A message that starts with the header of a reply and goes on with options that `push_opt` wrote,
-- each of at most 255 bytes and with a code that is no marker: each field of the reply that is
-- parsed is what the last option that says it says, or else a default or the header's server
-- address; the name servers are those of all options in their order; the addresses and the number
-- of the transaction are the header's. It is refused exactly if the last option that says the
-- message type says 0, or none says it.
pub parse_reply-push_all :
    (p : DhcpPacket) (os : List (Said × List ℕ))
    → IsReplyHeader p.buf
    → All IsOption (map option_of os)
    → All IsSaid os
    → parse_reply (finish (push_all (map option_of os) p)).buf ≡ (
        if last_of message_type_of 0 os == 0
        then none
        else some (record {
          msg_type = last_of message_type_of 0 os;
          your_ip = ip_in p.buf 16;
          server_ip = ip_in p.buf 20;
          server_id = last_of server_id_of (ip_in p.buf 20) os;
          subnet_mask = last_of subnet_mask_of (record { a = 255; b = 255; c = 255; d = 0 }) os;
          gateway = last_of gateway_of none os;
          dns = servers_of os;
          lease_secs = last_of lease_secs_of 86400 os;
          xid =
              get_or p.buf 4 0 * 16777216
              + get_or p.buf 5 0 * 65536
              + get_or p.buf 6 0 * 256
              + get_or p.buf 7 0;
        }))
parse_reply-push_all p os h valid said =
    read_back p (map option_of os) h valid
    ∙ ap (answered p.buf) (apply_all-said os (start p.buf) said)
