-- ===== src/Dhcp6/Roundtrip.antt =====
-- ipv6.rs: the parser reads what `push_opt` and the builder of a REQUEST write.
use quantra_system.Base.{
  ℕ, zero, suc, ◌+◌, ◌*◌, ◌/◌, ◌%◌, ◌≤◌, ◌<◌, ◌≡◌, refl, sym, ap, ◌∙◌, false, some, List, [], ◌∷◌,
  ◌++◌, ltb, length, get_or, take, drop, All, arith, length-append, take-append_length,
  drop-append_length,
}
use mathlib.Core.List.{append_assoc, append-nil}
use quantra_system.Dhcp.Packet.{Mac, to_be_bytes}
use quantra_system.Resolver.Message.{be16}
use quantra_system.Dhcp6.Packet.{
  Xid, Dhcp6Packet, new, push_opt, make_duid_ll, ia_na_head, ia_addr, request,
}
use quantra_system.Dhcp6.Reply.{
  Dhcp6Reply, fresh, apply_sub_opt, read_sub_opts, apply_opt, read_opts, parse_dhcp6_reply,
}

-- An option by its code and data, each of which 16 bits can write.
abbrev pub IsOption : ℕ × List ℕ → Type 0
IsOption (code, payload) = (code < 65536) × (length payload < 65536)

unfoldable pub push_all : List (ℕ × List ℕ) → Dhcp6Packet → Dhcp6Packet
push_all [] p = p
push_all ((code, payload) ∷ opts) p = push_all opts (push_opt code payload p)

unfoldable pub apply_all : List (ℕ × List ℕ) → Dhcp6Reply → Dhcp6Reply
apply_all [] r = r
apply_all ((code, payload) ∷ opts) r = apply_all opts (apply_opt code payload r)

abbrev pub encode : ℕ → List ℕ → List ℕ
encode code payload = be16 code ++ (be16 (length payload) ++ payload)

abbrev pub encoded : List (ℕ × List ℕ) → List ℕ
encoded [] = []
encoded ((code, payload) ∷ opts) = encode code payload ++ encoded opts

push_all-encoded :
    (opts : List (ℕ × List ℕ)) (p : Dhcp6Packet) → (push_all opts p).buf ≡ p.buf ++ encoded opts
unfolding push_all push_opt
push_all-encoded [] p = sym (append-nil p.buf)
push_all-encoded ((code, payload) ∷ opts) p =
    push_all-encoded opts (push_opt code payload p)
    ∙ append_assoc p.buf (encode code payload) (encoded opts)

two_bytes : (n : ℕ) → n < 65536 → n / 256 % 256 * 256 + n % 256 ≡ n
two_bytes n lt = omega (arith, lt)

within : (payload rest : List ℕ) → ltb (length (payload ++ rest)) (length payload) ≡ false
within payload rest = ground (arith, length-append payload rest)

read_one :
    (fuel code : ℕ) (payload rest : List ℕ) (r : Dhcp6Reply)
    → IsOption (code, payload)
    → read_opts (suc fuel) (encode code payload ++ rest) r
      ≡ read_opts fuel rest (apply_opt code payload r)
unfolding read_opts
read_one fuel code payload rest r h =
    rw
      (
        two_bytes code h.0,
        two_bytes (length payload) h.1,
        within payload rest,
        take-append_length payload rest,
        drop-append_length payload rest,
      )
      refl

read-encoded :
    (opts : List (ℕ × List ℕ)) (fuel : ℕ) (r : Dhcp6Reply)
    → All IsOption opts
    → length (encoded opts) ≤ fuel
    → read_opts fuel (encoded opts) r ≡ apply_all opts r
unfolding read_opts apply_all
read-encoded [] zero r h le = refl
read-encoded [] (suc fuel) r h le = refl
read-encoded ((code, payload) ∷ opts) zero r h le = absurd (omega (arith, le))
read-encoded ((code, payload) ∷ opts) (suc fuel) r h le =
    read_one fuel code payload (encoded opts) r h.0
    ∙ read-encoded opts fuel (apply_opt code payload r) h.1
        (omega (arith, le, length-append payload (encoded opts)))

-- A message of options that `push_opt` wrote, each with a code and a length of 16 bits, is read as
-- those options, applied in their order to what the parser starts from.
pub parse_dhcp6_reply-push_all :
    (msg_type : ℕ) (xid : Xid) (opts : List (ℕ × List ℕ))
    → All IsOption opts
    → parse_dhcp6_reply (push_all opts (new msg_type xid)).buf
      ≡ some (apply_all opts (fresh msg_type xid))
unfolding parse_dhcp6_reply
parse_dhcp6_reply-push_all msg_type xid opts h =
    ap parse_dhcp6_reply (push_all-encoded opts (new msg_type xid))
    ∙ ap some (read-encoded opts (length (encoded opts)) (fresh msg_type xid) h (omega arith))

get_or-append_length :
    (xs ys : List ℕ) (i : ℕ) → get_or (xs ++ ys) (length xs + i) 0 ≡ get_or ys i 0
get_or-append_length [] ys i = ap (λ n. get_or ys n 0) (omega arith)
get_or-append_length (x ∷ xs) ys i =
    let step : suc (length xs) + i ≡ suc (length xs + i) = omega arith in
    ap (λ n. get_or (x ∷ xs ++ ys) n 0) step ∙ get_or-append_length xs ys i

abbrev with_address : List ℕ → Dhcp6Reply → Dhcp6Reply
with_address addr r = record r { ia_address = some addr; preferred = 3600; valid = 7200 }

-- An address with its lifetimes, as `ia_addr` writes them.
abbrev stated : List ℕ → List ℕ
stated addr = addr ++ (to_be_bytes 3600 ++ to_be_bytes 7200)

module _ (addr : List ℕ) (h : length addr ≡ 16) where
  length-stated : length (stated addr) ≡ 24
  length-stated = omega (arith, h, length-append addr (to_be_bytes 3600 ++ to_be_bytes 7200))

  time_at :
      (i : ℕ) → get_or (stated addr) (16 + i) 0 ≡ get_or (to_be_bytes 3600 ++ to_be_bytes 7200) i 0
  time_at i =
      ap (λ n. get_or (stated addr) (n + i) 0) (sym h)
      ∙ get_or-append_length addr (to_be_bytes 3600 ++ to_be_bytes 7200) i

  take-stated : take 16 (stated addr) ≡ addr
  take-stated =
      ap (λ n. take n (stated addr)) (sym h)
      ∙ take-append_length addr (to_be_bytes 3600 ++ to_be_bytes 7200)

  apply_sub_opt-stated : (r : Dhcp6Reply) → apply_sub_opt 5 (stated addr) r ≡ with_address addr r
  unfolding apply_sub_opt
  apply_sub_opt-stated r =
      rw
        (
          length-stated,
          take-stated,
          time_at 0,
          time_at 1,
          time_at 2,
          time_at 3,
          time_at 4,
          time_at 5,
          time_at 6,
          time_at 7,
        )
        refl

read_sub_opts-nil : (fuel : ℕ) (r : Dhcp6Reply) → read_sub_opts fuel [] r ≡ r
unfolding read_sub_opts
read_sub_opts-nil zero r = refl
read_sub_opts-nil (suc fuel) r = refl

read_sub_one :
    (fuel : ℕ) (payload : List ℕ) (r : Dhcp6Reply)
    → length payload ≡ 24
    → read_sub_opts (suc fuel) (encode 5 payload) r ≡ apply_sub_opt 5 payload r
unfolding read_sub_opts
read_sub_one fuel payload r h =
    let same = append-nil payload in
    let all : take 24 payload ≡ payload =
      rw (sym h) (ap (take (length payload)) (sym same) ∙ take-append_length payload []) in
    let none_left : drop 24 payload ≡ [] =
      rw (sym h) (ap (drop (length payload)) (sym same) ∙ drop-append_length payload []) in
    rw (h, all, none_left) (read_sub_opts-nil fuel (apply_sub_opt 5 payload r))

-- The association of a REQUEST: its times are zero, and it holds one address.
apply_opt-ia_na :
    (iaid : ℕ) (addr : List ℕ) (r : Dhcp6Reply)
    → length addr ≡ 16
    → apply_opt 3 (ia_na_head iaid ++ ia_addr addr 3600 7200) r
      ≡ with_address addr (record r { t1 = 0; t2 = 0 })
unfolding apply_opt
apply_opt-ia_na iaid addr r h =
    let size = length-stated addr h in
    rw size (
      ap
        (λ n.
          read_sub_opts 40 (0 ∷ 5 ∷ n / 256 % 256 ∷ n % 256 ∷ stated addr)
            (record r { t1 = 0; t2 = 0 }))
        (sym size)
      ∙ read_sub_one 39 (stated addr) (record r { t1 = 0; t2 = 0 }) size
      ∙ apply_sub_opt-stated addr h (record r { t1 = 0; t2 = 0 }))

-- What is read in a REQUEST that asks for an address: its transaction, the server's identifier and
-- the address, without times.
abbrev pub asked : Xid → List ℕ → List ℕ → Dhcp6Reply
asked xid server_duid addr = record (fresh 3 xid) {
  server_duid = server_duid;
  ia_address = some addr;
  t1 = 0;
  t2 = 0;
}

-- A REQUEST for an address of 16 octets from a server whose identifier has a length of 16 bits is
-- read back: with its transaction, that identifier and that address, and without times.
pub parse_dhcp6_reply-request :
    (mac : Mac) (xid : Xid) (server_duid : List ℕ) (iaid : ℕ) (addr : List ℕ)
    → length server_duid < 65536
    → length addr ≡ 16
    → parse_dhcp6_reply (request mac xid server_duid iaid (some addr)).buf
      ≡ some (asked xid server_duid addr)
unfolding request push_all apply_all apply_opt
parse_dhcp6_reply-request mac xid server_duid iaid addr short h =
    let ia : List ℕ = ia_na_head iaid ++ ia_addr addr 3600 7200 in
    let opts : List (ℕ × List ℕ) =
      (1, make_duid_ll mac) ∷ (2, server_duid) ∷ (3, ia) ∷ (6, be16 23) ∷ (8, be16 0) ∷ [] in
    let size : length ia < 65536 = omega (arith, length-stated addr h) in
    let fits : All IsOption opts = (
      (omega arith, omega arith),
      (
        (omega arith, short),
        ((omega arith, size), ((omega arith, omega arith), ((omega arith, omega arith), tt))),
      ),
    ) in
    parse_dhcp6_reply-push_all 3 xid opts fits
    ∙ ap (λ r. some (apply_opt 8 (be16 0) (apply_opt 6 (be16 23) r)))
        (apply_opt-ia_na iaid addr (record (fresh 3 xid) { server_duid = server_duid }) h)
