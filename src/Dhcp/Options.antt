-- ===== src/Dhcp/Options.antt =====
-- dhcp.rs: the bytes of the options that `push_opt` writes, and how the reply parser reads them.
use quantra_system.Base.{
  ℕ, zero, suc, ◌+◌, ◌-◌, ◌%◌, ◌≤◌, ◌<◌, ◌≡◌, refl, sym, ap, ◌∙◌, false, List, [], ◌∷◌, ◌++◌, ◌==◌,
  ltb, length, replicate, All, arith, length-append, take-append_length, drop-append_length,
  Bool-cases, inl, inr,
}
use mathlib.Core.List.{append_assoc, append-nil}
use quantra_system.Dhcp.Packet.{DhcpPacket, push_opt, pad}
use quantra_system.Dhcp.Reply.{Fields, apply_option, read_options}

-- An option by its code and data, one that a length byte can measure and that no marker hides.
abbrev pub IsOption : ℕ × List ℕ → Type 0
IsOption (code, payload) = (0 < code) × (code < 255) × (length payload < 256)

unfoldable pub push_all : List (ℕ × List ℕ) → DhcpPacket → DhcpPacket
push_all [] p = p
push_all ((code, payload) ∷ opts) p = push_all opts (push_opt code payload p)

unfoldable pub apply_all : List (ℕ × List ℕ) → Fields → Fields
apply_all [] f = f
apply_all ((code, payload) ∷ opts) f = apply_all opts (apply_option code payload f)

abbrev pub encoded : List (ℕ × List ℕ) → List ℕ
encoded [] = []
encoded ((code, payload) ∷ opts) = code ∷ length payload ∷ (payload ++ encoded opts)

pub pad-replicate :
    (fuel : ℕ) (buf : List ℕ)
    → 300 ≤ fuel + length buf
    → pad fuel buf ≡ buf ++ replicate (300 - length buf) 0
unfolding pad
pad-replicate zero buf h =
    let full : 300 - length buf ≡ 0 = omega (arith, h) in rw full (sym (append-nil buf))
pad-replicate (suc fuel) buf h = elim (Bool-cases (ltb (length buf) 300)) [
  | inr done ↦
      let full : 300 - length buf ≡ 0 = ground arith in rw (done, full) (sym (append-nil buf))
  | inl short ↦
      let longer : length (buf ++ 0 ∷ []) ≡ suc (length buf) =
        omega (arith, length-append buf (0 ∷ [])) in
      let more : 300 - length buf ≡ suc (300 - suc (length buf)) = ground arith in
      let rest = pad-replicate fuel (buf ++ 0 ∷ []) (omega (arith, h, longer)) in
      let left = ap (λ n. (buf ++ 0 ∷ []) ++ replicate (300 - n) 0) longer in
      rw short (
        rest
        ∙ left
        ∙ append_assoc buf (0 ∷ []) (replicate (300 - suc (length buf)) 0)
        ∙ ap (λ n. buf ++ replicate n 0) (sym more))
]

pub push_all-encoded :
    (opts : List (ℕ × List ℕ)) (p : DhcpPacket)
    → All IsOption opts
    → (push_all opts p).buf ≡ p.buf ++ encoded opts
unfolding push_all push_opt
push_all-encoded [] p h = sym (append-nil p.buf)
push_all-encoded ((code, payload) ∷ opts) p h =
    let small : length payload % 256 ≡ length payload = omega (arith, h.0.2) in
    push_all-encoded opts (push_opt code payload p) h.1
    ∙ append_assoc p.buf (code ∷ length payload % 256 ∷ payload) (encoded opts)
    ∙ ap (λ n. p.buf ++ (code ∷ n ∷ (payload ++ encoded opts))) small

read_one :
    (fuel code : ℕ) (payload rest : List ℕ) (f : Fields)
    → 0 < code
    → code < 255
    → read_options (suc fuel) (code ∷ length payload ∷ payload ++ rest) f
      ≡ read_options fuel rest (apply_option code payload f)
unfolding read_options
read_one fuel code payload rest f pos below =
    let fits : ltb (length (payload ++ rest)) (length payload) ≡ false =
      ground (arith, length-append payload rest) in
    let last : (code == 255) ≡ false = ground arith in
    let padding : (code == 0) ≡ false = ground arith in
    rw (last, padding, fits, take-append_length payload rest, drop-append_length payload rest) refl

pub read-encoded :
    (opts : List (ℕ × List ℕ)) (tail : List ℕ) (fuel : ℕ) (f : Fields)
    → All IsOption opts
    → length (encoded opts) < fuel
    → read_options fuel (encoded opts ++ 255 ∷ tail) f ≡ apply_all opts f
unfolding read_options apply_all
read-encoded opts tail zero f h lt = absurd (omega (arith, lt))
read-encoded [] [] (suc fuel) f h lt = refl
read-encoded [] (t ∷ tail) (suc fuel) f h lt = refl
read-encoded ((code, payload) ∷ opts) tail (suc fuel) f h lt =
    ap (λ b. read_options (suc fuel) (code ∷ length payload ∷ b) f)
      (append_assoc payload (encoded opts) (255 ∷ tail))
    ∙ read_one fuel code payload (encoded opts ++ 255 ∷ tail) f h.0.0 h.0.1
    ∙ read-encoded opts tail fuel (apply_option code payload f) h.1
        (omega (arith, lt, length-append payload (encoded opts)))
