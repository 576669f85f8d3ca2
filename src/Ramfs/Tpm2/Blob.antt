-- ===== src/Ramfs/Tpm2/Blob.antt =====
-- tpm2.rs: the blob that the enrolment writes is read back.
use quantra_system.Base.{
  ℕ, suc, ◌+◌, ◌*◌, ◌/◌, ◌%◌, ◌<◌, ◌≡◌, refl, ap, ◌∙◌, false, some, ◌++◌, ltb, length, drop, arith,
  length-append, take-append_length, drop-append_length,
}
use quantra_system.Resolver.Message.{be16}
use quantra_system.Ramfs.Tpm2.{Bytes, split_private, parse_blob}

two_bytes : (n : ℕ) → n < 65536 → n / 256 % 256 * 256 + n % 256 ≡ n
two_bytes n lt = omega (arith, lt)

split_private-encoded :
    (public private rest : Bytes)
    → length private < 65536
    → split_private public (be16 (length private) ++ (private ++ rest)) ≡ some (public, private)
split_private-encoded public private rest h =
    let size = two_bytes (length private) h in
    let long : ltb (length (be16 (length private) ++ (private ++ rest))) (2 + length private)
        ≡ false =
      ground (arith, length-append private rest) in
    rw (size, long, take-append_length private rest) refl

-- The blob of a public and a private area, each with its length of 16 bits before it, is read as
-- these areas, whatever follows it.
pub parse_blob-encoded :
    (public private rest : Bytes)
    → length public < 65536
    → length private < 65536
    → parse_blob (be16 (length public) ++ (public ++ (be16 (length private) ++ (private ++ rest))))
      ≡ some (public, private)
unfolding parse_blob
parse_blob-encoded public private rest hp hq =
    let back : Bytes = be16 (length private) ++ (private ++ rest) in
    let size = two_bytes (length public) hp in
    let whole = length-append public back in
    let long : ltb (length (be16 (length public) ++ (public ++ back))) 4 ≡ false =
      ground (arith, whole) in
    let longer : ltb (length (be16 (length public) ++ (public ++ back))) (2 + length public + 2)
        ≡ false =
      ground (arith, whole) in
    let two_more : 2 + length public ≡ suc (suc (length public)) = omega arith in
    let after : drop (2 + length public) (be16 (length public) ++ (public ++ back)) ≡ back =
      ap (λ n. drop n (be16 (length public) ++ (public ++ back))) two_more
      ∙ drop-append_length public back in
    rw (size, long, longer, take-append_length public back, after)
      (split_private-encoded public private rest hq)
