-- ===== src/Dhcp/Lease/Times.antt =====
-- dhcp.rs: when a lease is renewed, and the prefix lengths of masks.
use quantra_system.Base.{
  ℕ, zero, suc, ◌-◌, ◌*◌, ◌/◌, ◌%◌, ◌^◌, ◌≤◌, ◌<◌, ◌≡◌, refl, max, Bool, true, ◌&&◌, none, some,
  ◌==◌, arith, ==_iff, Bool-cases, inl, inr,
}
use quantra_system.Dhcp.Packet.{Ip}
use quantra_system.Dhcp.Lease.{count_ones, mask_to_prefix, renewal_times}
use quantra_system.Timer.Calendar.{Overflow, checked, wrapping}

-- A lease of two minutes or more whose seven-fold fits into 32 bits is renewed first, then rebound,
-- and both before it ends; where the product does not fit, a build that checks it panics.
pub renewal_times-order :
    (mode : Overflow) (lease : ℕ)
    → (120 ≤ lease
        → lease * 7 < 2 ^ 32
        → (t1 t2 : ℕ) × (renewal_times mode lease ≡ some (t1, t2)) × (t1 < t2) × (t2 < lease))
      × (2 ^ 32 ≤ lease * 7 → renewal_times checked lease ≡ none)
unfolding renewal_times
renewal_times-order mode lease = (
  λ long fits. (
    max (lease / 2) 30,
    max (lease * 7 / 8) 60,
    fitting mode lease fits,
    omega (arith, long),
    omega (arith, long),
  ),
  λ over. ground (arith, over),
)
  where
    fitting :
        (mode : Overflow) (lease : ℕ)
        → lease * 7 < 2 ^ 32
        → renewal_times mode lease ≡ some (max (lease / 2) 30, max (lease * 7 / 8) 60)
    fitting checked lease fits = ground (arith, fits)
    fitting wrapping lease fits =
        let same : lease * 7 % 4294967296 ≡ lease * 7 = omega (arith, fits) in rw same refl

-- The mask that a prefix length stands for.
abbrev pub mask_bits : ℕ → ℕ
mask_bits n = 2 ^ 32 - 2 ^ (32 - n)

abbrev pub mask : ℕ → Ip
mask n = record {
  a = mask_bits n / 16777216 % 256;
  b = mask_bits n / 65536 % 256;
  c = mask_bits n / 256 % 256;
  d = mask_bits n % 256;
}

all_below : (ℕ → Bool) → ℕ → Bool
all_below p zero = true
all_below p (suc n) = p n && all_below p n

all_below-at : (p : ℕ → Bool) (n i : ℕ) → all_below p n ≡ true → i < n → p i ≡ true
unfolding all_below
all_below-at p zero i h lt = absurd (omega (arith, lt))
all_below-at p (suc n) i h lt = elim (Bool-cases (i == n)) [
  | inl last ↦ let e : i ≡ n = (==_iff i n).0 last in rw e (ground arith)
  | inr before ↦ all_below-at p n i (ground arith) (ground arith)
]

-- The mask of each prefix length counts back to that length.
pub mask_to_prefix-mask : (n : ℕ) → n ≤ 32 → mask_to_prefix (mask n) ≡ n
unfolding mask_to_prefix count_ones all_below
mask_to_prefix-mask n le =
    (==_iff _ n).0 (all_below-at (λ i. mask_to_prefix (mask i) == i) 33 n refl (omega (arith, le)))
