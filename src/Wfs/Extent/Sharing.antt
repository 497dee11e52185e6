-- ===== src/Wfs/Extent/Sharing.antt =====
-- Reference counts of extents and the flag that marks a shared one.
use watos.Common.{
  ℕ, zero, suc, ◌^◌, ◌<◌, bit_and, bit_or, ◌≡◌, refl, inl, inr, true, false, ◌&&◌, ◌||◌, not, arith,
  ltb, ◌==◌, Bool-cases,
}
use watos.Common.Bits.{
  get_bit, get_bit-bit_or, get_bit-bit_and, get_bit-pow, get_bit-complement, get_bit-high,
  complement, and-pow-zero, bit_or-lt, bit_and-lt, eq_of_bits,
}
use watos.Wfs.Extent.{
  Extent, new, hole, is_shared, inc_refcount, dec_refcount, u32_max, extent_shared,
}

-- The fields are `u32`, and the flag is set exactly where there is more than one reference.
pub record IsCounted (e : Extent) : Type 0 where
  pub flagged : get_bit e.flags 0 ≡ ltb 1 e.refcount
  pub flags_fit : e.flags < 2 ^ 32
  pub refcount_fits : e.refcount < 2 ^ 32

pub new-IsCounted : (file_offset disk_block len : ℕ) → IsCounted (new file_offset disk_block len)
unfolding new
new-IsCounted o d l = record {
  flagged = refl;
  flags_fit = omega arith;
  refcount_fits = omega arith;
}

pub hole-IsCounted : (file_offset len : ℕ) → IsCounted (hole file_offset len)
unfolding hole
hole-IsCounted o l = record { flagged = refl; flags_fit = omega arith; refcount_fits = omega arith }

flag_set : (flags i : ℕ) → get_bit (bit_or flags extent_shared) i ≡ (get_bit flags i || 0 == i)
flag_set flags i = rw (get_bit-bit_or i flags 1, get_bit-pow 0 i)

flag_cleared :
    (flags i : ℕ)
    → flags < 2 ^ 32
    → get_bit (bit_and flags (complement 32 extent_shared)) i ≡ (get_bit flags i && not (0 == i))
flag_cleared flags i h = elim (Bool-cases (ltb i 32)) [
  | inl low ↦ ground (
    arith,
    get_bit-bit_and i flags (complement 32 1),
    get_bit-complement 32 1 i (omega arith),
    get_bit-pow 0 i,
  )
  | inr high ↦
      ground
        (arith, get_bit-bit_and i flags (complement 32 1), get_bit-high 32 flags i h (ground arith))
]

-- Taking a reference to an extent keeps its fields in 32 bits and its shared flag set exactly
-- where the count is more than one, if they were so before.
pub inc_refcount-IsCounted : (e : Extent) → IsCounted e → IsCounted (inc_refcount e)
unfolding inc_refcount
inc_refcount-IsCounted e v = record {
  flagged = ground (arith, flag_set e.flags 0, v.flagged);
  flags_fit = ground (arith, v.flags_fit, bit_or-lt 32 e.flags 1 v.flags_fit (omega arith));
  refcount_fits = omega arith;
}

-- Dropping one does too.
pub dec_refcount-IsCounted : (e : Extent) → IsCounted e → IsCounted (dec_refcount e).1
unfolding dec_refcount
dec_refcount-IsCounted e v = record {
  flagged = ground (arith, flag_cleared e.flags 0 v.flags_fit, v.flagged);
  flags_fit = ground (arith, v.flags_fit, bit_and-lt 32 e.flags (complement 32 1) v.flags_fit);
  refcount_fits = omega (arith, v.refcount_fits);
}

-- In step, an extent is shared exactly where it has more than one reference.
pub is_shared-IsCounted : (e : Extent) → IsCounted e → is_shared e ≡ ltb 1 e.refcount
unfolding is_shared
is_shared-IsCounted e v = ground (arith, and-pow-zero 0 e.flags, v.flagged)

module _ (flags : ℕ) (h : flags < 2 ^ 32) where
  clear_again : get_bit flags 0 ≡ false → bit_and flags (complement 32 extent_shared) ≡ flags
  clear_again off = eq_of_bits _ _ (λ i. at_bit i)
    where
      at_bit : (i : ℕ) → get_bit (bit_and flags (complement 32 extent_shared)) i ≡ get_bit flags i
      at_bit zero = ground (arith, flag_cleared flags 0 h)
      at_bit (suc i) = ground (arith, flag_cleared flags (suc i) h)

  set_again : get_bit flags 0 ≡ true → bit_or flags extent_shared ≡ flags
  set_again on = eq_of_bits _ _ (λ i. at_bit i)
    where
      at_bit : (i : ℕ) → get_bit (bit_or flags extent_shared) i ≡ get_bit flags i
      at_bit zero = ground (arith, flag_set flags 0)
      at_bit (suc i) = ground (arith, flag_set flags (suc i))

  set_and_cleared :
      get_bit flags 0 ≡ false
      → bit_and (bit_or flags extent_shared) (complement 32 extent_shared) ≡ flags
  set_and_cleared off = eq_of_bits _ _ (λ i. at_bit i)
    where
      fits : bit_or flags extent_shared < 2 ^ 32
      fits = bit_or-lt 32 flags 1 h (omega arith)

      at_bit :
          (i : ℕ)
          → get_bit (bit_and (bit_or flags extent_shared) (complement 32 extent_shared)) i
            ≡ get_bit flags i
      at_bit zero = ground (arith, flag_cleared (bit_or flags 1) 0 fits)
      at_bit (suc i) =
          ground (arith, flag_cleared (bit_or flags 1) (suc i) fits, flag_set flags (suc i))

-- Where the fields fit 32 bits, the shared flag is set exactly if the count is more than one, and
-- the count is below its limit, taking a reference and dropping it gives back the extent.
pub dec_refcount-inc_refcount :
    (e : Extent) → IsCounted e → e.refcount < u32_max → (dec_refcount (inc_refcount e)).1 ≡ e
unfolding dec_refcount inc_refcount
dec_refcount-inc_refcount e v h = ground (
  arith,
  v.flagged,
  clear_again e.flags v.flags_fit,
  set_again e.flags v.flags_fit,
  set_and_cleared e.flags v.flags_fit,
)
