-- ===== src/Phys/Bitmap.antt =====
-- The bitmap as a set of free pages, and what setting and clearing a page do to it.
use native.Mathlib.Decide.{ℕ_discrete, dec_lt}
use watos.Common.{
  ℕ, ◌/◌, ◌%◌, ◌^◌, ◌<◌, ◌≡◌, ◌≢◌, bit_and, bit_or, Bool, false, ◌&&◌, ◌||◌, not, List, length,
  get_or, set, length-set, get_or-set_self, get_or-set_ne, set-out, arith, ◌==◌,
}
use watos.Common.Bits.{
  get_bit, get_bit-bit_or, get_bit-bit_and, get_bit-pow, get_bit-complement, complement,
  and-pow-zero, pow-lt, bit_or-lt, bit_and-lt,
}
use watos.Phys.{set_page, clear_page, page_used}

-- Page `p` is free: its bit is set.
abbrev pub is_free : List ℕ → ℕ → Bool
is_free m p = get_bit (get_or m (p / 64) 0) (p % 64)

-- The test of the code reads that bit.
pub page_used-eq-not-is_free : (m : List ℕ) (p : ℕ) → page_used m p ≡ not (is_free m p)
unfolding page_used
page_used-eq-not-is_free m p = and-pow-zero (p % 64) (get_or m (p / 64) 0)

same_word : (p q : ℕ) → p / 64 ≡ q / 64 → (p % 64 == q % 64) ≡ (p == q)
same_word p q e = ground arith

other_word : (p q : ℕ) → p / 64 ≢ q / 64 → (p == q) ≡ false
other_word p q ne = ground arith

-- Setting a page makes it free, and no other page changes.
pub is_free-set_page :
    (m : List ℕ) (p q : ℕ)
    → p / 64 < length m
    → is_free (set_page m p) q ≡ ((p == q) || is_free m q)
unfolding set_page
is_free-set_page m p q h = elim (ℕ_discrete (p / 64) (q / 64)) [
  | yes e ↦
      let w = get_or m (p / 64) 0 in
      ground (
        arith,
        get_or-set_self m (p / 64) (bit_or w (2 ^ (p % 64))) 0 h,
        get_bit-bit_or (q % 64) w (2 ^ (p % 64)),
        get_bit-pow (p % 64) (q % 64),
        same_word p q e,
      )
  | no ne ↦ ground (
    arith,
    get_or-set_ne m (p / 64) (q / 64) (bit_or (get_or m (p / 64) 0) (2 ^ (p % 64))) 0 ne,
    other_word p q ne,
  )
]

-- Clearing a page makes it used, and no other page changes.
pub is_free-clear_page :
    (m : List ℕ) (p q : ℕ)
    → p / 64 < length m
    → is_free (clear_page m p) q ≡ (not (p == q) && is_free m q)
unfolding clear_page
is_free-clear_page m p q h = elim (ℕ_discrete (p / 64) (q / 64)) [
  | yes e ↦
      let w = get_or m (p / 64) 0 in
      let bit = 2 ^ (p % 64) in
      ground (
        arith,
        get_or-set_self m (p / 64) (bit_and w (complement 64 bit)) 0 h,
        get_bit-bit_and (q % 64) w (complement 64 bit),
        get_bit-complement 64 bit (q % 64) (pow-lt (p % 64) 64 (omega arith)),
        get_bit-pow (p % 64) (q % 64),
        same_word p q e,
      )
  | no ne ↦
      let w = bit_and (get_or m (p / 64) 0) (complement 64 (2 ^ (p % 64))) in
      ground (arith, get_or-set_ne m (p / 64) (q / 64) w 0 ne, other_word p q ne)
]

pub length-set_page : (m : List ℕ) (p : ℕ) → length (set_page m p) ≡ length m
unfolding set_page
length-set_page m p = length-set m (p / 64) _

pub length-clear_page : (m : List ℕ) (p : ℕ) → length (clear_page m p) ≡ length m
unfolding clear_page
length-clear_page m p = length-set m (p / 64) _

-- Every word fits 64 bits.
abbrev pub AreWords : List ℕ → Type 0
AreWords m = (i : ℕ) → get_or m i 0 < 2 ^ 64

set-AreWords : (m : List ℕ) (i w : ℕ) → AreWords m → w < 2 ^ 64 → AreWords (set m i w)
set-AreWords m i w all fits j = elim (ℕ_discrete i j) [
  | no ne ↦ rw (get_or-set_ne m i j w 0 ne) (all j)
  | yes e ↦ elim (dec_lt i (length m)) [
    | yes h ↦ rw (← e, get_or-set_self m i w 0 h) fits
    | no out ↦ rw (set-out m i w (omega arith)) (all j)
  ]
]

pub set_page-AreWords : (m : List ℕ) (p : ℕ) → AreWords m → AreWords (set_page m p)
unfolding set_page
set_page-AreWords m p all = set-AreWords m (p / 64) _ all (
    bit_or-lt 64 (get_or m (p / 64) 0) (2 ^ (p % 64)) (all (p / 64))
      (pow-lt (p % 64) 64 (omega arith)))

pub clear_page-AreWords : (m : List ℕ) (p : ℕ) → AreWords m → AreWords (clear_page m p)
unfolding clear_page
clear_page-AreWords m p all =
    set-AreWords m (p / 64) _ all (bit_and-lt 64 (get_or m (p / 64) 0) _ (all (p / 64)))
