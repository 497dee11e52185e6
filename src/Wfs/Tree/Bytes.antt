-- ===== src/Wfs/Tree/Bytes.antt =====
-- Numbers as bytes, the lowest first, and the check sum of a text of bytes.
use Prim.Native.Nat.{bit_xor}
use native.Mathlib.Nat.{pow-suc}
use watos.Common.{
  ℕ, zero, suc, ◌+◌, ◌-◌, ◌*◌, ◌/◌, ◌%◌, ◌^◌, ◌<◌, ◌≡◌, refl, ap, List, [], ◌∷◌, arith, ◌==◌,
  if◌then◌else◌, length,
}

-- `to_le_bytes` of a number of `k` bytes
abbrev pub to_le : ℕ → ℕ → List ℕ
to_le zero n = []
to_le (suc k) n = n % 256 ∷ to_le k (n / 256)

-- `from_le_bytes`
abbrev pub from_le : List ℕ → ℕ
from_le [] = 0
from_le (b ∷ bs) = b + 256 * from_le bs

pub length-to_le : (k n : ℕ) → length (to_le k n) ≡ k
length-to_le zero n = refl
length-to_le (suc k) n = ap suc (length-to_le k (n / 256))

pub from_le-to_le : (k n : ℕ) → n < 256 ^ k → from_le (to_le k n) ≡ n
from_le-to_le zero n h = omega arith
from_le-to_le (suc k) n h =
    let p : 256 ^ suc k ≡ 256 * 256 ^ k = omega (arith, pow-suc 256 k) in
    let q : n / 256 < 256 ^ k = omega arith in omega (arith, from_le-to_le k (n / 256) q)

-- one round of the inner loop of `crc32`
unfoldable pub crc_bit : ℕ → ℕ
crc_bit crc = if crc % 2 == 1 then bit_xor (crc / 2) 0xedb88320 else crc / 2

unfoldable pub crc_bits : ℕ → ℕ → ℕ
unfolding crc_bit
crc_bits zero crc = crc
crc_bits (suc n) crc = crc_bits n (crc_bit crc)

unfoldable pub crc_bytes : ℕ → List ℕ → ℕ
unfolding crc_bits
crc_bytes crc [] = crc
crc_bytes crc (b ∷ bs) = crc_bytes (crc_bits 8 (bit_xor crc b)) bs

unfoldable pub crc32 : List ℕ → ℕ
unfolding crc_bytes
crc32 bs = 2 ^ 32 - 1 - crc_bytes 0xffff_ffff bs
