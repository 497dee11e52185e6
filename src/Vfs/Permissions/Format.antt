-- ===== src/Vfs/Permissions/Format.antt =====
-- The text forms of a mode, read back.
use watos.Common.{
  ℕ, ◌+◌, ◌-◌, ◌*◌, ◌/◌, ◌%◌, ◌^◌, bit_and, ◌≡◌, refl, ◌⊎◌, inl, inr, Bool, true, false, ◌||◌, List,
  [], ◌∷◌, arith, ◌==◌, if◌then◌else◌,
}
use watos.Common.Bits.{and-pow-zero, and_lowest, and-zero}
use watos.Vfs.Permissions.{
  format_mode_octal, format_mode_string, has, exec_letter, mode_permissions,
}

-- the number that four octal digits stand for
abbrev pub octal_value : List ℕ → ℕ → ℕ
octal_value [] acc = acc
octal_value (d ∷ ds) acc = octal_value ds (acc * 8 + (d - b'0'))

and_seven : (x : ℕ) → bit_and x 7 ≡ x % 8
and_seven x = omega (
  arith,
  and_lowest x 7,
  and_lowest (x / 2) 3,
  and_lowest (x / 2 / 2) 1,
  and-zero (x / 2 / 2 / 2),
)

and_six_ones : (x : ℕ) → bit_and x 63 ≡ x % 64
and_six_ones x = omega (
  arith,
  and_lowest x 63,
  and_lowest (x / 2) 31,
  and_lowest (x / 2 / 2) 15,
  and_seven (x / 2 / 2 / 2),
)

and_nine_ones : (x : ℕ) → bit_and x 511 ≡ x % 512
and_nine_ones x = omega (
  arith,
  and_lowest x 511,
  and_lowest (x / 2) 255,
  and_lowest (x / 2 / 2) 127,
  and_six_ones (x / 2 / 2 / 2),
)

and_twelve_ones : (x : ℕ) → bit_and x 4095 ≡ x % 4096
and_twelve_ones x = omega (
  arith,
  and_lowest x 4095,
  and_lowest (x / 2) 2047,
  and_lowest (x / 2 / 2) 1023,
  and_nine_ones (x / 2 / 2 / 2),
)

-- The permission bits are the lowest twelve.
pub mode_permissions-mod : (mode : ℕ) → mode_permissions mode ≡ mode % 2 ^ 12
unfolding mode_permissions
mode_permissions-mod mode = and_twelve_ones mode

-- The four digits spell the permission bits of the mode.
pub octal_value-format_mode_octal :
    (mode : ℕ) → octal_value (format_mode_octal mode) 0 ≡ mode % 2 ^ 12
unfolding format_mode_octal mode_permissions
octal_value-format_mode_octal mode =
    let p = bit_and mode 0o7777 in
    omega (
      arith,
      mode_permissions-mod mode,
      and_seven (p / 2 ^ 9),
      and_seven (p / 2 ^ 6),
      and_seven (p / 2 ^ 3),
      and_seven p,
    )

-- The value of a read or write place of the ls form, and of an execute place.
abbrev pub letter_value : ℕ → ℕ → ℕ
letter_value c weight = if c == b'-' then 0 else weight

abbrev pub exec_value : ℕ → ℕ → ℕ → ℕ
exec_value c weight special =
    (if c == b'x' || (c == b's' || c == b't') then weight else 0)
    + (if c == b's' || (c == b't' || (c == b'S' || c == b'T')) then special else 0)

-- The mode that nine letters stand for.
abbrev pub mode_of : List ℕ → ℕ
mode_of (a ∷ b ∷ c ∷ d ∷ e ∷ f ∷ g ∷ h ∷ i ∷ []) =
    letter_value a 0o400
    + letter_value b 0o200
    + exec_value c 0o100 0o4000
    + letter_value d 0o040
    + letter_value e 0o020
    + exec_value f 0o010 0o2000
    + letter_value g 0o004
    + letter_value h 0o002
    + exec_value i 0o001 0o1000
mode_of _ = 0

has_other_x : (mode : ℕ) → has mode 1 ≡ (mode / 1 % 2 == 1)
unfolding has
has_other_x mode = ground (arith, and-pow-zero 0 mode)

has_other_w : (mode : ℕ) → has mode 2 ≡ (mode / 2 % 2 == 1)
unfolding has
has_other_w mode = ground (arith, and-pow-zero 1 mode)

has_other_r : (mode : ℕ) → has mode 4 ≡ (mode / 4 % 2 == 1)
unfolding has
has_other_r mode = ground (arith, and-pow-zero 2 mode)

has_group_x : (mode : ℕ) → has mode 8 ≡ (mode / 8 % 2 == 1)
unfolding has
has_group_x mode = ground (arith, and-pow-zero 3 mode)

has_group_w : (mode : ℕ) → has mode 16 ≡ (mode / 16 % 2 == 1)
unfolding has
has_group_w mode = ground (arith, and-pow-zero 4 mode)

has_group_r : (mode : ℕ) → has mode 32 ≡ (mode / 32 % 2 == 1)
unfolding has
has_group_r mode = ground (arith, and-pow-zero 5 mode)

has_owner_x : (mode : ℕ) → has mode 64 ≡ (mode / 64 % 2 == 1)
unfolding has
has_owner_x mode = ground (arith, and-pow-zero 6 mode)

has_owner_w : (mode : ℕ) → has mode 128 ≡ (mode / 128 % 2 == 1)
unfolding has
has_owner_w mode = ground (arith, and-pow-zero 7 mode)

has_owner_r : (mode : ℕ) → has mode 256 ≡ (mode / 256 % 2 == 1)
unfolding has
has_owner_r mode = ground (arith, and-pow-zero 8 mode)

has_sticky : (mode : ℕ) → has mode 512 ≡ (mode / 512 % 2 == 1)
unfolding has
has_sticky mode = ground (arith, and-pow-zero 9 mode)

has_setgid : (mode : ℕ) → has mode 1024 ≡ (mode / 1024 % 2 == 1)
unfolding has
has_setgid mode = ground (arith, and-pow-zero 10 mode)

has_setuid : (mode : ℕ) → has mode 2048 ≡ (mode / 2048 % 2 == 1)
unfolding has
has_setuid mode = ground (arith, and-pow-zero 11 mode)

letter_lem :
    (set_ : Bool) (letter weight x : ℕ)
    → (letter ≡ b'r') ⊎ (letter ≡ b'w')
    → set_ ≡ (x % 2 == 1)
    → letter_value (if set_ then letter else b'-') weight ≡ x % 2 * weight
letter_lem true letter weight x l e = let one : x % 2 ≡ 1 = ground arith in rw one (ground arith)
letter_lem false letter weight x l e = let nil : x % 2 ≡ 0 = ground arith in rw nil (ground arith)

exec_lem :
    (plain special : Bool) (both alone weight more x y : ℕ)
    → ((both ≡ b's') × (alone ≡ b'S')) ⊎ ((both ≡ b't') × (alone ≡ b'T'))
    → plain ≡ (x % 2 == 1)
    → special ≡ (y % 2 == 1)
    → exec_value (exec_letter plain special both alone) weight more ≡ x % 2 * weight + y % 2 * more
unfolding exec_letter
exec_lem true true both alone weight more x y l e f =
    let one : x % 2 ≡ 1 = ground arith in
    let too : y % 2 ≡ 1 = ground arith in rw (one, too) (ground arith)
exec_lem true false both alone weight more x y l e f =
    let one : x % 2 ≡ 1 = ground arith in
    let off : y % 2 ≡ 0 = ground arith in rw (one, off) (ground arith)
exec_lem false true both alone weight more x y l e f =
    let off : x % 2 ≡ 0 = ground arith in
    let too : y % 2 ≡ 1 = ground arith in rw (off, too) (ground arith)
exec_lem false false both alone weight more x y l e f =
    let off : x % 2 ≡ 0 = ground arith in
    let none_ : y % 2 ≡ 0 = ground arith in rw (off, none_) (ground arith)

-- The sum of the places is the sum of the bits, which is the sum of the octal digits.
sum_places :
    (u v w x y z p q r b0 b1 b2 b3 b4 b5 b6 b7 b8 b9 b10 b11 d0 d1 d2 d3 m : ℕ)
    → u ≡ b8 * 256
    → v ≡ b7 * 128
    → w ≡ b6 * 64 + b11 * 2048
    → x ≡ b5 * 32
    → y ≡ b4 * 16
    → z ≡ b3 * 8 + b10 * 1024
    → p ≡ b2 * 4
    → q ≡ b1 * 2
    → r ≡ b0 * 1 + b9 * 512
    → d0 ≡ b0 + b1 * 2 + b2 * 4
    → d1 ≡ b3 + b4 * 2 + b5 * 4
    → d2 ≡ b6 + b7 * 2 + b8 * 4
    → d3 ≡ b9 + b10 * 2 + b11 * 4
    → m ≡ d0 + d1 * 8 + d2 * 64 + d3 * 512
    → u + v + w + x + y + z + p + q + r ≡ m
sum_places u v w x y z p q r b0 b1 b2 b3 b4 b5 b6 b7 b8 b9 b10 b11 d0 d1 d2 d3 m e1 e2 e3 e4 e5 e6
      e7 e8 e9 f0 f1 f2 f3 g =
    omega arith

-- The ls form determines the permission bits: read back, it gives them all.
pub mode_of-format_mode_string : (mode : ℕ) → mode_of (format_mode_string mode) ≡ mode % 2 ^ 12
unfolding format_mode_string
mode_of-format_mode_string mode =
    sum_places _ _ _ _ _ _ _ _ _ (mode / 1 % 2) (mode / 2 % 2) (mode / 4 % 2) (mode / 8 % 2)
      (mode / 16 % 2) (mode / 32 % 2) (mode / 64 % 2) (mode / 128 % 2) (mode / 256 % 2)
      (mode / 512 % 2) (mode / 1024 % 2) (mode / 2048 % 2) (mode % 8) (mode / 8 % 8) (mode / 64 % 8)
      (mode / 512 % 8) (mode % 2 ^ 12)
      (letter_lem (has mode 256) b'r' 256 (mode / 256) (inl refl) (has_owner_r mode))
      (letter_lem (has mode 128) b'w' 128 (mode / 128) (inr refl) (has_owner_w mode))
      (exec_lem (has mode 64) (has mode 2048) b's' b'S' 64 2048 (mode / 64) (mode / 2048)
        (inl (refl, refl)) (has_owner_x mode) (has_setuid mode))
      (letter_lem (has mode 32) b'r' 32 (mode / 32) (inl refl) (has_group_r mode))
      (letter_lem (has mode 16) b'w' 16 (mode / 16) (inr refl) (has_group_w mode))
      (exec_lem (has mode 8) (has mode 1024) b's' b'S' 8 1024 (mode / 8) (mode / 1024)
        (inl (refl, refl)) (has_group_x mode) (has_setgid mode))
      (letter_lem (has mode 4) b'r' 4 (mode / 4) (inl refl) (has_other_r mode))
      (letter_lem (has mode 2) b'w' 2 (mode / 2) (inr refl) (has_other_w mode))
      (exec_lem (has mode 1) (has mode 512) b't' b'T' 1 512 (mode / 1) (mode / 512)
        (inr (refl, refl)) (has_other_x mode) (has_sticky mode))
      (omega arith) (omega arith) (omega arith) (omega arith) (omega arith)
