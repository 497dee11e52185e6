-- ===== src/Wfs/FreeSpace/Blocks.antt =====
-- Ranges as sets of blocks: allocation splits a range into disjoint parts, merging joins two.
use watos.Common.{
  ℕ, ◌+◌, ◌^◌, ◌<◌, ◌≡◌, refl, ◌⊎◌, inl, inr, Bool, true, false, ◌&&◌, ◌||◌, Option, none, some,
  List, [], ◌∷◌, arith, ltb, leb, ◌==◌, Bool-cases, add_u64,
}
use watos.Wfs.FreeSpace.{
  FreeRange, new, end_block, merge, allocate, allocate_at, is_adjacent, can_allocate,
}

-- The blocks of a range fit 64 bits, so that its end does not wrap.
abbrev pub Fits : FreeRange → Type 0
Fits r = r.start_block + r.block_count < 2 ^ 64

-- block `b` is one of the `n` blocks from `s` on
abbrev pub within : ℕ → ℕ → ℕ → Bool
within s n b = leb s b && ltb b (s + n)

abbrev pub covers : FreeRange → ℕ → Bool
covers r b = within r.start_block r.block_count b

abbrev pub covered : List FreeRange → ℕ → Bool
covered [] b = false
covered (r ∷ rs) b = covers r b || covered rs b

-- a range that may be missing, as a list
abbrev pub listed : Option FreeRange → List FreeRange
listed none = []
listed (some r) = r ∷ []

-- how many blocks the ranges hold
abbrev pub total : List FreeRange → ℕ
total [] = 0
total (r ∷ rs) = r.block_count + total rs

-- The `n` blocks from `s` on and the blocks of `rest` split the range: a block of the range lies in
-- exactly one of the two, no other block lies in either, and the numbers of blocks add up.
pub record Splits (r : FreeRange) (s n : ℕ) (rest : List FreeRange) : Type 0 where
  pub together : (b : ℕ) → covers r b ≡ (within s n b || covered rest b)
  pub disjoint : (b : ℕ) → (within s n b && covered rest b) ≡ false
  pub counted : n + total rest ≡ r.block_count

-- In a range whose end fits 64 bits, `allocate` fails exactly where `can_allocate` is false, and
-- gives the first `n` blocks and leaves the rest exactly where it is true; the two parts split the
-- range.
pub allocate-Splits :
    (r : FreeRange) (n : ℕ)
    → Fits r
    → ((allocate r n ≡ none) × (can_allocate r n ≡ false))
      ⊎ ((rest : Option FreeRange) × (allocate r n ≡ some (r.start_block, rest))
          × (can_allocate r n ≡ true)
          × Splits r r.start_block n (listed rest))
unfolding allocate can_allocate
allocate-Splits r n h = elim (Bool-cases (ltb r.block_count n)) [
  | inl short ↦ rw short (inl (refl, ground arith))
  | inr enough ↦ elim (Bool-cases (r.block_count == n)) [
    | inl exact ↦
        rw (enough, exact)
          (inr (
            none,
            refl,
            ground arith,
            record {
              together = λ b. ground arith;
              disjoint = λ b. ground arith;
              counted = ground arith;
            },
          ))
    | inr more ↦
        rw (enough, more)
          (inr (
            some _,
            refl,
            ground arith,
            record {
              together = λ b. ground arith;
              disjoint = λ b. ground arith;
              counted = ground arith;
            },
          ))
  ]
]

-- In a range whose end fits 64 bits, for a request whose end fits too, `allocate_at` gives the
-- blocks asked for exactly where they lie in the range; those and the ranges it leaves split the
-- range.
pub allocate_at-Splits :
    (r : FreeRange) (offset n : ℕ)
    → Fits r
    → offset + n < 2 ^ 64
    → ((allocate_at r offset n ≡ none)
        × ((leb r.start_block offset && leb (offset + n) (r.start_block + r.block_count)) ≡ false))
      ⊎ ((rest : List FreeRange) × (allocate_at r offset n ≡ some (offset, rest))
          × Splits r offset n rest)
unfolding allocate_at
allocate_at-Splits r offset n h k =
    elim (Bool-cases (ltb offset r.start_block || ltb (end_block r) (add_u64 offset n))) [
      | inl outside ↦ rw outside (inl (refl, ground arith))
      | inr inside ↦ elim (Bool-cases (ltb r.start_block offset)) [
        | inl left ↦ elim (Bool-cases (ltb (add_u64 offset n) (end_block r))) [
          | inl right ↦
              rw (inside, left, right)
                (inr (
                  _,
                  refl,
                  record {
                    together = λ b. ground arith;
                    disjoint = λ b. ground arith;
                    counted = ground arith;
                  },
                ))
          | inr flush ↦
              rw (inside, left, flush)
                (inr (
                  _,
                  refl,
                  record {
                    together = λ b. ground arith;
                    disjoint = λ b. ground arith;
                    counted = ground arith;
                  },
                ))
        ]
        | inr start ↦ elim (Bool-cases (ltb (add_u64 offset n) (end_block r))) [
          | inl right ↦
              rw (inside, start, right)
                (inr (
                  _,
                  refl,
                  record {
                    together = λ b. ground arith;
                    disjoint = λ b. ground arith;
                    counted = ground arith;
                  },
                ))
          | inr flush ↦
              rw (inside, start, flush)
                (inr (
                  _,
                  refl,
                  record {
                    together = λ b. ground arith;
                    disjoint = λ b. ground arith;
                    counted = ground arith;
                  },
                ))
        ]
      ]
    ]

-- Two ranges whose ends fit 64 bits merge where `is_adjacent` is true and do not where it is false.
-- Merged, the result holds the blocks of both and no other, and as many as both together.
pub merge-covers :
    (r other : FreeRange)
    → Fits r
    → Fits other
    → ((merge r other ≡ none) × (is_adjacent r other ≡ false))
      ⊎ ((m : FreeRange) × (merge r other ≡ some m)
          × (is_adjacent r other ≡ true)
          × ((b : ℕ) → covers m b ≡ (covers r b || covers other b))
          × (m.block_count ≡ r.block_count + other.block_count))
unfolding merge is_adjacent
merge-covers r other h k = elim (Bool-cases (end_block r == other.start_block)) [
  | inl before ↦ rw before (inr (_, refl, refl, λ b. ground arith, ground arith))
  | inr not_before ↦ elim (Bool-cases (end_block other == r.start_block)) [
    | inl behind ↦ rw (not_before, behind) (inr (_, refl, refl, λ b. ground arith, ground arith))
    | inr apart ↦ rw (not_before, apart) (inl (refl, refl))
  ]
]

-- What `allocate` leaves of a range whose end fits 64 bits merges with what it gave to that range.
pub merge-allocate :
    (r rest : FreeRange) (n s : ℕ)
    → Fits r
    → allocate r n ≡ some (s, some rest)
    → merge (new s n) rest ≡ some r
unfolding merge allocate new
merge-allocate r rest n s h e = ground arith
