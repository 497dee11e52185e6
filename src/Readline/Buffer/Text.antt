-- ===== src/Readline/Buffer/Text.antt =====
-- Vectors as Rust has them, an operation out of bounds being a panic (`none`), and the loops over
-- characters.
use watos.Common.{
  ℕ, zero, suc, ◌-◌, Bool, ◌&&◌, Option, none, some, List, [], ◌∷◌, ◌++◌, leb, ◌==◌, if◌then◌else◌,
  length, get_elem?, set, take, drop,
}
pub use watos.Common.{◌>>=◌}

-- `Vec::insert`
unfoldable pub insert_at : List ℕ → ℕ → ℕ → Option (List ℕ)
insert_at xs i x = if leb i (length xs) then some (take i xs ++ x ∷ drop i xs) else none

-- `Vec::remove`
unfoldable pub remove_at : List ℕ → ℕ → Option (ℕ × List ℕ)
remove_at xs i = get_elem? xs i >>= λ x. some (x, take i xs ++ drop (suc i) xs)

-- `&xs[s..e]`
unfoldable pub slice : List ℕ → ℕ → ℕ → Option (List ℕ)
slice xs s e = if leb s e && leb e (length xs) then some (take (e - s) (drop s xs)) else none

-- `xs.drain(s..e)`, what is left
unfoldable pub drain : List ℕ → ℕ → ℕ → Option (List ℕ)
drain xs s e = if leb s e && leb e (length xs) then some (take s xs ++ drop e xs) else none

-- `xs.swap(i, j)`
unfoldable pub swap : List ℕ → ℕ → ℕ → Option (List ℕ)
swap xs i j = get_elem? xs i >>= λ a. get_elem? xs j >>= λ b. some (set (set xs i b) j a)

-- `while end > 0 && test(xs[end - 1]) { end -= 1 }`: where it stops
unfoldable pub skip_back : (ℕ → Bool) → List ℕ → ℕ → Option ℕ
skip_back test xs zero = some zero
skip_back test xs (suc n) =
    get_elem? xs n >>= λ c. if test c then skip_back test xs n else some (suc n)

-- `while end < xs.len() && test(xs[end]) { end += 1 }`, over what stands from `end` on: where it stops
unfoldable pub skip_forward : (ℕ → Bool) → List ℕ → ℕ → ℕ
skip_forward test [] end = end
skip_forward test (c ∷ rest) end = if test c then skip_forward test rest (suc end) else end

-- the first position of `ch` in what stands from `i` on
unfoldable pub find_forward : ℕ → List ℕ → ℕ → Option ℕ
find_forward ch [] i = none
find_forward ch (c ∷ rest) i = if c == ch then some i else find_forward ch rest (suc i)

-- the last position of `ch` before `n`
unfoldable pub find_back : ℕ → List ℕ → ℕ → Option (Option ℕ)
find_back ch xs zero = some none
find_back ch xs (suc n) =
    get_elem? xs n >>= λ c. if c == ch then some (some n) else find_back ch xs n

unfoldable pub is_ascii_lowercase : ℕ → Bool
is_ascii_lowercase c = leb b'a' c && leb c b'z'

unfoldable pub is_ascii_uppercase : ℕ → Bool
is_ascii_uppercase c = leb b'A' c && leb c b'Z'
