-- ===== src/Readline/Buffer/Mark.antt =====
-- The mark, which deletions leave as it is.
use watos.Common.{
  ℕ, ◌-◌, ◌<◌, ◌≡◌, refl, true, false, none, some, List, [], arith, leb, length, take, drop,
}
use watos.Readline.Buffer.Text.{slice, insert_at}
use watos.Common.Slices.{take-all, drop-all, take-nil}
use watos.Readline.Buffer.{
  EditBuffer, with_content, insert, delete_to_start, set_mark, exchange_point_and_mark, swap_mark,
}

-- `exchange_point_and_mark` takes the mark for the cursor as it stands, and a deletion does not adjust
-- it: with the mark set at the end of a text that is not empty, and the text deleted up to there, the
-- exchange leaves the cursor where the next insertion panics.
pub insert-exchange_point_and_mark :
    (ch : ℕ) (s : List ℕ)
    → 0 < length s
    → (b : EditBuffer) × (delete_to_start (set_mark (with_content s)) ≡ some (s, b))
      × (insert ch (exchange_point_and_mark b) ≡ none)
unfolding set_mark with_content delete_to_start exchange_point_and_mark swap_mark insert insert_at
    slice
insert-exchange_point_and_mark ch s h =
    let n = length s in
    let b : EditBuffer = record { chars = []; cursor = 0; mark = some n } in
    let all : take (n - 0) s ≡ s = take-all (n - 0) s (omega arith) in
    let none_left : take (n - n) (drop n s) ≡ [] = rw (drop-all s) (take-nil (n - n)) in
    let low : leb 0 n ≡ true = ground arith in
    let same : leb n n ≡ true = ground arith in
    let high : leb n 0 ≡ false = ground arith in
    (b, rw (low, same, all, none_left) refl, rw high refl)
