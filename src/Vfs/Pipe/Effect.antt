-- ===== src/Vfs/Pipe/Effect.antt =====
-- What a read and a write do, as one equation each.
use watos.Common.{
  ℕ, zero, suc, ◌+◌, ◌-◌, ◌≤◌, ◌<◌, min, ◌≡◌, refl, ap, inl, inr, true, false, some, List, [], ◌∷◌,
  ◌++◌, append-nil, append_assoc, arith, leb, ◌==◌, Bool-cases, length, set, take, drop, length-set,
  take-append-drop,
}
use watos.Vfs.Types.{ok, err, io_error}
use watos.Vfs.Pipe.{PipeBuffer, read_end, write_end, read, write, fill, read_pipe, write_pipe}

module _ {ℓ} {A : Type ℓ} where
  take-set_here :
      (xs : List A) (i : ℕ) (v : A)
      → i < length xs
      → take (suc i) (set xs i v) ≡ take i xs ++ v ∷ []
  take-set_here [] i v h = absurd (omega arith)
  take-set_here (x ∷ xs) zero v h = refl
  take-set_here (x ∷ xs) (suc i) v h = ap (λ r. x ∷ r) (take-set_here xs i v (omega arith))

  drop-set_before : (xs : List A) (i k : ℕ) (v : A) → i < k → drop k (set xs i v) ≡ drop k xs
  drop-set_before [] i k v h = refl
  drop-set_before (x ∷ xs) i zero v h = absurd (omega arith)
  drop-set_before (x ∷ xs) zero (suc k) v h = refl
  drop-set_before (x ∷ xs) (suc i) (suc k) v h = drop-set_before xs i k v (omega arith)

fill_lem :
    (n i : ℕ) (buf queue : List ℕ)
    → n ≤ length queue
    → i + n ≤ length buf
    → fill n i buf queue ≡ some (take i buf ++ (take n queue ++ drop (i + n) buf), drop n queue)
unfolding fill
fill_lem zero i buf queue h k =
    let same : i + zero ≡ i = omega arith in rw (same, take-append-drop i buf)
fill_lem (suc n) i buf [] h k = absurd (omega arith)
fill_lem (suc n) i buf (x ∷ queue) h k =
    let next : i + 1 ≡ suc i = omega arith in
    let total : suc i + n ≡ i + suc n = omega arith in
    rw (
      next,
      fill_lem n (suc i) (set buf i x) queue (omega arith) (omega (arith, length-set buf i x)),
      take-set_here buf i x (omega arith),
      drop-set_before buf i (suc i + n) x (omega arith),
      total,
      append_assoc (take i buf) (x ∷ []) (take n queue ++ drop (i + suc n) buf),
    )

fill_all :
    (n : ℕ) (buf queue : List ℕ)
    → n ≤ length queue
    → n ≤ length buf
    → fill n 0 buf queue ≡ some (take n queue ++ drop n buf, drop n queue)
fill_all n buf queue h k =
    let same : 0 + n ≡ n = omega arith in rw same at (fill_lem n 0 buf queue h (omega arith))

-- A read moves the oldest bytes of the pipe to the start of the caller's buffer, as many as there
-- are and as fit, and takes them out of the pipe. It never panics.
pub read_lem :
    (buf : List ℕ) (p : PipeBuffer)
    → let n = min (length buf) (length p.queue) in
      read read_end buf p
      ≡ some (ok n, take n p.queue ++ drop n buf, record p { queue = drop n p.queue })
unfolding read read_pipe
read_lem buf p =
    let n = min (length buf) (length p.queue) in
    elim (Bool-cases (length p.queue == 0)) [
      | inl empty ↦ let none_read : n ≡ 0 = ground arith in rw (none_read) (ground arith)
      | inr more ↦ ground (arith, fill_all n buf p.queue (omega arith) (omega arith))
    ]

-- While the read end is open, a write appends as many bytes as there is room for, in order.
pub write_lem :
    (buf : List ℕ) (p : PipeBuffer)
    → p.read_closed ≡ false
    → let n = min (length buf) (p.capacity - length p.queue) in
      write write_end buf p ≡ (ok n, record p { queue = p.queue ++ take n buf })
unfolding write write_pipe
write_lem buf p open_ = elim (Bool-cases (leb p.capacity (length p.queue))) [
  | inl full ↦
      let none_written : min (length buf) (p.capacity - length p.queue) ≡ 0 = ground arith in
      rw none_written (ground (arith, append-nil p.queue))
  | inr room ↦ ground arith
]

-- After the read end is closed, a write fails and changes nothing.
pub write_broken :
    (buf : List ℕ) (p : PipeBuffer)
    → p.read_closed ≡ true
    → write write_end buf p ≡ (err io_error, p)
unfolding write write_pipe
write_broken buf p closed = ground arith
