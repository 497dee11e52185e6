-- ===== src/Vfs/Pipe/Fifo.antt =====
-- A pipe under any sequence of calls of its two ends is a bounded queue: what was read, followed by
-- what is still in it, is what was in it, followed by what was written.
use watos.Common.{
  ℕ, zero, suc, ◌-◌, ◌≤◌, min, ◌≡◌, refl, ap, inl, inr, Option, none, some, List, [], ◌∷◌, ◌++◌,
  append-nil, append_assoc, arith, Bool-cases, length, take, drop, length-append, length-take,
  length-drop, take-append-drop,
}
use watos.Vfs.Types.{VfsResult, ok, err}
use watos.Vfs.Pipe.{PipeBuffer, PipeEnd, Reply, read_end, write_end, read, write, drop_end}
use watos.Vfs.Pipe.Effect.{read_lem, write_lem, write_broken}

-- a call that a process makes on an end that it holds
pub data Op : Type 0 where
  read_into : List ℕ → Op
  write_from : List ℕ → Op
  close : PipeEnd → Op

-- What a sequence of calls did: the bytes delivered to readers, those accepted from writers, and
-- the pipe.
pub record Traffic : Type 0 where
  pub delivered : List ℕ
  pub accepted : List ℕ
  pub pipe : PipeBuffer

-- the first bytes of the buffer, as many as the call says
abbrev pub counted : VfsResult ℕ → List ℕ → List ℕ
counted (ok n) buf = take n buf
counted (err e) buf = []

abbrev after_read : Traffic → Option Reply → Option Traffic
after_read t none = none
after_read t (some (r, buf, p)) =
    some (record t { delivered = t.delivered ++ counted r buf; pipe = p })

unfoldable pub step : Op → Traffic → Option Traffic
step (read_into buf) t = after_read t (read read_end buf t.pipe)
step (write_from buf) t =
    let (r, p) = write write_end buf t.pipe in
    some (record t { accepted = t.accepted ++ counted r buf; pipe = p })
step (close e) t = some (record t { pipe = drop_end e t.pipe })

abbrev then_run : (Traffic → Option Traffic) → Option Traffic → Option Traffic
then_run f none = none
then_run f (some t) = f t

unfoldable pub run : List Op → Traffic → Option Traffic
run [] t = some t
run (op ∷ ops) t = then_run (run ops) (step op t)

-- The queue law, from the bytes that the pipe held at the start, with the bound on its size.
pub record IsQueue (held : List ℕ) (capacity : ℕ) (t : Traffic) : Type 0 where
  pub in_order : held ++ t.accepted ≡ t.delivered ++ t.pipe.queue
  pub bounded : length t.pipe.queue ≤ capacity
  pub capacity_kept : t.pipe.capacity ≡ capacity

take-take_append : (n : ℕ) (xs ys : List ℕ) → n ≤ length xs → take n (take n xs ++ ys) ≡ take n xs
take-take_append zero xs ys h = refl
take-take_append (suc n) [] ys h = absurd (omega arith)
take-take_append (suc n) (x ∷ xs) ys h = ap (λ r. x ∷ r) (take-take_append n xs ys (omega arith))

module _ (held : List ℕ) (capacity : ℕ) (t : Traffic) (v : IsQueue held capacity t) where
  after_reading : List ℕ → Traffic
  after_reading buf =
      let n = min (length buf) (length t.pipe.queue) in
      record t {
        delivered = t.delivered ++ take n t.pipe.queue;
        pipe = record t.pipe { queue = drop n t.pipe.queue };
      }

  step-read : (buf : List ℕ) → step (read_into buf) t ≡ some (after_reading buf)
  unfolding step after_reading
  step-read buf =
      let n = min (length buf) (length t.pipe.queue) in
      rw (read_lem buf t.pipe, take-take_append n t.pipe.queue (drop n buf) (omega arith))

  after_reading-IsQueue : (buf : List ℕ) → IsQueue held capacity (after_reading buf)
  unfolding after_reading
  after_reading-IsQueue buf =
      let n = min (length buf) (length t.pipe.queue) in
      record {
        in_order =
            rw
              (
                append_assoc t.delivered (take n t.pipe.queue) (drop n t.pipe.queue),
                take-append-drop n t.pipe.queue,
              )
              v.in_order;
        bounded = omega (arith, length-drop n t.pipe.queue, v.bounded);
        capacity_kept = v.capacity_kept;
      }

  write-IsQueue :
      (buf : List ℕ)
      → let (r, p) = write write_end buf t.pipe in
        IsQueue held capacity (record t { accepted = t.accepted ++ counted r buf; pipe = p })
  write-IsQueue buf = elim (Bool-cases t.pipe.read_closed) [
    | inl closed ↦
        rw (write_broken buf t.pipe closed, append-nil t.accepted)
          (record { in_order = v.in_order; bounded = v.bounded; capacity_kept = v.capacity_kept })
    | inr open_ ↦
        let n = min (length buf) (t.pipe.capacity - length t.pipe.queue) in
        rw (write_lem buf t.pipe open_) (record {
          in_order = rw (
            ← append_assoc held t.accepted (take n buf),
            v.in_order,
            append_assoc t.delivered t.pipe.queue (take n buf),
          );
          bounded = omega (
            arith,
            length-append t.pipe.queue (take n buf),
            length-take n buf,
            v.bounded,
            v.capacity_kept,
          );
          capacity_kept = v.capacity_kept;
        })
  ]

  drop_end-IsQueue : (e : PipeEnd) → IsQueue held capacity (record t { pipe = drop_end e t.pipe })
  unfolding drop_end
  drop_end-IsQueue read_end = record {
    in_order = v.in_order;
    bounded = v.bounded;
    capacity_kept = v.capacity_kept;
  }
  drop_end-IsQueue write_end = record {
    in_order = v.in_order;
    bounded = v.bounded;
    capacity_kept = v.capacity_kept;
  }

  step-IsQueue : (op : Op) → (u : Traffic) × (step op t ≡ some u) × IsQueue held capacity u
  step-IsQueue (read_into buf) = (after_reading buf, step-read buf, after_reading-IsQueue buf)
  step-IsQueue (write_from buf) = unfold step in (_, refl, write-IsQueue buf)
  step-IsQueue (close e) = unfold step in (_, refl, drop_end-IsQueue e)

run-keeps :
    (held : List ℕ) (capacity : ℕ) (ops : List Op) (t : Traffic)
    → IsQueue held capacity t
    → (u : Traffic) × (run ops t ≡ some u) × IsQueue held capacity u
unfolding run
run-keeps held capacity [] t v = (t, refl, v)
run-keeps held capacity (op ∷ ops) t v =
    let (u, e, w) = step-IsQueue held capacity t v op in
    let (final, f, x) = run-keeps held capacity ops u w in (final, rw e f, x)

-- From a pipe within its capacity, any sequence of reads, writes and closes runs without a panic;
-- the bytes delivered followed by those left are the bytes held at first followed by those
-- accepted, and the pipe never holds more than its capacity, which stays what it was.
pub run-IsQueue :
    (p : PipeBuffer) (ops : List Op)
    → length p.queue ≤ p.capacity
    → (u : Traffic) × (run ops (record { delivered = []; accepted = []; pipe = p }) ≡ some u)
      × IsQueue p.queue p.capacity u
run-IsQueue p ops h =
    run-keeps p.queue p.capacity ops (record { delivered = []; accepted = []; pipe = p })
      (record { in_order = append-nil p.queue; bounded = h; capacity_kept = refl })
