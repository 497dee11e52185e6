-- ===== src/Vfs/Pipe/Named/Ends.antt =====
-- The counts of open ends of a named pipe, over every sequence of opens, drops, reads and writes.
use watos.Common.{
  ℕ, ◌+◌, ◌-◌, ◌^◌, ◌<◌, min, ◌≡◌, refl, true, false, ◌&&◌, some, List, ◌++◌, arith, ltb, ◌==◌,
  length, take, drop, sub_u64,
}
use watos.Vfs.Types.{VfsResult, ok, err, io_error}
use watos.Vfs.Pipe.{PipeBuffer, PipeEnd, read_end, write_end, read_pipe, write_pipe}
use watos.Vfs.Pipe
use watos.Vfs.Pipe.Effect.{read_lem, write_lem, write_broken}
use watos.Vfs.Pipe.Named.{
  NamedPipe, new, open_read, open_write, drop_read, drop_write, read, write, at_buffer,
}

-- What the processes can do: an end is dropped only by one that holds it, and each open end takes
-- memory, so that the counts do not wrap. A read or write goes through an end that is open.
pub data Step : NamedPipe → NamedPipe → Type 0 where
  opens_read : (p : NamedPipe) → p.readers + 1 < 2 ^ 64 → Step p (open_read p)
  opens_write : (p : NamedPipe) → p.writers + 1 < 2 ^ 64 → Step p (open_write p)
  drops_read : (p : NamedPipe) → 0 < p.readers → Step p (drop_read p)
  drops_write : (p : NamedPipe) → 0 < p.writers → Step p (drop_write p)
  reads :
      (p q : NamedPipe) (buf out : List ℕ) (r : VfsResult ℕ)
      → 0 < p.readers
      → read read_end buf p ≡ some (r, out, q)
      → Step p q
  writes : (p : NamedPipe) (buf : List ℕ) → 0 < p.writers → Step p (write write_end buf p).1

pub data Reach (p : NamedPipe) : NamedPipe → Type 0 where
  here : Reach p p
  next : {q r : NamedPipe} → Reach p q → Step q r → Reach p r

-- A side that is marked closed has no open end, and the counts fit.
pub record IsOpen (p : NamedPipe) : Type 0 where
  pub read_side : (p.buffer.read_closed && ltb 0 p.readers) ≡ false
  pub write_side : (p.buffer.write_closed && ltb 0 p.writers) ≡ false
  pub few_readers : p.readers < 2 ^ 64
  pub few_writers : p.writers < 2 ^ 64

new-IsOpen : IsOpen new
unfolding new
new-IsOpen = ground arith

-- A read changes the queue alone.
read-IsOpen :
    (p q : NamedPipe) (buf out : List ℕ) (r : VfsResult ℕ)
    → IsOpen p
    → read read_end buf p ≡ some (r, out, q)
    → IsOpen q
unfolding read Pipe.read
read-IsOpen p q buf out r v e =
    let n = min (length buf) (length p.buffer.queue) in
    let e' : at_buffer p (
          some (
            ok n,
            take n p.buffer.queue ++ drop n buf,
            record (p.buffer) { queue = drop n p.buffer.queue },
          ))
        ≡ some (r, out, q) =
      rw (read_lem buf p.buffer) at e in
    ground (arith, e')

Step-IsOpen : {p q : NamedPipe} → Step p q → IsOpen p → IsOpen q
unfolding open_read open_write drop_read drop_write write write_pipe
Step-IsOpen (opens_read p h) v = ground arith
Step-IsOpen (opens_write p h) v = ground arith
Step-IsOpen (drops_read p h) v = ground arith
Step-IsOpen (drops_write p h) v = ground arith
Step-IsOpen (reads p q buf out r h e) v = read-IsOpen p q buf out r v e
Step-IsOpen (writes p buf h) v = ground arith

-- Of a named pipe reachable from a new one by opens, drops, reads and writes through open ends,
-- while the counts of ends stay below 2^64: a side that is marked closed has no open end, and the
-- counts fit 64 bits.
pub Reach-IsOpen : {p : NamedPipe} → Reach new p → IsOpen p
Reach-IsOpen here = new-IsOpen
Reach-IsOpen (next r s) = Step-IsOpen s (Reach-IsOpen r)

-- While a reader is open, a write through the write end to a named pipe reachable from a new one
-- does not fail: it takes as many bytes as there is room for.
pub Reach-write :
    {p : NamedPipe} (buf : List ℕ)
    → Reach new p
    → 0 < p.readers
    → (write write_end buf p).0 ≡ ok (min (length buf) (p.buffer.capacity - length p.buffer.queue))
unfolding write Pipe.write
Reach-write {p} buf r h =
    let open_ : p.buffer.read_closed ≡ false = ground (arith, (Reach-IsOpen r).read_side) in
    ground (arith, write_lem buf p.buffer open_)

-- Once the only reader is dropped, a write fails; when a reader opens the pipe again, a write takes as
-- many bytes as there is room for.
pub drop_last :
    (p : NamedPipe) (buf : List ℕ)
    → p.readers ≡ 1
    → ((write write_end buf (drop_read p)).0 ≡ err io_error)
      × ((write write_end buf (open_read (drop_read p))).0
          ≡ ok (min (length buf) (p.buffer.capacity - length p.buffer.queue)))
unfolding write drop_read open_read Pipe.write
drop_last p buf e =
    let last : (sub_u64 p.readers 1 == 0) ≡ true = ground arith in
    rw last (
      ground (arith, write_broken buf (record (p.buffer) { read_closed = true }) refl),
      ground (arith, write_lem buf (record (p.buffer) { read_closed = false }) refl),
    )
