-- ===== src/Vfs/Pipe.antt =====
-- crates/storage/vfs/src/pipe.rs: the shared buffer of a pipe, its two ends, and named pipes.
-- The lock round a buffer is not modelled: each operation runs whole. A call returns its new
-- buffer; `none` is a panic.
pub mod Effect
pub mod Fifo
pub mod Named
mod Tests
use watos.Common.{
  ℕ, zero, suc, ◌+◌, ◌-◌, ◌*◌, ◌/◌, ◌%◌, ◌^◌, ◌≤◌, ◌<◌, min, max, bit_and, bit_or, ◌≡◌, refl, sym,
  ap, ◌∙◌, ◌≢◌, ◌↔◌, ◌⊎◌, inl, inr, Bool, true, false, ◌&&◌, ◌||◌, not, Option, none, some, List,
  [], ◌∷◌, ◌++◌, map, append-nil, append_assoc, arith, ltb, leb, ◌==◌, if◌then◌else◌, ltb→lt,
  ==_iff, Bool-cases, Option-cases, length, get_elem?, get_or, set, take, drop, replicate,
  length-append, length-set, length-replicate, length-take, length-drop, take-append-drop,
  get_or-set_self, get_or-set_ne, get_or-replicate, set-out,
}
use watos.Vfs.Types.{
  VfsResult, ok, err, permission_denied, invalid_argument, io_error, FileStat, fifo, default_stat,
}

abbrev pub pipe_buf_size : ℕ
pipe_buf_size = 65536

pub record PipeBuffer : Type 0 where
  pub queue : List ℕ
  pub capacity : ℕ
  pub write_closed : Bool
  pub read_closed : Bool

unfoldable pub with_capacity : ℕ → PipeBuffer
with_capacity capacity = record {
  queue = [];
  capacity = capacity;
  write_closed = false;
  read_closed = false;
}

unfoldable pub is_empty : PipeBuffer → Bool
is_empty p = length p.queue == 0

unfoldable pub is_full : PipeBuffer → Bool
is_full p = leb p.capacity (length p.queue)

unfoldable pub available_space : PipeBuffer → ℕ
available_space p = p.capacity - length p.queue

unfoldable pub available_data : PipeBuffer → ℕ
available_data p = length p.queue

-- `for i in 0..to_read { buf[i] = pipe.data.pop_front().unwrap(); }`, with `n` rounds left, at `i`
unfoldable pub fill : ℕ → ℕ → List ℕ → List ℕ → Option (List ℕ × List ℕ)
fill zero i buf queue = some (buf, queue)
fill (suc n) i buf [] = none
fill (suc n) i buf (x ∷ queue) = fill n (i + 1) (set buf i x) queue

-- what a call of an end returns: its result, the caller's buffer, and the pipe
abbrev pub Reply : Type 0
Reply = VfsResult ℕ × List ℕ × PipeBuffer

unfoldable pub filled : PipeBuffer → ℕ → Option (List ℕ × List ℕ) → Option Reply
filled p n none = none
filled p n (some (buf, queue)) = some (ok n, buf, record p { queue = queue })

-- the body of `read` of a read end; both branches on an empty pipe return 0
unfoldable pub read_pipe : List ℕ → PipeBuffer → Option Reply
unfolding is_empty available_data filled
read_pipe buf p =
    let to_read = min (length buf) (available_data p) in
    if is_empty p
    then (if p.write_closed then some (ok 0, buf, p) else some (ok 0, buf, p))
    else filled p to_read (fill to_read 0 buf p.queue)

-- the body of `write` of a write end
unfoldable pub write_pipe : List ℕ → PipeBuffer → VfsResult ℕ × PipeBuffer
unfolding is_full available_space
write_pipe buf p =
    let to_write = min (length buf) (available_space p) in
    if p.read_closed
    then (err io_error, p)
    else if is_full p
    then (ok 0, p)
    else (ok to_write, record p { queue = p.queue ++ take to_write buf })

-- the two structs that implement `FileOperations`
pub data PipeEnd : Type 0 where
  read_end write_end : PipeEnd

unfoldable pub read : PipeEnd → List ℕ → PipeBuffer → Option Reply
read read_end buf p = read_pipe buf p
read write_end buf p = some (err permission_denied, buf, p)

unfoldable pub write : PipeEnd → List ℕ → PipeBuffer → VfsResult ℕ × PipeBuffer
write read_end buf p = (err permission_denied, p)
write write_end buf p = write_pipe buf p

unfoldable pub stat : PipeEnd → PipeBuffer → VfsResult FileStat
unfolding available_data available_space
stat read_end p =
    ok (record default_stat { file_type = fifo; size = available_data p; mode = 0o444 })
stat write_end p =
    ok (record default_stat { file_type = fifo; size = available_space p; mode = 0o222 })

-- `seek`, `truncate`, `tell` and `sync` of both ends
unfoldable pub seek : PipeEnd → VfsResult ℕ
seek e = err invalid_argument

unfoldable pub truncate : PipeEnd → VfsResult (Unit {0})
truncate e = err invalid_argument

unfoldable pub tell : PipeEnd → ℕ
tell e = 0

unfoldable pub sync : PipeEnd → VfsResult (Unit {0})
sync e = ok tt

-- `Drop` of an end
unfoldable pub drop_end : PipeEnd → PipeBuffer → PipeBuffer
drop_end read_end p = record p { read_closed = true }
drop_end write_end p = record p { write_closed = true }
