-- ===== src/Vfs/Pipe/Named.antt =====
-- Named pipes of crates/storage/vfs/src/pipe.rs: a buffer with counts of its open ends. The counts
-- are `usize`.
pub mod Ends
use watos.Common.{
  ℕ, zero, suc, ◌+◌, ◌-◌, ◌*◌, ◌/◌, ◌%◌, ◌^◌, ◌≤◌, ◌<◌, min, max, bit_and, bit_or, ◌≡◌, refl, sym,
  ap, ◌∙◌, ◌≢◌, ◌↔◌, ◌⊎◌, inl, inr, Bool, true, false, ◌&&◌, ◌||◌, not, Option, none, some, List,
  [], ◌∷◌, ◌++◌, map, append-nil, append_assoc, arith, ltb, leb, ◌==◌, if◌then◌else◌, ltb→lt,
  ==_iff, Bool-cases, Option-cases, length, get_elem?, get_or, set, take, drop, replicate,
  length-append, length-set, length-replicate, length-take, length-drop, take-append-drop,
  get_or-set_self, get_or-set_ne, get_or-replicate, set-out, sub_u64, add_u64,
}
use watos.Vfs.Types.{
  VfsResult, ok, err, permission_denied, invalid_argument, FileStat, fifo, default_stat,
}
use watos.Vfs.Pipe.{
  PipeBuffer, PipeEnd, Reply, read_end, write_end, with_capacity, pipe_buf_size, read_pipe,
  write_pipe, available_data, available_space,
}

pub record NamedPipe : Type 0 where
  pub buffer : PipeBuffer
  pub readers : ℕ
  pub writers : ℕ

unfoldable pub new : NamedPipe
unfolding with_capacity
new = record { buffer = with_capacity pipe_buf_size; readers = 0; writers = 0 }

unfoldable pub open_read : NamedPipe → NamedPipe
open_read p = record {
  buffer = record (p.buffer) { read_closed = false };
  readers = add_u64 p.readers 1;
  writers = p.writers;
}

unfoldable pub open_write : NamedPipe → NamedPipe
open_write p = record {
  buffer = record (p.buffer) { write_closed = false };
  readers = p.readers;
  writers = add_u64 p.writers 1;
}

-- `Drop` of a read end: the last one closes the read side.
unfoldable pub drop_read : NamedPipe → NamedPipe
drop_read p =
    let count = sub_u64 p.readers 1 in
    record p {
      buffer = if count == 0 then record (p.buffer) { read_closed = true } else p.buffer;
      readers = count;
    }

unfoldable pub drop_write : NamedPipe → NamedPipe
drop_write p =
    let count = sub_u64 p.writers 1 in
    record p {
      buffer = if count == 0 then record (p.buffer) { write_closed = true } else p.buffer;
      writers = count;
    }

-- `NamedPipe::stat`
unfoldable pub stat : NamedPipe → FileStat
unfolding available_data
stat p = record default_stat { file_type = fifo; size = available_data p.buffer; mode = 0o666 }

-- `NamedPipeReadEnd` and `NamedPipeWriteEnd`; the bodies are those of the anonymous ends
abbrev pub at_buffer : NamedPipe → Option Reply → Option (VfsResult ℕ × List ℕ × NamedPipe)
at_buffer p none = none
at_buffer p (some (r, buf, b)) = some (r, buf, record p { buffer = b })

unfoldable pub read : PipeEnd → List ℕ → NamedPipe → Option (VfsResult ℕ × List ℕ × NamedPipe)
read read_end buf p = at_buffer p (read_pipe buf p.buffer)
read write_end buf p = some (err permission_denied, buf, p)

unfoldable pub write : PipeEnd → List ℕ → NamedPipe → VfsResult ℕ × NamedPipe
write read_end buf p = (err permission_denied, p)
write write_end buf p = let (r, b) = write_pipe buf p.buffer in (r, record p { buffer = b })

unfoldable pub stat_end : PipeEnd → NamedPipe → VfsResult FileStat
unfolding available_data available_space
stat_end read_end p =
    ok (record default_stat { file_type = fifo; size = available_data p.buffer; mode = 0o444 })
stat_end write_end p =
    ok (record default_stat { file_type = fifo; size = available_space p.buffer; mode = 0o222 })

unfoldable pub seek : PipeEnd → VfsResult ℕ
seek e = err invalid_argument

unfoldable pub truncate : PipeEnd → VfsResult (Unit {0})
truncate e = err invalid_argument
