-- ===== src/Vfs/Pipe/Tests.antt =====
-- Runs of a pipe of four bytes and of a named pipe, and the theorems at such states.
use watos.Common.{ℕ, ◌≡◌, refl, true, false, some, List, [], ◌∷◌, arith}
use watos.Vfs.Pipe
use watos.Vfs.Pipe.{PipeBuffer, PipeEnd, read_end, write_end, with_capacity}
use watos.Vfs.Pipe.Fifo.{Op, read_into, write_from, close, Traffic, run, IsQueue, run-IsQueue, step}
use watos.Vfs.Pipe.Named.{NamedPipe, new, open_read}
use watos.Vfs.Pipe.Named.Ends.{Reach, here, next, opens_read, IsOpen, Reach-IsOpen}

abbrev blank : List ℕ
blank = 0 ∷ 0 ∷ 0 ∷ []

abbrev two_bytes : PipeBuffer
two_bytes = record { queue = 7 ∷ 8 ∷ []; capacity = 4; write_closed = false; read_closed = false }

abbrev script : List Op
script = write_from (1 ∷ 2 ∷ 3 ∷ []) ∷ read_into blank ∷ close read_end ∷ write_from (9 ∷ []) ∷ []

run-script :
    run script (record { delivered = []; accepted = []; pipe = two_bytes })
    ≡ some (record {
      delivered = 7 ∷ 8 ∷ 1 ∷ [];
      accepted = 1 ∷ 2 ∷ [];
      pipe = record two_bytes { queue = 2 ∷ []; read_closed = true };
    })
unfolding run step Pipe.read Pipe.write Pipe.drop_end Pipe.read_pipe Pipe.write_pipe Pipe.fill
run-script = refl

run-IsQueue_example :
    (u : Traffic) × (run script (record { delivered = []; accepted = []; pipe = two_bytes })
      ≡ some u)
    × IsQueue (7 ∷ 8 ∷ []) 4 u
run-IsQueue_example = run-IsQueue two_bytes script (omega arith)

abbrev one_reader : NamedPipe
one_reader = open_read new

one_reader_count : one_reader.readers ≡ 1
unfolding open_read new
one_reader_count = refl

new_count : new.readers ≡ 0
unfolding new
new_count = refl

reach_reader : Reach new one_reader
reach_reader = next here (opens_read new (omega (arith, new_count)))

Reach-IsOpen_example : IsOpen one_reader
Reach-IsOpen_example = Reach-IsOpen reach_reader
