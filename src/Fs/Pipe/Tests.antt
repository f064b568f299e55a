-- ===== src/Fs/Pipe/Tests.antt =====
-- The functions of pipe.rs at concrete rings, and the theorems about them applied there.
use r_corev.Prelude.{◌≡◌, refl, true, false, some, List, [], ◌∷◌, replicate, ok, arith, set}
use r_corev.Mm.UserBuffer.{UserBuffer, into_iter, next}
use r_corev.Fs.Pipe.{
  normal, empty, PipeRingBuffer, Pipe, make_pipe, Strong, Resume, blocked, read, write, read_loop,
  read_for, available_read, read_byte, all_write_ends_closed,
}
use r_corev.Fs.Pipe.Ring.{IsValid, contents, Op, put, get, run, queue_run, run_refines}
use r_corev.Fs.Pipe.Read.{Reads, read_lem}
use r_corev.Fs.Pipe.Write.{Writes, write_lem}

-- 7 at the last place, then 8 at the first.
abbrev wrapped : PipeRingBuffer
wrapped = record {
  arr = 8 ∷ set (replicate 31 0) 30 7;
  head = 31;
  tail = 1;
  status = normal;
  write_end = some 5;
}

abbrev three : PipeRingBuffer
three = record {
  arr = 1 ∷ 2 ∷ 3 ∷ replicate 29 0;
  head = 0;
  tail = 3;
  status = normal;
  write_end = some 5;
}

abbrev open_end : Strong
open_end w = 1

abbrev user : UserBuffer
user = record { buffers = (0 ∷ []) ∷ (0 ∷ 0 ∷ []) ∷ [] }

abbrev text : UserBuffer
text = record { buffers = (65 ∷ []) ∷ (66 ∷ 67 ∷ []) ∷ [] }

abbrev schedule : List Resume
schedule = record { ring = three; strong = open_end } ∷ []

abbrev reader : Pipe
reader = record { readable = true; writable = false; buffer = 1 }

abbrev writer : Pipe
writer = record { readable = false; writable = true; buffer = 1 }

wrapped-IsValid : IsValid wrapped
wrapped-IsValid = record {
  places = refl;
  head_in = omega arith;
  tail_in = omega arith;
  status_fits = omega arith;
}

three-IsValid : IsValid three
three-IsValid = record {
  places = refl;
  head_in = omega arith;
  tail_in = omega arith;
  status_fits = omega arith;
}

contents-wrapped : contents wrapped ≡ 7 ∷ 8 ∷ []
unfolding available_read
contents-wrapped = refl

abbrev script : List Op
script = get ∷ put 9 ∷ get ∷ get ∷ get ∷ []

run_refines_example : run wrapped script ≡ queue_run (7 ∷ 8 ∷ []) script
unfolding available_read
run_refines_example = run_refines script wrapped-IsValid

-- Two bytes fill two thirds of the buffer; the third comes after a suspension.
read_lem_example :
    Reads 5 open_end schedule
      (record { it = into_iter user; ring = wrapped; size = 0 })
      (read 4 schedule open_end reader wrapped user)
read_lem_example =
    read_lem 4 schedule open_end reader wrapped user 5 refl wrapped-IsValid refl (omega arith)
      (three-IsValid, refl, tt) (omega arith)

write_lem_example :
    Writes schedule
      (record { it = into_iter text; ring = wrapped; size = 0 })
      (write 4 schedule writer wrapped text)
write_lem_example =
    write_lem 4 schedule writer wrapped text refl wrapped-IsValid (omega arith) (three-IsValid, tt)
      (omega arith)

-- Two bytes are asked for and two are in the ring: the call does not return.
abbrev two_places : UserBuffer
two_places = record { buffers = (0 ∷ 0 ∷ []) ∷ [] }

read_exact_sleeps :
    read 9 [] open_end reader wrapped two_places
    ≡ ok (
        blocked 2
          (record { buffers = (7 ∷ 8 ∷ []) ∷ []; current_buffer = 1; current_idx = 0 })
          (record wrapped { head = 1; status = empty }))
unfolding read read_loop read_for available_read read_byte all_write_ends_closed into_iter next
read_exact_sleeps = refl

-- The two ends are one-way.
make_pipe_ends : ((make_pipe 1 2).0 ≡ reader) × ((make_pipe 1 2).1 ≡ writer)
unfolding make_pipe
make_pipe_ends = (refl, refl)
