-- ===== src/Fs/Pipe.antt =====
-- os/src/fs/pipe.rs: a byte queue of 32 places with a read end and a write end.
-- The shared `Arc<Mutex<PipeRingBuffer>>` is passed as a state. `strong` gives the number of strong
-- references to an `Arc` by its address. While a task is suspended others change the ring: the
-- schedule lists what the task finds each time it runs again, and a task whose schedule is used up
-- is still suspended.
pub mod Ring
pub mod Read
pub mod Write
mod Tests
use r_corev.Prelude.{
  ℕ, zero, suc, ◌+◌, ◌-◌, ◌%◌, Bool, true, false, Option, none, some, List, [], ◌∷◌, get_or, set,
  replicate, ltb, ◌==◌, if◌then◌else◌, Run, ok, ◌>>=◌, ◌>>◌, assert, unwrap,
}
use r_corev.Mm.UserBuffer.{UserBuffer, UserBufferIterator, load, store, next, into_iter}

abbrev pub ring_buffer_size : ℕ
ring_buffer_size = 32

pub data RingBufferStatus : Type 0 where
  full empty normal : RingBufferStatus

abbrev pub is_full : RingBufferStatus → Bool
is_full full = true
is_full _ = false

abbrev pub is_empty : RingBufferStatus → Bool
is_empty empty = true
is_empty _ = false

-- `write_end` is the address of the write end that the weak reference names.
pub record PipeRingBuffer : Type 0 where
  pub arr : List ℕ
  pub head : ℕ
  pub tail : ℕ
  pub status : RingBufferStatus
  pub write_end : Option ℕ

unfoldable pub new : PipeRingBuffer
new = record {
  arr = replicate ring_buffer_size 0;
  head = 0;
  tail = 0;
  status = empty;
  write_end = none;
}

unfoldable pub set_write_end : PipeRingBuffer → ℕ → PipeRingBuffer
set_write_end r w = record r { write_end = some w }

unfoldable pub write_byte : PipeRingBuffer → ℕ → PipeRingBuffer
write_byte r byte =
    let tail' = (r.tail + 1) % ring_buffer_size in
    record r {
      arr = set r.arr r.tail byte;
      tail = tail';
      status = if tail' == r.head then full else normal;
    }

unfoldable pub read_byte : PipeRingBuffer → ℕ × PipeRingBuffer
read_byte r =
    let head' = (r.head + 1) % ring_buffer_size in
    (
      get_or r.arr r.head 0,
      record r { head = head'; status = if head' == r.tail then empty else normal },
    )

unfoldable pub available_read : PipeRingBuffer → ℕ
available_read r =
    if is_empty r.status
    then 0
    else if ltb r.head r.tail
    then r.tail - r.head
    else r.tail + ring_buffer_size - r.head

unfoldable pub available_write : PipeRingBuffer → ℕ
unfolding available_read
available_write r = if is_full r.status then 0 else ring_buffer_size - available_read r

abbrev pub Strong : Type 0
Strong = ℕ → ℕ

unfoldable pub all_write_ends_closed : Strong → PipeRingBuffer → Run Bool
all_write_ends_closed strong r = do w ← unwrap r.write_end; ok (strong w == 0)

-- `buffer` is the address of the ring that both ends share.
pub record Pipe : Type 0 where
  pub readable : Bool
  pub writable : Bool
  pub buffer : ℕ

unfoldable pub read_end_with_buffer : ℕ → Pipe
read_end_with_buffer b = record { readable = true; writable = false; buffer = b }

unfoldable pub write_end_with_buffer : ℕ → Pipe
write_end_with_buffer b = record { readable = false; writable = true; buffer = b }

-- `b` and `w` are the addresses that the allocator gives to the ring and to the write end.
unfoldable pub make_pipe : ℕ → ℕ → Pipe × Pipe × PipeRingBuffer
unfolding read_end_with_buffer write_end_with_buffer new set_write_end
make_pipe b w = (read_end_with_buffer b, write_end_with_buffer b, set_write_end new w)

pub record Resume : Type 0 where
  pub ring : PipeRingBuffer
  pub strong : Strong

pub data Outcome : Type 0 where
  returned : ℕ → UserBufferIterator → PipeRingBuffer → List Resume → Outcome
  blocked : ℕ → UserBufferIterator → PipeRingBuffer → Outcome
  out_of_fuel : Outcome

-- The state of a transfer: the iterator, the ring and the bytes moved so far.
pub record Transfer : Type 0 where
  pub it : UserBufferIterator
  pub ring : PipeRingBuffer
  pub size : ℕ

-- `for _ in 0..loop_read`; `true` means that the buffer was used up.
unfoldable pub read_for : ℕ → Transfer → Run (Bool × Transfer)
read_for zero t = ok (false, t)
read_for (suc k) t = do
  (place, it') ← next t.it
  elim place [
    | none ↦ ok (true, record t { it = it' })
    | some p ↦
        let (byte, ring') = read_byte t.ring in
        read_for k (record { it = store it' p byte; ring = ring'; size = t.size + 1 })
  ]

unfoldable pub read_loop : ℕ → List Resume → Strong → Transfer → Run Outcome
read_loop zero schedule strong t = ok out_of_fuel
read_loop (suc f) schedule strong t =
    if available_read t.ring == 0
    then (do
      closed ← all_write_ends_closed strong t.ring
      if closed then ok (returned t.size t.it t.ring schedule) else elim schedule [
        | [] ↦ ok (blocked t.size t.it t.ring)
        | r ∷ rs ↦ read_loop f rs r.strong (record t { ring = r.ring })
      ])
    else (do
      (done, t') ← read_for (available_read t.ring) t
      if done then ok (returned t'.size t'.it t'.ring schedule) else read_loop f schedule strong t')

unfoldable pub read : ℕ → List Resume → Strong → Pipe → PipeRingBuffer → UserBuffer → Run Outcome
read fuel schedule strong p ring buf = do
  assert p.readable
  read_loop fuel schedule strong (record { it = into_iter buf; ring = ring; size = 0 })

unfoldable pub write_for : ℕ → Transfer → Run (Bool × Transfer)
write_for zero t = ok (false, t)
write_for (suc k) t = do
  (place, it') ← next t.it
  elim place [
    | none ↦ ok (true, record t { it = it' })
    | some p ↦
        write_for k (record { it = it'; ring = write_byte t.ring (load it' p); size = t.size + 1 })
  ]

unfoldable pub write_loop : ℕ → List Resume → Transfer → Run Outcome
write_loop zero schedule t = ok out_of_fuel
write_loop (suc f) schedule t =
    if available_write t.ring == 0
    then elim schedule [
      | [] ↦ ok (blocked t.size t.it t.ring)
      | r ∷ rs ↦ write_loop f rs (record t { ring = r.ring })
    ]
    else (do
      (done, t') ← write_for (available_write t.ring) t
      if done then ok (returned t'.size t'.it t'.ring schedule) else write_loop f schedule t')

unfoldable pub write : ℕ → List Resume → Pipe → PipeRingBuffer → UserBuffer → Run Outcome
write fuel schedule p ring buf = do
  assert p.writable
  write_loop fuel schedule (record { it = into_iter buf; ring = ring; size = 0 })
