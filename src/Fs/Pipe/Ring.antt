-- ===== src/Fs/Pipe/Ring.antt =====
-- The ring buffer of a pipe is a bounded first-in first-out queue.
use r_corev.Prelude.{
  ℕ, zero, suc, ◌+◌, ◌%◌, ◌≤◌, ◌<◌, ◌≡◌, ◌≢◌, refl, ap, ap₂, ◌∙◌, List, [], ◌∷◌, ◌++◌, Bool, true,
  false, get_or, set, length, length-set, get_or-set_self, get_or-set_ne, arith, ltb, ◌==◌, Option,
  none, some, Bool-cases, inl, inr,
}
use r_corev.Fs.Pipe.{
  ring_buffer_size, RingBufferStatus, normal, PipeRingBuffer, new, write_byte, read_byte,
  available_read, available_write, set_write_end,
}

-- `status` tells the full ring from the empty one where the indices do not.
abbrev pub StatusFits : RingBufferStatus → ℕ → ℕ → Type 0
StatusFits normal h t = h ≢ t
StatusFits _ h t = h ≡ t

pub record IsValid (r : PipeRingBuffer) : Type 0 where
  pub places : length r.arr ≡ ring_buffer_size
  pub head_in : r.head < ring_buffer_size
  pub tail_in : r.tail < ring_buffer_size
  pub status_fits : StatusFits r.status r.head r.tail

-- The `n` bytes from index `h` on, going round at the end.
abbrev pub window : List ℕ → ℕ → ℕ → List ℕ
window arr h zero = []
window arr h (suc n) = get_or arr h 0 ∷ window arr ((h + 1) % ring_buffer_size) n

pub length-window : (arr : List ℕ) (h n : ℕ) → length (window arr h n) ≡ n
length-window arr h zero = refl
length-window arr h (suc n) = ap suc (length-window arr ((h + 1) % ring_buffer_size) n)

-- The bytes that wait in the ring, oldest first.
abbrev pub contents : PipeRingBuffer → List ℕ
contents r = window r.arr r.head (available_read r)

pub length-contents : (r : PipeRingBuffer) → length (contents r) ≡ available_read r
length-contents r = length-window r.arr r.head (available_read r)

window-set :
    (arr : List ℕ) (x n h i : ℕ)
    → length arr ≡ ring_buffer_size
    → h < ring_buffer_size
    → n < ring_buffer_size
    → i ≡ (h + n) % ring_buffer_size
    → window (set arr i x) h (suc n) ≡ window arr h n ++ (x ∷ [])
window-set arr x zero h i hs hh hn e =
    let e' : i ≡ h = omega arith in rw (e', get_or-set_self arr h x 0 (omega arith)) refl
window-set arr x (suc n) h i hs hh hn e =
    ap₂ ◌∷◌ (get_or-set_ne arr x 0 (omega arith)) (
      window-set arr x n ((h + 1) % ring_buffer_size) i hs (omega arith) (omega arith)
        (omega arith))

pub new-IsValid : IsValid new × (contents new ≡ [])
unfolding new available_read
new-IsValid = (omega arith, refl)

pub set_write_end-IsValid :
    {r : PipeRingBuffer} (w : ℕ)
    → IsValid r
    → IsValid (set_write_end r w) × (contents (set_write_end r w) ≡ contents r)
unfolding set_write_end available_read
set_write_end-IsValid w v = (
  record {
    places = v.places;
    head_in = v.head_in;
    tail_in = v.tail_in;
    status_fits = v.status_fits;
  },
  refl,
)

pub available-le : {r : PipeRingBuffer} → IsValid r → available_read r ≤ ring_buffer_size
unfolding available_read
available-le {r} v = ground arith

-- What can be written and what can be read make up the capacity.
pub available_sum :
    {r : PipeRingBuffer} → IsValid r → available_write r + available_read r ≡ ring_buffer_size
unfolding available_write available_read
available_sum {r} v = ground arith

write_byte_frame :
    {r : PipeRingBuffer} (x : ℕ)
    → IsValid r
    → available_write r ≢ 0
    → IsValid (write_byte r x)
      × (available_read (write_byte r x) ≡ suc (available_read r))
      × (r.tail ≡ (r.head + available_read r) % ring_buffer_size)
unfolding write_byte available_read available_write
write_byte_frame {r} x v h = ground (arith, length-set r.arr r.tail x)

-- A write into a ring that is not full appends the byte.
pub write_byte_lem :
    {r : PipeRingBuffer} (x : ℕ)
    → IsValid r
    → available_write r ≢ 0
    → IsValid (write_byte r x) × (contents (write_byte r x) ≡ contents r ++ (x ∷ []))
unfolding write_byte
write_byte_lem {r} x v h =
    let f = write_byte_frame x v h in
    (
      f.0,
      rw f.1 (
          window-set r.arr x (available_read r) r.head r.tail v.places v.head_in
            (ground (arith, available_sum v)) f.2),
    )

read_byte_frame :
    {r : PipeRingBuffer}
    → IsValid r
    → available_read r ≢ 0
    → IsValid (read_byte r).1
      × (available_read r ≡ suc (available_read (read_byte r).1))
      × ((read_byte r).1.head ≡ (r.head + 1) % ring_buffer_size)
unfolding read_byte available_read
read_byte_frame {r} v h = ground arith

arr-read_byte : (r : PipeRingBuffer) → (read_byte r).1.arr ≡ r.arr
unfolding read_byte
arr-read_byte r = refl

byte-read_byte : (r : PipeRingBuffer) → (read_byte r).0 ≡ get_or r.arr r.head 0
unfolding read_byte
byte-read_byte r = refl

-- A read from a ring that is not empty takes the oldest byte.
pub read_byte_lem :
    {r : PipeRingBuffer}
    → IsValid r
    → available_read r ≢ 0
    → IsValid (read_byte r).1 × (contents r ≡ (read_byte r).0 ∷ contents (read_byte r).1)
read_byte_lem {r} v h =
    let f = read_byte_frame v h in (f.0, rw (f.1, f.2, arr-read_byte r, byte-read_byte r) refl)

pub write_end-read_byte : (r : PipeRingBuffer) → (read_byte r).1.write_end ≡ r.write_end
unfolding read_byte
write_end-read_byte r = refl

-- The bounded queue that the ring stands for.
pub data Op : Type 0 where
  put : ℕ → Op
  get : Op

-- A caller that checks first, as `Pipe::read` and `Pipe::write` do. The reply is the byte that was
-- read, if there was one, and whether the call went through.
pub run : PipeRingBuffer → List Op → List (Bool × Option ℕ)
run r [] = []
run r (put x ∷ ops) = elim (available_write r == 0) [
  | true ↦ (false, none) ∷ run r ops
  | false ↦ (true, none) ∷ run (write_byte r x) ops
]
run r (get ∷ ops) = elim (available_read r == 0) [
  | true ↦ (false, none) ∷ run r ops
  | false ↦ let (x, r') = read_byte r in (true, some x) ∷ run r' ops
]

pub queue_run : List ℕ → List Op → List (Bool × Option ℕ)
queue_run q [] = []
queue_run q (put x ∷ ops) = elim (ltb (length q) ring_buffer_size) [
  | true ↦ (true, none) ∷ queue_run (q ++ (x ∷ [])) ops
  | false ↦ (false, none) ∷ queue_run q ops
]
queue_run [] (get ∷ ops) = (false, none) ∷ queue_run [] ops
queue_run (x ∷ q) (get ∷ ops) = (true, some x) ∷ queue_run q ops

-- From a valid ring, any script of checked reads and writes gets the replies of a first-in
-- first-out queue of at most 32 bytes that starts with the contents of the ring.
pub run_refines :
    (ops : List Op) {r : PipeRingBuffer} → IsValid r → run r ops ≡ queue_run (contents r) ops
unfolding run queue_run
run_refines [] v = refl
run_refines (put x ∷ ops) {r} v = elim (Bool-cases (available_write r == 0)) [
  | inl e ↦ rw (e, run, no_room e, queue_run) (ap (◌∷◌ (false, none)) (run_refines ops v))
  | inr e ↦
      let w = write_byte_lem x v (ground arith) in
      rw (e, run, room e, queue_run)
        (ap (◌∷◌ (true, none)) (run_refines ops w.0 ∙ ap (λ q. queue_run q ops) w.1))
]
  where
    no_room : (available_write r == 0) ≡ true → ltb (length (contents r)) ring_buffer_size ≡ false
    no_room e = ground (arith, length-contents r, available_sum v)

    room : (available_write r == 0) ≡ false → ltb (length (contents r)) ring_buffer_size ≡ true
    room e = ground (arith, length-contents r, available_sum v)
run_refines (get ∷ ops) {r} v = elim (Bool-cases (available_read r == 0)) [
  | inl e ↦
      let z : available_read r ≡ 0 = ground arith in
      rw (e, run, z, queue_run) (ap (◌∷◌ (false, none)) (run_refines ops v ∙ rw z refl))
  | inr e ↦
      let q = read_byte_lem v (ground arith) in
      rw (e, run, q.1, queue_run) (ap (◌∷◌ (true, some (read_byte r).0)) (run_refines ops q.0))
]
