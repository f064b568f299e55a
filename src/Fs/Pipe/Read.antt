-- ===== src/Fs/Pipe/Read.antt =====
-- `Pipe::read`: what reaches the user's buffer across suspensions.
use r_corev.Prelude.{
  ℕ, zero, suc, ◌+◌, ◌*◌, ◌≤◌, ◌<◌, ◌≡◌, ◌≢◌, refl, ap, ◌∙◌, sym, ◌⊎◌, inl, inr, List, [], ◌∷◌,
  ◌++◌, Bool, true, false, some, length, length-append, append_assoc, append-nil, arith, ◌==◌,
  if◌then◌else◌, Bool-cases, Run, ok, panic,
}
use r_corev.Mm.UserBuffer.{UserBuffer, UserBufferIterator, store, into_iter}
use r_corev.Mm.UserBuffer.Walk.{
  AllNonEmpty, rest, passed, IsAt, here, Advanced, next-cases, into_iter-IsAt,
}
use r_corev.Fs.Pipe.{
  PipeRingBuffer, available_read, read_byte, all_write_ends_closed, Strong, Resume, Outcome,
  returned, blocked, Transfer, read_for, read_loop, read, Pipe, out_of_fuel,
}
use r_corev.Fs.Pipe.Ring.{IsValid, contents, length-contents, read_byte_lem, write_end-read_byte}

-- A transfer that can go on: the ring is valid and the iterator stands at a byte or at the end.
pub record IsReady (t : Transfer) : Type 0 where
  pub ring_valid : IsValid t.ring
  pub at : IsAt t.it

-- From `t` to `t'` the bytes `xs` went from the front of the ring to the user's buffer.
pub record Took (xs : List ℕ) (t t' : Transfer) : Type 0 where
  pub ready : IsReady t'
  pub source : contents t.ring ≡ xs ++ contents t'.ring
  pub target : passed t'.it ≡ passed t.it ++ xs
  pub room : length (rest t.it) ≡ length xs + length (rest t'.it)
  pub count : t'.size ≡ t.size + length xs
  pub same_end : t'.ring.write_end ≡ t.ring.write_end

Took-refl : {t : Transfer} → IsReady t → Took [] t t
Took-refl {t} v = record {
  ready = v;
  source = refl;
  target = sym (append-nil (passed t.it));
  room = omega arith;
  count = omega arith;
  same_end = refl;
}

Took-trans : {xs ys : List ℕ} {t u w : Transfer} → Took xs t u → Took ys u w → Took (xs ++ ys) t w
Took-trans {xs} {ys} {t} {u} {w} p q = record {
  ready = q.ready;
  source = p.source ∙ ap (◌++◌ xs) q.source ∙ sym (append_assoc xs ys (contents w.ring));
  target = q.target ∙ ap (λ l. l ++ ys) p.target ∙ append_assoc (passed t.it) xs ys;
  room = omega (arith, p.room, q.room, length-append xs ys);
  count = omega (arith, p.count, q.count, length-append xs ys);
  same_end = q.same_end ∙ p.same_end;
}

-- The outcome of the `for` loop over `k` bytes: it stops early when the buffer is used up.
record ForResult (k : ℕ) (t : Transfer) (r : Run (Bool × Transfer)) : Type 0 where
  done : Bool
  after : Transfer
  bytes : List ℕ
  result : r ≡ ok (done, after)
  took : Took bytes t after
  early : done ≡ true → (rest after.it ≡ []) × (length bytes < k)
  whole : done ≡ false → length bytes ≡ k

-- One byte: the head of the ring goes to the place that the iterator yields.
Took-one :
    {t : Transfer} (it' : UserBufferIterator)
    → IsReady t
    → Advanced t.it it'
    → available_read t.ring ≢ 0
    → let (byte, ring') = read_byte t.ring in
      Took
        (byte ∷ [])
        t
        (record { it = store it' (here t.it) byte; ring = ring'; size = t.size + 1 })
Took-one {t} it' v a h =
    let q = read_byte_lem v.ring_valid h in
    let m = a.written (read_byte t.ring).0 in
    record {
      ready = record { ring_valid = q.0; at = m.0 };
      source = q.1;
      target = m.1;
      room = omega (arith, ap length m.2);
      count = omega arith;
      same_end = write_end-read_byte t.ring;
    }

ForResult-next :
    {k : ℕ} {t u : Transfer} {x : ℕ} {r : Run (Bool × Transfer)}
    → Took (x ∷ []) t u
    → ForResult k u r
    → ForResult (suc k) t r
ForResult-next {x} p f = record {
  done = f.done;
  after = f.after;
  bytes = x ∷ f.bytes;
  result = f.result;
  took = Took-trans p f.took;
  early = λ e. ((f.early e).0, omega (arith, f.early e));
  whole = λ e. ap suc (f.whole e);
}

read_for_lem :
    (k : ℕ) (t : Transfer) → IsReady t → k ≤ available_read t.ring → ForResult k t (read_for k t)
unfolding read_for
read_for_lem zero t v h = record {
  done = false;
  after = t;
  bytes = [];
  result = refl;
  took = Took-refl v;
  early = λ e. cc;
  whole = λ e. refl;
}
read_for_lem (suc k) t v h = elim (next-cases t.it v.at) [
  | inl (e, n) ↦ rw n (record {
    done = true;
    after = t;
    bytes = [];
    result = refl;
    took = Took-refl v;
    early = λ _. (e, omega arith);
    whole = λ e. cc;
  })
  | inr (it', n, a) ↦
      let p = Took-one it' v a (omega arith) in
      rw n (
        ForResult-next p (
          read_for_lem k _ p.ready
            (omega (arith, ap length p.source, length-contents t.ring, length-contents _))))
]

-- The bytes that others put into the ring over the schedule: `read` sleeps on an empty ring only.
abbrev pub resumed : List Resume → List ℕ
resumed [] = []
resumed (r ∷ rs) = contents r.ring ++ resumed rs

abbrev pub stream : PipeRingBuffer → List Resume → List ℕ
stream ring rs = contents ring ++ resumed rs

-- Each ring that the task wakes up to is valid, and its write end is `w`.
abbrev pub AllResumed : ℕ → List Resume → Type 0
AllResumed w [] = Unit {0}
AllResumed w (r ∷ rs) = IsValid r.ring × (r.ring.write_end ≡ some w) × AllResumed w rs

-- At some moment of the schedule the write ends are all closed.
abbrev pub Closed : ℕ → Strong → List Resume → Type 0
Closed w strong [] = strong w ≡ 0
Closed w strong (r ∷ rs) = (strong w ≡ 0) ⊎ Closed w r.strong rs

-- What `read` must do: the bytes go over in order, none is lost or made up, and it returns only
-- with a full buffer while more bytes wait, or from an empty ring that nobody can write to. Else it sleeps.
abbrev pub Reads : ℕ → Strong → List Resume → Transfer → Run Outcome → Type 0
Reads w strong rs t (ok (returned n it ring left)) =
    (xs : List ℕ) × (stream t.ring rs ≡ xs ++ stream ring left)
    × (passed it ≡ passed t.it ++ xs)
    × (n ≡ t.size + length xs)
    × ((rest it ≡ []) × (contents ring ≢ []) ⊎ (contents ring ≡ []) × Closed w strong rs)
Reads w strong rs t (ok (blocked n it ring)) =
    (passed it ≡ passed t.it ++ stream t.ring rs)
    × (n ≡ t.size + length (stream t.ring rs))
    × (contents ring ≡ [])
    × (¬ Closed w strong rs)
Reads w strong rs t _ = ⊥

Reads-Took :
    (w : ℕ) (strong : Strong) (rs : List Resume) {xs : List ℕ} {t u : Transfer} (r : Run Outcome)
    → Took xs t u
    → Reads w strong rs u r
    → Reads w strong rs t r
Reads-Took w strong rs {xs} {t} {u} (ok (returned n it ring left)) p (ys, s, g, c, e) = (
  xs ++ ys,
  ap (λ l. l ++ resumed rs) p.source
      ∙ append_assoc xs (contents u.ring) (resumed rs)
      ∙ ap (◌++◌ xs) s
      ∙ sym (append_assoc xs ys (stream ring left)),
  g ∙ ap (λ l. l ++ ys) p.target ∙ append_assoc (passed t.it) xs ys,
  omega (arith, p.count, c, length-append xs ys),
  e,
)
Reads-Took w strong rs {xs} {t} {u} (ok (blocked n it ring)) p (g, c, e, o) =
    let s : stream t.ring rs ≡ xs ++ stream u.ring rs =
      ap (λ l. l ++ resumed rs) p.source ∙ append_assoc xs (contents u.ring) (resumed rs) in
    (
      g
          ∙ ap (λ l. l ++ stream u.ring rs) p.target
          ∙ append_assoc (passed t.it) xs (stream u.ring rs)
          ∙ ap (◌++◌ (passed t.it)) (sym s),
      omega (arith, p.count, c, ap length s, length-append xs (stream u.ring rs)),
      e,
      o,
    )
Reads-Took w strong rs (ok out_of_fuel) p e = e
Reads-Took w strong rs panic p e = e

-- Waking up to a new ring.
Reads-resume :
    (w : ℕ) (strong : Strong) (rs : List Resume) (t : Transfer) (r : Resume) (o : Run Outcome)
    → contents t.ring ≡ []
    → strong w ≢ 0
    → Reads w r.strong rs (record t { ring = r.ring }) o
    → Reads w strong (r ∷ rs) t o
Reads-resume w strong rs t r (ok (returned n it ring left)) z a (ys, s, g, c, inl e) =
    (ys, rw z s, g, c, inl e)
Reads-resume w strong rs t r (ok (returned n it ring left)) z a (ys, s, g, c, inr (e, k)) =
    (ys, rw z s, g, c, inr (e, inr k))
Reads-resume w strong rs t r (ok (blocked n it ring)) z a (g, c, e, o) =
    (rw z g, rw z c, e, λ k. elim k [ inl b ↦ a b | inr b ↦ o b ])
Reads-resume w strong rs t r (ok out_of_fuel) z a e = e
Reads-resume w strong rs t r panic z a e = e

closed_test :
    (strong : Strong) (ring : PipeRingBuffer) (w : ℕ)
    → ring.write_end ≡ some w
    → all_write_ends_closed strong ring ≡ ok (strong w == 0)
unfolding all_write_ends_closed
closed_test strong ring w e = rw e refl

empty_contents : (r : PipeRingBuffer) → available_read r ≡ 0 → contents r ≡ []
empty_contents r e = rw e refl

rounds : Transfer → ℕ
rounds t = if available_read t.ring == 0 then 1 else 2

Closed-now : (w : ℕ) (strong : Strong) (rs : List Resume) → strong w ≡ 0 → Closed w strong rs
Closed-now w strong [] h = h
Closed-now w strong (r ∷ rs) h = inl h

returned_now :
    (w : ℕ) (strong : Strong) (rs : List Resume) (t : Transfer)
    → available_read t.ring ≡ 0
    → strong w ≡ 0
    → Reads w strong rs t (ok (returned t.size t.it t.ring rs))
returned_now w strong rs t z c = (
  [],
  refl,
  sym (append-nil (passed t.it)),
  omega arith,
  inr (empty_contents t.ring z, Closed-now w strong rs c),
)

blocked_now :
    (w : ℕ) (strong : Strong) (t : Transfer)
    → available_read t.ring ≡ 0
    → strong w ≢ 0
    → Reads w strong [] t (ok (blocked t.size t.it t.ring))
blocked_now w strong t z c =
    let e = empty_contents t.ring z in
    (rw e (sym (append-nil (passed t.it))), rw e (omega arith), e, c)

-- A round over a ring that is not empty, given what the rest of the loop does.
read_round :
    (f w : ℕ) (strong : Strong) (rs : List Resume) (t : Transfer)
    → IsReady t
    → available_read t.ring ≢ 0
    → ((u : Transfer)
        → IsReady u
        → u.ring.write_end ≡ t.ring.write_end
        → available_read u.ring ≡ 0
        → Reads w strong rs u (read_loop f rs strong u))
    → Reads w strong rs t (read_loop (suc f) rs strong t)
unfolding read_loop
read_round f w strong rs t v z ih =
    let k = read_for_lem (available_read t.ring) t v (omega arith) in
    let z' : (available_read t.ring == 0) ≡ false = ground arith in
    rw (z', k.result)
      (elim (Bool-cases k.done) [
        | inl d ↦ rw d (
          k.bytes,
          ap (λ l. l ++ resumed rs) k.took.source
              ∙ append_assoc k.bytes (contents k.after.ring) (resumed rs),
          k.took.target,
          k.took.count,
          inl (
            (k.early d).0,
            λ n. omega (
              arith,
              (k.early d).1,
              ap length k.took.source,
              length-append k.bytes (contents k.after.ring),
              length-contents t.ring,
              ap length n,
            ),
          ),
        )
        | inr d ↦ rw d (
            Reads-Took w strong rs _ k.took (
              ih k.after k.took.ready k.took.same_end (
                omega (
                  arith,
                  k.whole d,
                  ap length k.took.source,
                  length-append k.bytes (contents k.after.ring),
                  length-contents t.ring,
                  length-contents k.after.ring,
                ))))
      ])

read_loop_lem :
    (f w : ℕ) (strong : Strong) (rs : List Resume) (t : Transfer)
    → IsReady t
    → t.ring.write_end ≡ some w
    → AllResumed w rs
    → 2 * length rs + rounds t ≤ f
    → Reads w strong rs t (read_loop f rs strong t)
unfolding read_loop rounds
read_loop_lem zero w strong rs t v e a h = ground arith
read_loop_lem (suc f) w strong [] t v e a h = elim (Bool-cases (available_read t.ring == 0)) [
  | inl z ↦
      rw (z, closed_test strong t.ring w e)
        (elim (Bool-cases (strong w == 0)) [
          | inl c ↦ rw c (returned_now w strong [] t (ground arith) (ground arith))
          | inr c ↦ rw c (blocked_now w strong t (ground arith) (ground arith))
        ])
  | inr z ↦
      read_round f w strong [] t v (ground arith)
        λ u b d g. read_loop_lem f w strong [] u b (d ∙ e) a (ground arith)
]
read_loop_lem (suc f) w strong (r ∷ rs) t v e a h = elim (Bool-cases (available_read t.ring == 0)) [
  | inl z ↦
      rw (z, closed_test strong t.ring w e)
        (elim (Bool-cases (strong w == 0)) [
          | inl c ↦ rw c (returned_now w strong (r ∷ rs) t (ground arith) (ground arith))
          | inr c ↦ rw c (
              Reads-resume w strong rs t r _ (empty_contents t.ring (ground arith)) (ground arith) (
                read_loop_lem f w r.strong rs (record t { ring = r.ring })
                  (record { ring_valid = a.0; at = v.at }) a.1 a.2 (ground arith)))
        ])
  | inr z ↦
      read_round f w strong (r ∷ rs) t v (ground arith)
        λ u b d g. read_loop_lem f w strong (r ∷ rs) u b (d ∙ e) a (ground arith)
]

-- On a read end with a valid ring, a user buffer without empty slices and, at each suspension, a
-- valid ring with the same write end after it, `read` neither panics nor runs out of fuel, given two
-- rounds for each suspension and two more. When it returns, the bytes passed in the user buffer are a
-- prefix of the stream of bytes of the ring and of the rings after suspensions, the result is their
-- number, and either the buffer is full while the ring has a byte, or the ring is empty and at some
-- moment of the schedule all write ends were closed. When it does not return, all bytes have passed,
-- the ring is empty and the write ends were at no moment all closed.
pub read_lem :
    (fuel : ℕ) (rs : List Resume) (strong : Strong) (p : Pipe) (ring : PipeRingBuffer)
    (u : UserBuffer) (w : ℕ)
    → p.readable ≡ true
    → IsValid ring
    → ring.write_end ≡ some w
    → AllNonEmpty u.buffers
    → AllResumed w rs
    → 2 * length rs + 2 ≤ fuel
    → Reads w strong rs
        (record { it = into_iter u; ring = ring; size = 0 })
        (read fuel rs strong p ring u)
unfolding read rounds
read_lem fuel rs strong p ring u w can v e full a h = rw can (
    read_loop_lem fuel w strong rs (record { it = into_iter u; ring = ring; size = 0 })
      (record { ring_valid = v; at = (into_iter-IsAt u full).0 }) e a (ground arith))
