-- ===== src/Fs/Pipe/Write.antt =====
-- `Pipe::write`: what reaches the ring across suspensions.
use r_corev.Prelude.{
  ℕ, zero, suc, ◌+◌, ◌*◌, ◌≤◌, ◌<◌, ◌≡◌, ◌≢◌, refl, ap, ◌∙◌, sym, inl, inr, List, [], ◌∷◌, ◌++◌,
  Bool, true, false, length, length-append, append_assoc, append-nil, arith, ◌==◌, if◌then◌else◌,
  Bool-cases, Run, ok,
}
use r_corev.Mm.UserBuffer.{UserBuffer, UserBufferIterator, into_iter, load}
use r_corev.Mm.UserBuffer.Walk.{
  AllNonEmpty, flatten, rest, passed, here, Advanced, next-cases, into_iter-IsAt,
}
use r_corev.Fs.Pipe.{
  PipeRingBuffer, available_write, write_byte, Resume, Outcome, returned, blocked, Transfer,
  write_for, write_loop, write, Pipe,
}
use r_corev.Fs.Pipe.Ring.{IsValid, contents, length-contents, available_sum, write_byte_lem}
use r_corev.Fs.Pipe.Read.{IsReady}

-- From `t` to `t'` the bytes `xs` went from the user's buffer to the back of the ring.
pub record Gave (xs : List ℕ) (t t' : Transfer) : Type 0 where
  pub ready : IsReady t'
  pub source : rest t.it ≡ xs ++ rest t'.it
  pub target : contents t'.ring ≡ contents t.ring ++ xs
  pub past : passed t'.it ≡ passed t.it ++ xs
  pub count : t'.size ≡ t.size + length xs

Gave-refl : {t : Transfer} → IsReady t → Gave [] t t
Gave-refl {t} v = record {
  ready = v;
  source = refl;
  target = sym (append-nil (contents t.ring));
  past = sym (append-nil (passed t.it));
  count = omega arith;
}

Gave-trans : {xs ys : List ℕ} {t u w : Transfer} → Gave xs t u → Gave ys u w → Gave (xs ++ ys) t w
Gave-trans {xs} {ys} {t} {u} {w} p q = record {
  ready = q.ready;
  source = p.source ∙ ap (◌++◌ xs) q.source ∙ sym (append_assoc xs ys (rest w.it));
  target = q.target ∙ ap (λ l. l ++ ys) p.target ∙ append_assoc (contents t.ring) xs ys;
  past = q.past ∙ ap (λ l. l ++ ys) p.past ∙ append_assoc (passed t.it) xs ys;
  count = omega (arith, p.count, q.count, length-append xs ys);
}

Gave-one :
    {t : Transfer} (it' : UserBufferIterator)
    → IsReady t
    → Advanced t.it it'
    → available_write t.ring ≢ 0
    → let byte = load t.it (here t.it) in
      Gave (byte ∷ []) t (record { it = it'; ring = write_byte t.ring byte; size = t.size + 1 })
Gave-one {t} it' v a h =
    let q = write_byte_lem (load t.it (here t.it)) v.ring_valid h in
    record {
      ready = record { ring_valid = q.0; at = a.unchanged.0 };
      source = a.unchanged.2;
      target = q.1;
      past = a.unchanged.1;
      count = omega arith;
    }

-- The outcome of the `for` loop over `k` bytes: it stops early when the buffer is used up.
record ForResult (k : ℕ) (t : Transfer) (r : Run (Bool × Transfer)) : Type 0 where
  done : Bool
  after : Transfer
  bytes : List ℕ
  result : r ≡ ok (done, after)
  gave : Gave bytes t after
  early : done ≡ true → (rest after.it ≡ []) × (length bytes < k)
  whole : done ≡ false → length bytes ≡ k

ForResult-next :
    {k : ℕ} {t u : Transfer} {x : ℕ} {r : Run (Bool × Transfer)}
    → Gave (x ∷ []) t u
    → ForResult k u r
    → ForResult (suc k) t r
ForResult-next {x} p f = record {
  done = f.done;
  after = f.after;
  bytes = x ∷ f.bytes;
  result = f.result;
  gave = Gave-trans p f.gave;
  early = λ e. ((f.early e).0, omega (arith, f.early e));
  whole = λ e. ap suc (f.whole e);
}

write_for_lem :
    (k : ℕ) (t : Transfer) → IsReady t → k ≤ available_write t.ring → ForResult k t (write_for k t)
unfolding write_for
write_for_lem zero t v h = record {
  done = false;
  after = t;
  bytes = [];
  result = refl;
  gave = Gave-refl v;
  early = λ e. cc;
  whole = λ e. refl;
}
write_for_lem (suc k) t v h = elim (next-cases t.it v.at) [
  | inl (e, n) ↦ rw n (record {
    done = true;
    after = t;
    bytes = [];
    result = refl;
    gave = Gave-refl v;
    early = λ _. (e, omega arith);
    whole = λ e. cc;
  })
  | inr (it', n, a) ↦
      let p = Gave-one it' v a (omega arith) in
      rw (n, a.same_byte)
        (ForResult-next p (
          write_for_lem k _ p.ready (
            omega (
              arith,
              ap length p.target,
              length-append (contents t.ring) (load t.it (here t.it) ∷ []),
              length-contents t.ring,
              length-contents _,
              available_sum v.ring_valid,
              available_sum p.ready.ring_valid,
            ))))
]

-- A run of `write`, round by round: the bytes `xs` go to the back of the ring. It returns with all
-- bytes written while a place is left, and sleeps while the ring is full.
pub data Writes : List Resume → Transfer → Run Outcome → Type 0 where
  finishes :
      {rs : List Resume} {xs : List ℕ} {t u : Transfer}
      → Gave xs t u
      → rest u.it ≡ []
      → available_write u.ring ≢ 0
      → Writes rs t (ok (returned u.size u.it u.ring rs))
  sleeps :
      {xs : List ℕ} {t u : Transfer}
      → Gave xs t u
      → available_write u.ring ≡ 0
      → Writes [] t (ok (blocked u.size u.it u.ring))
  wakes :
      {r : Resume} {rs : List Resume} {xs : List ℕ} {t u : Transfer} {o : Run Outcome}
      → Gave xs t u
      → available_write u.ring ≡ 0
      → Writes rs (record u { ring = r.ring }) o
      → Writes (r ∷ rs) t o

abbrev pub AllResumed : List Resume → Type 0
AllResumed [] = Unit {0}
AllResumed (r ∷ rs) = IsValid r.ring × AllResumed rs

Writes-Gave :
    {rs : List Resume} {xs : List ℕ} {t u : Transfer} {o : Run Outcome}
    → Gave xs t u
    → Writes rs u o
    → Writes rs t o
Writes-Gave p (finishes q e h) = finishes (Gave-trans p q) e h
Writes-Gave p (sleeps q h) = sleeps (Gave-trans p q) h
Writes-Gave p (wakes q h w) = wakes (Gave-trans p q) h w

rounds : Transfer → ℕ
rounds t = if available_write t.ring == 0 then 1 else 2

room_left :
    {xs : List ℕ} {t u : Transfer}
    → IsReady t
    → Gave xs t u
    → available_write t.ring ≡ length xs + available_write u.ring
room_left {xs} {t} {u} v p = omega (
  arith,
  ap length p.target,
  length-append (contents t.ring) xs,
  length-contents t.ring,
  length-contents u.ring,
  available_sum v.ring_valid,
  available_sum p.ready.ring_valid,
)

write_round :
    (f : ℕ) (rs : List Resume) (t : Transfer)
    → IsReady t
    → available_write t.ring ≢ 0
    → ((u : Transfer) → IsReady u → available_write u.ring ≡ 0 → Writes rs u (write_loop f rs u))
    → Writes rs t (write_loop (suc f) rs t)
unfolding write_loop
write_round f rs t v z ih =
    let k = write_for_lem (available_write t.ring) t v (omega arith) in
    let z' : (available_write t.ring == 0) ≡ false = ground arith in
    rw (z', k.result)
      (elim (Bool-cases k.done) [
        | inl d ↦
            rw d (finishes k.gave (k.early d).0 (omega (arith, (k.early d).1, room_left v k.gave)))
        | inr d ↦ rw d (
            Writes-Gave k.gave
              (ih k.after k.gave.ready (omega (arith, k.whole d, room_left v k.gave))))
      ])

write_loop_lem :
    (f : ℕ) (rs : List Resume) (t : Transfer)
    → IsReady t
    → AllResumed rs
    → 2 * length rs + rounds t ≤ f
    → Writes rs t (write_loop f rs t)
unfolding write_loop rounds
write_loop_lem zero rs t v a h = ground arith
write_loop_lem (suc f) [] t v a h = elim (Bool-cases (available_write t.ring == 0)) [
  | inl z ↦ rw z (sleeps (Gave-refl v) (ground arith))
  | inr z ↦ write_round f [] t v (ground arith) λ u b g. write_loop_lem f [] u b a (ground arith)
]
write_loop_lem (suc f) (r ∷ rs) t v a h = elim (Bool-cases (available_write t.ring == 0)) [
  | inl z ↦ rw z (
      wakes (Gave-refl v) (ground arith) (
        write_loop_lem f rs (record t { ring = r.ring }) (record { ring_valid = a.0; at = v.at })
          a.1 (ground arith)))
  | inr z ↦
      write_round f (r ∷ rs) t v (ground arith)
        λ u b g. write_loop_lem f (r ∷ rs) u b a (ground arith)
]

-- On a write end with a valid ring, a user buffer without empty slices and a valid ring after each
-- suspension, `write` neither panics nor runs out of fuel, given two rounds for each suspension and
-- two more: between suspensions it appends the next bytes of the buffer to the ring, in order, it
-- suspends only when the ring is full, and it returns only when every byte is written and a place of
-- the ring is left.
pub write_lem :
    (fuel : ℕ) (rs : List Resume) (p : Pipe) (ring : PipeRingBuffer) (u : UserBuffer)
    → p.writable ≡ true
    → IsValid ring
    → AllNonEmpty u.buffers
    → AllResumed rs
    → 2 * length rs + 2 ≤ fuel
    → Writes rs (record { it = into_iter u; ring = ring; size = 0 }) (write fuel rs p ring u)
unfolding write rounds
write_lem fuel rs p ring u can v full a h = rw can (
    write_loop_lem fuel rs (record { it = into_iter u; ring = ring; size = 0 })
      (record { ring_valid = v; at = (into_iter-IsAt u full).0 }) a (ground arith))

-- A run that returns has passed every byte, and says how many.
pub Writes-count :
    {rs left : List Resume} {t : Transfer} {n : ℕ} {it : UserBufferIterator} {ring : PipeRingBuffer}
    {o : Run Outcome}
    → Writes rs t o
    → o ≡ ok (returned n it ring left)
    → (n ≡ t.size + length (rest t.it)) × (passed it ≡ passed t.it ++ rest t.it)
Writes-count {t} {n} {it} (finishes {xs} {u} p e h) q =
    let s : rest t.it ≡ xs = p.source ∙ rw e (append-nil xs) in
    let size : n ≡ u.size = cc in
    let last : it ≡ u.it = cc in
    (size ∙ p.count ∙ rw s refl, ap (λ i. passed i) last ∙ p.past ∙ rw s refl)
Writes-count (sleeps p h) q = cc
Writes-count {t} (wakes {xs} {u} p h w) q =
    let c = Writes-count w q in
    (
      c.0 ∙ omega (arith, p.count, ap length p.source, length-append xs (rest u.it)),
      c.1
          ∙ ap (λ l. l ++ rest u.it) p.past
          ∙ append_assoc (passed t.it) xs (rest u.it)
          ∙ rw p.source refl,
    )

-- When `write` on a write end returns, with a valid ring at its start and after each suspension, a
-- user buffer without empty slices and enough fuel, its result is the length of the user's buffer.
pub write_count :
    (fuel : ℕ) (rs left : List Resume) (p : Pipe) (ring ring' : PipeRingBuffer) (u : UserBuffer)
    (n : ℕ) (it : UserBufferIterator)
    → p.writable ≡ true
    → IsValid ring
    → AllNonEmpty u.buffers
    → AllResumed rs
    → 2 * length rs + 2 ≤ fuel
    → write fuel rs p ring u ≡ ok (returned n it ring' left)
    → n ≡ length (flatten u.buffers)
write_count fuel rs left p ring ring' u n it can v full a h e =
    (Writes-count (write_lem fuel rs p ring u can v full a h) e).0
    ∙ omega (arith, ap length (into_iter-IsAt u full).2)
