-- ===== src/Fs/MailBox/Packets.antt =====
-- Packets: what `from_buffer` copies in and `write_buf` copies out.
use native.Mathlib.Numerals.{add-one}
use r_corev.Prelude.{
  ℕ, zero, suc, ◌+◌, ◌<◌, ◌≤◌, ◌≡◌, refl, ap, ◌∙◌, sym, List, [], ◌∷◌, ◌++◌, append_assoc,
  append-nil, length, length-set, take, drop, take-set-suc, drop-cons, length-replicate, replicate,
  get_or, set, leb, lt→ltb, leb→le, Run, ok, arith, Bool-cases, inl, inr, ◌⊎◌, subst,
}
use r_corev.Mm.UserBuffer.{UserBuffer, UserBufferIterator, into_iter, load, store}
use r_corev.Mm.UserBuffer.Walk.{
  flatten, AllNonEmpty, rest, passed, IsAt, here, next-cases, into_iter-IsAt,
}
use r_corev.Fs.MailBox.{
  packet_buffer_size, MailPacket, empty_packet, from_loop, from_buffer, write_buf_loop, write_buf,
}

-- The bytes of a packet.
abbrev pub content : MailPacket → List ℕ
content p = take p.len p.arr

pub record Filled (before : List ℕ) (n : ℕ) (xs : List ℕ) (r : Run MailPacket) : Type 0 where
  pub after : MailPacket
  pub result : r ≡ ok after
  pub bytes : content after ≡ before ++ xs
  pub places : length after.arr ≡ packet_buffer_size
  pub total : after.len ≡ n + length xs

abbrev packet : List ℕ → ℕ → MailPacket
packet arr n = record { arr = arr; len = n }

Filled-none :
    (arr : List ℕ) (n : ℕ)
    → length arr ≡ packet_buffer_size
    → Filled (take n arr) n [] (ok (packet arr n))
Filled-none arr n h = record {
  after = packet arr n;
  result = refl;
  bytes = sym (append-nil (take n arr));
  places = h;
  total = omega arith;
}

Filled-cons :
    (arr : List ℕ) (n v : ℕ) (xs : List ℕ) (r : Run MailPacket)
    → n < length arr
    → Filled (take (suc n) (set arr n v)) (suc n) xs r
    → Filled (take n arr) n (v ∷ xs) r
Filled-cons arr n v xs r h f = record {
  after = f.after;
  result = f.result;
  bytes =
      f.bytes ∙ ap (λ l. l ++ xs) (take-set-suc arr n v h) ∙ append_assoc (take n arr) (v ∷ []) xs;
  places = f.places;
  total = omega (arith, f.total);
}

from_loop_lem :
    (f : ℕ) (it : UserBufferIterator) (arr : List ℕ) (n : ℕ)
    → IsAt it
    → length arr ≡ packet_buffer_size
    → n + f ≡ packet_buffer_size
    → Filled (take n arr) n (take f (rest it)) (from_loop f it (packet arr n))
unfolding from_loop
from_loop_lem zero it arr n a h e = Filled-none arr n h
from_loop_lem (suc f) it arr n a h e = elim (next-cases it a) [
  | inl (q, r) ↦ rw (q, r) (Filled-none arr n h)
  | inr (it', r, adv) ↦
      let byte = load it (here it) in
      rw (adv.unchanged.2, r, lt→ltb n (length arr) (omega arith), adv.same_byte)
        (Filled-cons arr n byte (take f (rest it')) _ (omega arith) (
          rw add-one (elim (Bool-cases (leb packet_buffer_size (suc n))) [
            | inl w ↦
                let full : f ≡ 0 = omega (arith, leb→le packet_buffer_size (suc n) w) in
                rw (w, full) (Filled-none (set arr n byte) (suc n) (length-set arr n byte ∙ h))
            | inr w ↦ rw w (
                from_loop_lem f it' (set arr n byte) (suc n) adv.unchanged.0
                  (length-set arr n byte ∙ h) (omega arith))
          ])))
]

-- For a user buffer without empty slices, the packet holds the first 256 of its bytes, or all of them.
pub from_buffer_lem :
    (u : UserBuffer)
    → AllNonEmpty u.buffers
    → Filled [] 0 (take packet_buffer_size (flatten u.buffers)) (from_buffer u)
unfolding from_buffer empty_packet
from_buffer_lem u h =
    let i = into_iter-IsAt u h in
    subst (λ xs. Filled [] 0 (take packet_buffer_size xs) (from_buffer u)) i.2
      (from_loop_lem packet_buffer_size (into_iter u) (replicate packet_buffer_size 0) 0 i.0
        (length-replicate {A = ℕ} packet_buffer_size 0) refl)

pub record IsPacket (p : MailPacket) : Type 0 where
  pub places : length p.arr ≡ packet_buffer_size
  pub fits : p.len ≤ packet_buffer_size

-- What `write_buf` leaves of the user's bytes: the first are those of `xs`, the rest is as it was.
pub record Copied (xs : List ℕ) (n : ℕ) (it : UserBufferIterator) (r : Run (ℕ × UserBufferIterator))
    : Type 0 where
  pub after : UserBufferIterator
  pub copied : List ℕ
  pub unsent : List ℕ
  pub result : r ≡ ok (n + length copied, after)
  pub split : xs ≡ copied ++ unsent
  pub overwritten : List ℕ
  pub old : rest it ≡ overwritten ++ rest after
  pub as_many : length overwritten ≡ length copied
  pub target : passed after ≡ passed it ++ copied
  -- The packet or the buffer is used up.
  pub maximal : (unsent ≡ []) ⊎ (rest after ≡ [])

Copied-cons :
    {x n y : ℕ} {xs : List ℕ} {it it' : UserBufferIterator} {r : Run (ℕ × UserBufferIterator)}
    → passed it' ≡ passed it ++ (x ∷ [])
    → rest it ≡ y ∷ rest it'
    → Copied xs (suc n) it' r
    → Copied (x ∷ xs) n it r
Copied-cons {x} {n} {y} {xs} {it} p q c = record {
  after = c.after;
  copied = x ∷ c.copied;
  unsent = c.unsent;
  result = rw (c.result) (ap (λ k. ok (k, c.after)) (omega arith));
  split = ap (◌∷◌ x) c.split;
  overwritten = y ∷ c.overwritten;
  old = q ∙ ap (◌∷◌ y) c.old;
  as_many = omega (arith, c.as_many);
  target = c.target ∙ ap (λ l. l ++ c.copied) p ∙ append_assoc (passed it) (x ∷ []) c.copied;
  maximal = c.maximal;
}

write_buf_loop_lem :
    (k n : ℕ) (p : MailPacket) (it : UserBufferIterator)
    → IsAt it
    → n + k ≤ length p.arr
    → Copied (take k (drop n p.arr)) n it (write_buf_loop k p it n)
unfolding write_buf_loop
write_buf_loop_lem zero n p it a h = record {
  after = it;
  copied = [];
  unsent = [];
  result = ap (λ k. ok (k, it)) (omega arith);
  split = refl;
  overwritten = [];
  old = refl;
  as_many = refl;
  target = sym (append-nil (passed it));
  maximal = inl refl;
}
write_buf_loop_lem (suc k) n p it a h = elim (next-cases it a) [
  | inl (q, r) ↦ rw r (record {
    after = it;
    copied = [];
    unsent = take (suc k) (drop n p.arr);
    result = ap (λ k. ok (k, it)) (omega arith);
    split = refl;
    overwritten = [];
    old = refl;
    as_many = refl;
    target = sym (append-nil (passed it));
    maximal = inr q;
  })
  | inr (it', r, adv) ↦
      let byte = get_or p.arr n 0 in
      let m = adv.written byte in
      rw (r, lt→ltb n (length p.arr) (omega arith), drop-cons p.arr n 0 (omega arith), add-one)
        (Copied-cons m.1 m.2
          (write_buf_loop_lem k (suc n) p (store it' (here it) byte) m.0 (omega arith)))
]

-- A packet goes to a user buffer without empty slices up to the end of the shorter one: the bytes
-- copied are a prefix of the packet, they stand at the front of the buffer, whose further bytes are
-- unchanged, and their number is returned.
pub write_buf_lem :
    (p : MailPacket) (u : UserBuffer)
    → IsPacket p
    → AllNonEmpty u.buffers
    → Copied (content p) 0 (into_iter u) (write_buf p u)
unfolding write_buf
write_buf_lem p u v h =
    write_buf_loop_lem p.len 0 p (into_iter u) (into_iter-IsAt u h).0
      (omega (arith, v.places, v.fits))
