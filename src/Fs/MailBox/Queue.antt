-- ===== src/Fs/MailBox/Queue.antt =====
-- The mailbox as a queue of at most 16 byte strings of at most 256 bytes.
use r_corev.Config.{minus_one}
use r_corev.Prelude.{
  ℕ, suc, ◌-◌, ◌<◌, ◌≤◌, ◌≡◌, ◌≢◌, refl, ap, ◌∙◌, sym, List, [], ◌∷◌, ◌++◌, length, length-append,
  take, length-take, leb, ltb, lt→ltb, ◌==◌, if◌then◌else◌, Run, ok, arith, Bool-cases, inl, inr,
  true, false, ◌⊎◌,
}
use r_corev.Mm.UserBuffer.{UserBuffer, UserBufferIterator, len, into_iter}
use r_corev.Mm.UserBuffer.Walk.{flatten, AllNonEmpty, len_lem, rest, passed, into_iter-IsAt}
use r_corev.Fs.MailBox.{
  max_packet_num, packet_buffer_size, MailPacket, MailBox, new, push, write, read, from_buffer,
}
use r_corev.Fs.MailBox.Packets.{content, Filled, from_buffer_lem, IsPacket, write_buf_lem}

abbrev pub all_contents : List MailPacket → List (List ℕ)
all_contents [] = []
all_contents (p ∷ ps) = content p ∷ all_contents ps

abbrev pub contents : MailBox → List (List ℕ)
contents mb = all_contents mb.packets

abbrev AllPackets : List MailPacket → Type 0
AllPackets [] = Unit {0}
AllPackets (p ∷ ps) = IsPacket p × AllPackets ps

pub record IsValid (mb : MailBox) : Type 0 where
  pub sized : mb.size ≡ length mb.packets
  pub bounded : mb.size ≤ max_packet_num
  pub packets_valid : AllPackets mb.packets

pub new-IsValid : IsValid new
unfolding new
new-IsValid = record { sized = refl; bounded = omega arith; packets_valid = tt }

AllPackets-push :
    (ps : List MailPacket) (p : MailPacket)
    → AllPackets ps
    → IsPacket p
    → AllPackets (ps ++ (p ∷ []))
AllPackets-push [] p a v = (v, tt)
AllPackets-push (q ∷ ps) p a v = (a.0, AllPackets-push ps p a.1 v)

all_contents-push :
    (ps : List MailPacket) (p : MailPacket)
    → all_contents (ps ++ (p ∷ [])) ≡ all_contents ps ++ (content p ∷ [])
all_contents-push [] p = refl
all_contents-push (q ∷ ps) p = ap (◌∷◌ (content q)) (all_contents-push ps p)

length-all_contents : (ps : List MailPacket) → length (all_contents ps) ≡ length ps
length-all_contents [] = refl
length-all_contents (p ∷ ps) = ap suc (length-all_contents ps)

-- What a write of `bytes` does to the queue: nothing when it is full or there is no byte.
abbrev pub queue_write : List ℕ → List (List ℕ) → ℕ × List (List ℕ)
queue_write bytes q = if leb max_packet_num (length q) then (minus_one, q) else (
  length (take packet_buffer_size bytes),
  if ltb 0 (length (take packet_buffer_size bytes))
      then q ++ (take packet_buffer_size bytes ∷ [])
      else q,
)

abbrev Wrote : MailBox → UserBuffer → Run (ℕ × MailBox) → Type 0
Wrote mb u r =
    (mb' : MailBox) × (r ≡ ok ((queue_write (flatten u.buffers) (contents mb)).0, mb'))
    × (contents mb' ≡ (queue_write (flatten u.buffers) (contents mb)).1)
    × IsValid mb'

-- A write to a mailbox with room, given its packet.
wrote :
    (mb : MailBox) (u : UserBuffer)
    → IsValid mb
    → leb max_packet_num mb.size ≡ false
    → (f : Filled [] 0 (take packet_buffer_size (flatten u.buffers)) (from_buffer u))
    → Wrote mb u (write u mb)
unfolding write push
wrote mb u v w f =
    let room : leb max_packet_num (length (contents mb)) ≡ false =
      rw (length-all_contents mb.packets, ← v.sized) w in
    let total : f.after.len ≡ length (take packet_buffer_size (flatten u.buffers)) =
      omega (arith, f.total) in
    rw (room, w, f.result, ← total)
      (elim (Bool-cases (ltb 0 f.after.len)) [
        | inl t ↦ rw t (
          _,
          refl,
          all_contents-push mb.packets f.after
              ∙ ap (λ b. all_contents mb.packets ++ (b ∷ [])) f.bytes,
          record {
            sized = omega (arith, length-append mb.packets (f.after ∷ []), v.sized);
            bounded = ground arith;
            packets_valid = AllPackets-push mb.packets f.after v.packets_valid (record {
              places = f.places;
              fits = omega (arith, f.total, length-take packet_buffer_size (flatten u.buffers));
            });
          },
        )
        | inr t ↦ rw t (mb, refl, refl, v)
      ])

-- A write to a well-formed mailbox from a user buffer without empty slices is the write to its queue, and keeps
-- the mailbox well-formed.
pub write-contents :
    (mb : MailBox) (u : UserBuffer) → IsValid mb → AllNonEmpty u.buffers → Wrote mb u (write u mb)
unfolding write
write-contents mb u v h = elim (Bool-cases (leb max_packet_num mb.size)) [
  | inl w ↦
      let full : leb max_packet_num (length (contents mb)) ≡ true =
        rw (length-all_contents mb.packets, ← v.sized) w in
      rw (w, full) (mb, refl, refl, v)
  | inr w ↦ wrote mb u v w (from_buffer_lem u h)
]

abbrev mail_box : ℕ → List MailPacket → MailBox
mail_box size packets = record { size = size; packets = packets }

no_packet :
    (size : ℕ) (ps : List MailPacket) (u : UserBuffer)
    → IsValid (mail_box size ps)
    → all_contents ps ≡ []
    → read u (mail_box size ps) ≡ ok (minus_one, mail_box size ps, into_iter u)
unfolding read
no_packet size [] u v e = rw v.sized refl
no_packet size (p ∷ ps) u v e =
    let bad : ◌≡◌ {A = List (List ℕ)} (content p ∷ all_contents ps) [] = e in cc

no_room :
    (size : ℕ) (ps : List MailPacket) (u : UserBuffer)
    → IsValid (mail_box size ps)
    → all_contents ps ≢ []
    → len u ≡ 0
    → read u (mail_box size ps) ≡ ok (0, mail_box size ps, into_iter u)
unfolding read
no_room size [] u v d z = absurd (d refl)
no_room size (p ∷ ps) u v d z = rw z (ground (arith, v.sized))

-- A read of an empty mailbox fails, and a read into an empty buffer returns 0; neither changes the
-- mailbox.
pub read_nothing :
    (mb : MailBox) (u : UserBuffer)
    → IsValid mb
    → (contents mb ≡ [] → read u mb ≡ ok (minus_one, mb, into_iter u))
      × (contents mb ≢ [] → flatten u.buffers ≡ [] → read u mb ≡ ok (0, mb, into_iter u))
read_nothing mb u v = (
  λ e. no_packet mb.size mb.packets u v e,
  λ d e. no_room mb.size mb.packets u v d (len_lem u ∙ ap length e),
)

-- What a read delivers of a packet of the bytes `bytes`, and the queue `q` that it leaves.
pub record Delivered (bytes : List ℕ) (q : List (List ℕ)) (u : UserBuffer)
    (r : Run (ℕ × MailBox × UserBufferIterator)) : Type 0 where
  pub box : MailBox
  pub it : UserBufferIterator
  pub copied : List ℕ
  pub unsent : List ℕ
  pub result : r ≡ ok (length copied, box, it)
  pub split : bytes ≡ copied ++ unsent
  -- The buffer afterwards: the bytes copied, then its old bytes.
  pub overwritten : List ℕ
  pub old : flatten u.buffers ≡ overwritten ++ rest it
  pub as_many : length overwritten ≡ length copied
  pub target : passed it ≡ copied
  pub maximal : (unsent ≡ []) ⊎ (rest it ≡ [])
  pub left : contents box ≡ q
  pub box_valid : IsValid box

delivered :
    (size : ℕ) (p : MailPacket) (ps : List MailPacket) (u : UserBuffer)
    → IsValid (mail_box size (p ∷ ps))
    → AllNonEmpty u.buffers
    → 0 < len u
    → Delivered (content p) (all_contents ps) u (read u (mail_box size (p ∷ ps)))
unfolding read
delivered size p ps u v h l =
    let c = write_buf_lem p u v.packets_valid.0 h in
    let i = into_iter-IsAt u h in
    let some_packet : (size == 0) ≡ false = ground (arith, v.sized) in
    rw (some_packet, lt→ltb 0 (len u) l, c.result)
      (record {
        box = mail_box (size - 1) ps;
        it = c.after;
        copied = c.copied;
        unsent = c.unsent;
        result = ap (λ n. ok (n, mail_box (size - 1) ps, c.after)) (omega arith);
        split = c.split;
        overwritten = c.overwritten;
        old = sym i.2 ∙ c.old;
        as_many = c.as_many;
        target = c.target ∙ ap (λ l. l ++ c.copied) i.1;
        maximal = c.maximal;
        left = refl;
        box_valid = record {
          sized = omega (arith, v.sized);
          bounded = omega (arith, v.bounded);
          packets_valid = v.packets_valid.1;
        };
      })

-- A read of a well-formed mailbox that is not empty, into a user buffer with bytes and without empty slices takes the oldest packet out of the
-- queue, copies as much of it as fits to the front of the buffer, and returns the number of bytes
-- copied; the further bytes of the buffer are unchanged and the mailbox stays well-formed.
pub read-contents :
    (mb : MailBox) (u : UserBuffer) (bytes : List ℕ) (q : List (List ℕ))
    → IsValid mb
    → AllNonEmpty u.buffers
    → 0 < length (flatten u.buffers)
    → contents mb ≡ bytes ∷ q
    → Delivered bytes q u (read u mb)
read-contents mb u bytes q v h d e = at_packets mb.size mb.packets v e
  where
    at_packets :
        (size : ℕ) (ps : List MailPacket)
        → IsValid (mail_box size ps)
        → all_contents ps ≡ bytes ∷ q
        → Delivered bytes q u (read u (mail_box size ps))
    at_packets size [] w z = let bad : ◌≡◌ {A = List (List ℕ)} [] (bytes ∷ q) = z in cc
    at_packets size (p ∷ ps) w z =
        let eb : content p ≡ bytes = cc z in
        let eq : all_contents ps ≡ q = cc z in
        rw (← eb, ← eq) (delivered size p ps u w h (omega (arith, len_lem u)))
