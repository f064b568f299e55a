-- ===== src/Fs/MailBox.antt =====
-- os/src/fs/mail_box.rs: the mailbox of a process. The head of `packets` is the front of the deque.
-- An `isize` is its two's complement of 64 bits.
pub mod Packets
pub mod Queue
mod Tests
use r_corev.Config.{minus_one}
use r_corev.Prelude.{
  ℕ, zero, suc, ◌+◌, ◌-◌, Option, none, some, List, [], ◌∷◌, ◌++◌, length, get_or, set, replicate,
  leb, ltb, ◌==◌, if◌then◌else◌, Run, ok, panic, ◌>>=◌, ◌>>◌, assert,
}
use r_corev.Config.{usize_mod}
use r_corev.Mm.UserBuffer.{UserBuffer, UserBufferIterator, len, into_iter, next, load, store}

abbrev pub max_packet_num : ℕ
max_packet_num = 16

abbrev pub packet_buffer_size : ℕ
packet_buffer_size = 256

pub record MailPacket : Type 0 where
  pub arr : List ℕ
  pub len : ℕ

unfoldable pub empty_packet : MailPacket
empty_packet = record { arr = replicate packet_buffer_size 0; len = 0 }

-- The loop of `from_buffer` ends at the latest when the packet is full, after as many rounds as it
-- has places: the fuel.
unfoldable pub from_loop : ℕ → UserBufferIterator → MailPacket → Run MailPacket
from_loop zero it packet = ok packet
from_loop (suc f) it packet = do
  (item, it') ← next it
  elim item [
    | none ↦ ok packet
    | some place ↦ do
      assert (ltb packet.len (length packet.arr))
      let arr = set packet.arr packet.len (load it' place) in
          if leb packet_buffer_size (packet.len + 1)
          then ok (record { arr = arr; len = packet.len + 1 })
          else from_loop f it' (record { arr = arr; len = packet.len + 1 })
  ]

unfoldable pub from_buffer : UserBuffer → Run MailPacket
unfolding from_loop empty_packet
from_buffer u = from_loop packet_buffer_size (into_iter u) empty_packet

-- The rounds that are left, the place in the packet and the bytes of the user.
unfoldable pub write_buf_loop :
    ℕ → MailPacket → UserBufferIterator → ℕ → Run (ℕ × UserBufferIterator)
write_buf_loop zero packet it write_size = ok (write_size, it)
write_buf_loop (suc n) packet it write_size = do
  (item, it') ← next it
  elim item [
    | none ↦ ok (write_size, it')
    | some place ↦ do
      assert (ltb write_size (length packet.arr))
      write_buf_loop n packet (store it' place (get_or packet.arr write_size 0)) (write_size + 1)
  ]

unfoldable pub write_buf : MailPacket → UserBuffer → Run (ℕ × UserBufferIterator)
unfolding write_buf_loop
write_buf packet u = write_buf_loop packet.len packet (into_iter u) 0

pub record MailBox : Type 0 where
  pub size : ℕ
  pub packets : List MailPacket

unfoldable pub new : MailBox
new = record { size = 0; packets = [] }

unfoldable pub push : MailPacket → MailBox → MailBox
push packet mb = record { packets = mb.packets ++ (packet ∷ []); size = mb.size + 1 }

unfoldable pub write : UserBuffer → MailBox → Run (ℕ × MailBox)
unfolding push
write u mb =
    if leb max_packet_num mb.size
    then ok (minus_one, mb)
    else do packet ← from_buffer u; ok (packet.len, if ltb 0 packet.len then push packet mb else mb)

-- The iterator holds the user's bytes after the call.
unfoldable pub read : UserBuffer → MailBox → Run (ℕ × MailBox × UserBufferIterator)
read u mb =
    if mb.size == 0
    then ok (minus_one, mb, into_iter u)
    else if ltb 0 (len u)
    then elim mb.packets [
      | packet ∷ rest ↦ do
        (n, it) ← write_buf packet u
        ok (n, record { packets = rest; size = mb.size - 1 }, it)
      | [] ↦ ok (minus_one, mb, into_iter u)
    ]
    else ok (0, mb, into_iter u)
