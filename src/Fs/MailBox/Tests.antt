-- ===== src/Fs/MailBox/Tests.antt =====
-- A mailbox with the packet "AB".
use r_corev.Prelude.{◌≡◌, refl, [], ◌∷◌, replicate, arith, ok}
use r_corev.Mm.UserBuffer.{UserBuffer}
use r_corev.Mm.UserBuffer.Walk.{flatten}
use r_corev.Fs.MailBox.{MailPacket, MailBox, write, read}
use r_corev.Fs.MailBox.Queue.{
  IsValid, contents, queue_write, write-contents, Delivered, read-contents,
}

abbrev ab : MailPacket
ab = record { arr = 65 ∷ 66 ∷ replicate 254 0; len = 2 }

abbrev inbox : MailBox
inbox = record { size = 1; packets = ab ∷ [] }

inbox-IsValid : IsValid inbox
inbox-IsValid = record {
  sized = refl;
  bounded = omega arith;
  packets_valid = (record { places = refl; fits = omega arith }, tt);
}

abbrev user : UserBuffer
user = record { buffers = (1 ∷ []) ∷ (2 ∷ 3 ∷ []) ∷ [] }

write-contents_example :
    (mb' : MailBox) × (write user inbox
      ≡ ok ((queue_write (flatten user.buffers) (contents inbox)).0, mb'))
    × (contents mb' ≡ (queue_write (flatten user.buffers) (contents inbox)).1)
    × IsValid mb'
write-contents_example = write-contents inbox user inbox-IsValid (omega arith, (omega arith, tt))

read-contents_example : Delivered (65 ∷ 66 ∷ []) [] user (read user inbox)
read-contents_example =
    read-contents inbox user (65 ∷ 66 ∷ []) [] inbox-IsValid (omega arith, (omega arith, tt))
      (omega arith) refl
