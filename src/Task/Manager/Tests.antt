-- ===== src/Task/Manager/Tests.antt =====
-- Two ready tasks.
use r_corev.Prelude.{◌≡◌, refl, [], ◌∷◌, arith, ok}
use r_corev.Mm.UserBuffer.{UserBuffer}
use r_corev.Mm.UserBuffer.Walk.{flatten}
use r_corev.Fs.MailBox.{MailBox}
use r_corev.Fs.MailBox.Queue.{IsValid, contents, queue_write}
use r_corev.Task.Manager.{Task, set_task_mail}
use r_corev.Task.Manager.Mail.{set_task_mail_lem}

abbrev user : UserBuffer
user = record { buffers = (1 ∷ []) ∷ (2 ∷ 3 ∷ []) ∷ [] }

abbrev first : Task
first = record { pid = 1; mail_box = record { size = 0; packets = [] } }

abbrev second : Task
second = record { pid = 2; mail_box = record { size = 0; packets = [] } }

empty-IsValid : IsValid second.mail_box
empty-IsValid = record { sized = refl; bounded = omega arith; packets_valid = tt }

set_task_mail_lem_example :
    (mb : MailBox) × (set_task_mail 2 user (first ∷ second ∷ [])
      ≡ ok
          ((queue_write (flatten user.buffers) []).0, first ∷ record second { mail_box = mb } ∷ []))
    × (contents mb ≡ (queue_write (flatten user.buffers) []).1)
    × IsValid mb
set_task_mail_lem_example =
    set_task_mail_lem (first ∷ []) second [] user (refl, tt) empty-IsValid
      (omega arith, (omega arith, tt))
