-- ===== src/Task/Manager.antt =====
-- `TaskManager` of os/src/task/manager.rs: the ready queue, its front first. Of a task the identifier
-- and the mailbox are kept.
pub mod Mail
mod Tests
use r_corev.Config.{minus_one}
use r_corev.Prelude.{
  ℕ, Option, none, some, List, [], ◌∷◌, ◌++◌, length, ◌==◌, if◌then◌else◌, Run, ok, ◌>>=◌,
}
use r_corev.Mm.UserBuffer.{UserBuffer}
use r_corev.Fs.MailBox
use r_corev.Fs.MailBox.{MailBox}

pub record Task : Type 0 where
  pub pid : ℕ
  pub mail_box : MailBox

abbrev pub Queue : Type 0
Queue = List Task

unfoldable pub add : Task → Queue → Queue
add task q = q ++ (task ∷ [])

unfoldable pub fetch : Queue → Option Task × Queue
fetch [] = (none, [])
fetch (task ∷ q) = (some task, q)

unfoldable pub running_num : Queue → ℕ
running_num q = length q

-- The first task with the identifier gets the message.
unfoldable pub set_task_mail : ℕ → UserBuffer → Queue → Run (ℕ × Queue)
set_task_mail pid buffer [] = ok (minus_one, [])
set_task_mail pid buffer (task ∷ q) =
    let rest = set_task_mail pid buffer q in
    if task.pid == pid
    then MailBox.write buffer task.mail_box >>= (λ r. ok (r.0, record task { mail_box = r.1 } ∷ q))
    else rest >>= (λ r. ok (r.0, task ∷ r.1))
