-- ===== src/Task/Manager/Mail.antt =====
-- Messages to tasks of the ready queue.
use r_corev.Config.{minus_one}
use r_corev.Prelude.{ℕ, ◌≡◌, refl, true, false, [], ◌∷◌, ◌++◌, ◌==◌, ok, arith}
use r_corev.Mm.UserBuffer.{UserBuffer}
use r_corev.Mm.UserBuffer.Walk.{flatten, AllNonEmpty}
use r_corev.Fs.MailBox
use r_corev.Fs.MailBox.{MailBox}
use r_corev.Fs.MailBox.Queue.{IsValid, contents, queue_write, write-contents}
use r_corev.Task.Manager.{Task, Queue, set_task_mail}

-- No task of the queue has the identifier.
abbrev pub Lacks : ℕ → Queue → Type 0
Lacks pid [] = Unit {0}
Lacks pid (task ∷ q) = ((task.pid == pid) ≡ false) × Lacks pid q

-- A message to an identifier that no ready task has fails and changes nothing.
pub set_task_mail_missing :
    (pid : ℕ) (u : UserBuffer) (q : Queue) → Lacks pid q → set_task_mail pid u q ≡ ok (minus_one, q)
unfolding set_task_mail
set_task_mail_missing pid u [] l = refl
set_task_mail_missing pid u (task ∷ q) l = rw (l.0, set_task_mail_missing pid u q l.1) refl

at_task :
    (before : Queue) (task : Task) (after : Queue) (u : UserBuffer) (n : ℕ) (mb : MailBox)
    → Lacks task.pid before
    → MailBox.write u task.mail_box ≡ ok (n, mb)
    → set_task_mail task.pid u (before ++ (task ∷ after))
      ≡ ok (n, before ++ (record task { mail_box = mb } ∷ after))
unfolding set_task_mail
at_task [] task after u n mb l w =
    let self : (task.pid == task.pid) ≡ true = ground arith in rw (self, w) refl
at_task (t ∷ before) task after u n mb l w = rw (l.0, at_task before task after u n mb l.1 w) refl

-- A message from a user buffer without empty slices to a ready task is a write to the queue of its
-- well-formed mailbox, which stays well-formed; the ready queue keeps its order and its other tasks.
pub set_task_mail_lem :
    (before : Queue) (task : Task) (after : Queue) (u : UserBuffer)
    → Lacks task.pid before
    → IsValid task.mail_box
    → AllNonEmpty u.buffers
    → (mb : MailBox) × (set_task_mail task.pid u (before ++ (task ∷ after))
        ≡ ok (
          (queue_write (flatten u.buffers) (contents task.mail_box)).0,
          before ++ (record task { mail_box = mb } ∷ after),
        ))
      × (contents mb ≡ (queue_write (flatten u.buffers) (contents task.mail_box)).1)
      × IsValid mb
set_task_mail_lem before task after u l v h =
    let (mb, w, c, v') = write-contents task.mail_box u v h in
    (mb, at_task before task after u _ mb l w, c, v')
