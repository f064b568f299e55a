-- ===== src/Fs.antt =====
-- os/src/fs: pipes and mailboxes.
pub mod Pipe
pub mod MailBox
