-- ===== src/Session/DataTransfer/Stalled.antt =====
-- When nothing is left that sends from the buffer of files.
use in_memory_object_storage.Common.{
  ◌≡◌, refl, subst, false, List, [], ◌∷◌, ◌++◌, Option, arith, ok, ok-injective,
}
use in_memory_object_storage.Common.Text.{Bytes}
use in_memory_object_storage.MemoryFs.{File}
use in_memory_object_storage.Session.{
  Session, DataTask, enqueue_data, send_data, save, close_socket, DataConnection, post_data,
  close_ftp_data_socket,
}
use in_memory_object_storage.Session.Messages.{is_empty}
use in_memory_object_storage.Session.Transfer.{save_file}
use in_memory_object_storage.Session.DataTransfer.{enqueue_ftp_data, perform}
use in_memory_object_storage.Session.DataTransfer.Transferring.{
  is_send, count_sends, count_sends-append,
}

-- The buffer is not empty, and nothing is left that sends from it.
abbrev pub IsStalled : DataConnection → Type 0
IsStalled d = (count_sends d.tasks ≡ 0) × (d.writes ≡ []) × (is_empty d.buffer ≡ false)

-- Stalled, with the same deliveries as in `d`.
abbrev pub StaysStalled : DataConnection → DataConnection → Type 0
StaysStalled d d' = IsStalled d' × (d'.delivered ≡ d.delivered)

pub post_data-StaysStalled :
    (task : DataTask) (s : Session)
    → is_send task ≡ 0
    → IsStalled s.ftp_data
    → StaysStalled s.ftp_data (post_data task s).ftp_data
unfolding post_data
post_data-StaysStalled task s z (t, w, b) =
    ((omega (arith, z, t, count_sends-append s.ftp_data.tasks (task ∷ [])), w, b), refl)

pub save_file-ftp_data :
    (file : File) (path : Bytes) (s : Session)
    → IsStalled s.ftp_data
    → StaysStalled s.ftp_data (save_file file path s).ftp_data
unfolding save_file
save_file-ftp_data file path s h = ground arith

pub is_empty-snoc :
    (buffer : List (Option File)) (file : Option File) → is_empty (buffer ++ file ∷ []) ≡ false
is_empty-snoc [] file = refl
is_empty-snoc (front ∷ buffer) file = refl

pub perform-StaysStalled :
    (task : DataTask) (s s' : Session)
    → is_send task ≡ 0
    → IsStalled s.ftp_data
    → perform task s ≡ ok s'
    → StaysStalled s.ftp_data s'.ftp_data
unfolding perform enqueue_ftp_data close_ftp_data_socket
perform-StaysStalled (enqueue_data file socket) s s' z (t, w, b) e =
    subst (λ (u : Session). StaysStalled s.ftp_data u.ftp_data) (ok-injective e)
      (rw b ((t, w, is_empty-snoc s.ftp_data.buffer file), refl))
perform-StaysStalled (send_data socket) s s' z h e = absurd (omega (arith, z))
perform-StaysStalled (save file path) s s' z h e =
    subst (λ (u : Session). StaysStalled s.ftp_data u.ftp_data) (ok-injective e)
      (save_file-ftp_data file path s h)
perform-StaysStalled close_socket s s' z h e =
    subst (λ (u : Session). StaysStalled s.ftp_data u.ftp_data) (ok-injective e) (h, refl)
