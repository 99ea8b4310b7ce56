-- ===== src/Session/Events/Invariant.antt =====
-- What holds of a session between two events, and that each completion but a packet keeps it.
use in_memory_object_storage.Common.{
  ℕ, zero, suc, ◌+◌, ◌≤◌, ◌≡◌, refl, inl, inr, sym, subst, Bool, List, [], ◌∷◌, Option, none, some,
  arith, length, Outcome, ok, Ensures-ok,
}
use in_memory_object_storage.Common.Text.{Bytes}
use in_memory_object_storage.MemoryFs.{File, MemoryFs, IsStore}
use in_memory_object_storage.MemoryFs.Spec.{call, add_file, remove_file}
use in_memory_object_storage.MemoryFs.Refinement.{call-IsStore}
use in_memory_object_storage.Session.{
  Session, Accept, Upload, DataTask, close_socket, DataWrite, Reception, receive_message, post_data,
}
use in_memory_object_storage.Session.Frame.{Changes}
use in_memory_object_storage.Session.Ftp.Guards.{IsAuthentic, Authentic}
use in_memory_object_storage.Session.Http.{finish_put}
use in_memory_object_storage.Session.Http.Frame.{finish_put-IsDone}
use in_memory_object_storage.Session.Messages.Sending.{
  IsSending, enqueue_message-IsSending, message_written-IsSending,
}
use in_memory_object_storage.Session.Transfer.{Arrival}
use in_memory_object_storage.Session.DataTransfer.{accepted, file_arrived}
use in_memory_object_storage.Session.DataTransfer.Transferring.{
  IsSafe, IsTransferring, perform-Ends, data_written-Ends, file_arrived-IsSafe, accepted-IsSafe,
  post_data-IsSafe,
}
use in_memory_object_storage.Session.DataTransfer.Frame.{
  IsDataFrame, perform-Ensures, data_written-Ensures, accepted-IsDataFrame,
  file_arrived-IsDataFrame,
}
use in_memory_object_storage.Session.Events.{
  with_output, fail_read, run_posted, end_write, end_failed_read, end_upload, end_accept, run_task,
  end_data_write, end_reception,
}

-- `one_read`: the socket has at most one read pending, of a request or of a body.
pub record IsSound (s : Session) : Type 0 where
  pub sending : IsSending s.output
  pub transferring : IsSafe s
  pub one_read : s.reads + length s.uploads ≤ 1
  pub store : IsStore s.filesystem
  pub authentic : IsAuthentic s

pub Changes-IsStore : (m m' : MemoryFs) → Changes m m' → IsStore m → IsStore m'
unfolding call
Changes-IsStore m m' (inl e) h = subst IsStore (sym e) h
Changes-IsStore m m' (inr (inl (path, e))) h =
    subst IsStore (sym e) (call-IsStore m (remove_file path) h)
Changes-IsStore m m' (inr (inr (path, file, e))) h =
    subst IsStore (sym e) (call-IsStore m (add_file path file) h)

abbrev pub Ends : Outcome Session → Type 0
Ends o = (s' : Session) × (o ≡ ok s') × IsSound s'

pub IsSafe-eq : (s s' : Session) → s'.ftp_data ≡ s.ftp_data → IsSafe s → IsSafe s'
IsSafe-eq s s' e h = subst (λ d. IsTransferring d.tasks d) (sym e) h

pub IsAuthentic-eq :
    (s s' : Session)
    → s'.users ≡ s.users
    → s'.logged_in_user ≡ s.logged_in_user
    → IsAuthentic s
    → IsAuthentic s'
IsAuthentic-eq s s' e f h =
    subst (λ u. Authentic s'.users u) (sym f)
      (subst (λ db. Authentic db s.logged_in_user) (sym e) h)

-- An event of the data connections.
IsDataFrame-IsSound :
    (s s' : Session)
    → IsSending s.output
    → s.reads + length s.uploads ≤ 1
    → IsStore s.filesystem
    → IsAuthentic s
    → IsDataFrame s s'
    → IsSafe s'
    → IsSound s'
IsDataFrame-IsSound s s' sending one_read store authentic f safe = record {
  sending = subst IsSending (sym f.output) sending;
  transferring = safe;
  one_read = ground (arith, f.reads, f.uploads, one_read);
  store = Changes-IsStore s.filesystem s'.filesystem f.filesystem store;
  authentic = IsAuthentic-eq s s' f.users f.logged_in_user authentic;
}

pub run_posted-Ends : (posted : List Bytes) (s : Session) → IsSound s → Ends (run_posted posted s)
unfolding run_posted with_output
run_posted-Ends [] s h = (s, refl, h)
run_posted-Ends (message ∷ posted) s h =
    let (o, e, sending, _) = enqueue_message-IsSending message s.output h.sending in
    (
      record s { posted = posted; output = o },
      rw e refl,
      record {
        sending = sending;
        transferring = h.transferring;
        one_read = h.one_read;
        store = h.store;
        authentic = h.authentic;
      },
    )

pub end_write-Ends :
    (writes : ℕ) (failed : Bool) (s : Session)
    → s.output.writes ≡ writes
    → IsSound s
    → Ends (end_write writes failed s)
unfolding end_write with_output
end_write-Ends zero failed s w h = (s, refl, h)
end_write-Ends (suc writes) failed s w h =
    let (o, e, sending, _) = message_written-IsSending failed writes s.output w h.sending in
    (
      record s { output = o },
      rw e refl,
      record {
        sending = sending;
        transferring = h.transferring;
        one_read = h.one_read;
        store = h.store;
        authentic = h.authentic;
      },
    )

pub end_failed_read-IsSound :
    (reads : ℕ) (s : Session) → s.reads ≡ reads → IsSound s → IsSound (end_failed_read reads s)
unfolding end_failed_read fail_read post_data receive_message
end_failed_read-IsSound zero s r h = h
end_failed_read-IsSound (suc reads) s r h = record {
  sending = h.sending;
  transferring = post_data-IsSafe close_socket s refl h.transferring;
  one_read = ground (arith, h.one_read, r);
  store = h.store;
  authentic = h.authentic;
}

pub end_upload-IsSound :
    (uploads : List Upload) (body : Option File) (s : Session)
    → s.uploads ≡ uploads
    → IsSound s
    → IsSound (end_upload uploads body s)
unfolding end_upload
end_upload-IsSound [] body s e h = h
end_upload-IsSound (u ∷ uploads) body s e h =
    let t = record s { uploads = uploads } in
    let s' = finish_put u.path body t in
    let f = finish_put-IsDone u.path body t in
    record {
      sending = subst IsSending (sym f.output) h.sending;
      transferring = IsSafe-eq s s' f.ftp_data h.transferring;
      one_read = ground (arith, f.reads, f.uploads, h.one_read, e);
      store = Changes-IsStore s.filesystem s'.filesystem f.filesystem h.store;
      authentic = IsAuthentic-eq s s' f.users f.logged_in_user h.authentic;
    }

pub end_accept-IsSound :
    (accepts : List Accept) (error : Option Bytes) (s : Session)
    → IsSound s
    → IsSound (end_accept accepts error s)
unfolding end_accept
end_accept-IsSound [] error s h = h
end_accept-IsSound (a ∷ accepts) error s h =
    let t = record s { accepts = accepts } in
    IsDataFrame-IsSound t (accepted error a t) h.sending h.one_read h.store h.authentic
      (accepted-IsDataFrame error a t) (accepted-IsSafe error a t h.transferring)

pub run_task-Ends :
    (tasks : List DataTask) (s : Session)
    → s.ftp_data.tasks ≡ tasks
    → IsSound s
    → Ends (run_task tasks s)
unfolding run_task
run_task-Ends [] s e h = (s, refl, h)
run_task-Ends (task ∷ tasks) s e h =
    let t = record s { ftp_data = record s.ftp_data { tasks = tasks } } in
    let safe : IsTransferring (task ∷ tasks) s.ftp_data =
      subst (λ l. IsTransferring l s.ftp_data) e h.transferring in
    let (s', f, kept) = perform-Ends task t (record { one = safe.one; busy = safe.busy }) in
    (
      s',
      f,
      IsDataFrame-IsSound t s' h.sending h.one_read h.store h.authentic
          (Ensures-ok (IsDataFrame t) (perform-Ensures task t) f) kept,
    )

pub end_data_write-Ends :
    (writes : List DataWrite) (failed : Bool) (s : Session)
    → s.ftp_data.writes ≡ writes
    → IsSound s
    → Ends (end_data_write writes failed s)
unfolding end_data_write
end_data_write-Ends [] failed s e h = (s, refl, h)
end_data_write-Ends (w ∷ writes) failed s e h =
    let t = record s { ftp_data = record s.ftp_data { writes = writes } } in
    let safe : IsTransferring s.ftp_data.tasks s.ftp_data = h.transferring in
    let (s', f, kept) =
      data_written-Ends failed w s.ftp_data.buffer t (ground (arith, e, safe.one))
        (ground (arith, e, safe.busy)) in
    (
      s',
      f,
      IsDataFrame-IsSound t s' h.sending h.one_read h.store h.authentic
          (Ensures-ok (IsDataFrame t) (data_written-Ensures failed w s.ftp_data.buffer t) f) kept,
    )

pub end_reception-IsSound :
    (r : Option (Reception × List Reception)) (arrival : Arrival) (s : Session)
    → IsSound s
    → IsSound (end_reception r arrival s)
unfolding end_reception
end_reception-IsSound none arrival s h = h
end_reception-IsSound (some (r, receptions)) arrival s h =
    let t = record s { ftp_data = record s.ftp_data { receptions = receptions } } in
    let safe : IsTransferring s.ftp_data.tasks s.ftp_data = h.transferring in
    IsDataFrame-IsSound t (file_arrived arrival r t) h.sending h.one_read h.store h.authentic
      (file_arrived-IsDataFrame arrival r t)
      (file_arrived-IsSafe arrival r t (record { one = safe.one; busy = safe.busy }))
