-- ===== src/Session/Events/Stall.antt =====
-- A buffer of files that nothing sends from any more stays so.
use in_memory_object_storage.Common.{
  ℕ, zero, suc, ◌+◌, ◌≡◌, ◌∙◌, refl, inl, inr, ◌==◌, sym, subst, Bool, List, [], ◌∷◌, ◌++◌, Option,
  none, some, arith, length, Outcome, ok, throws, undefined, diverges, >>=-eq-ok, ok-injective,
  Bool-cases,
}
use in_memory_object_storage.Common.Text.{Bytes}
use in_memory_object_storage.MemoryFs.{File}
use in_memory_object_storage.Protocol.Detector.{detect_protocol}
use in_memory_object_storage.Session.{
  Session, Network, Accept, send_file, receive_file, Upload, Output, DataTask, enqueue_data, save,
  close_socket, DataWrite, Reception, post_data, receive_message, reply,
}
use in_memory_object_storage.Session.Http.{finish_put}
use in_memory_object_storage.Session.Http.Frame.{finish_put-IsDone}
use in_memory_object_storage.Session.Messages.{enqueue_message, message_written}
use in_memory_object_storage.Session.Transfer.{Arrival}
use in_memory_object_storage.Session.DataTransfer.{connected, accepted, file_arrived}
use in_memory_object_storage.Session.DataTransfer.Transferring.{is_send, count_sends}
use in_memory_object_storage.Session.Events.{
  Event, message_posted, message_sent, packet_received, read_failed, body_received,
  connection_accepted, data_posted, data_sent, data_received, with_output, handle_packet,
  receive_packet, fail_read, run_posted, end_write, end_read, end_failed_read, end_upload,
  end_accept, run_task, end_data_write, end_reception, take_out, step,
}
use in_memory_object_storage.Session.Events.Effects.{handle_packet-IsFrame}
use in_memory_object_storage.Session.DataTransfer.Stalled.{
  IsStalled, StaysStalled, post_data-StaysStalled, perform-StaysStalled,
}

-- The data connections after an event, if it ends normally.
abbrev pub Stays : Session → Session → Type 0
Stays s s' = StaysStalled s.ftp_data s'.ftp_data

Stays-refl : (s : Session) → IsStalled s.ftp_data → Stays s s
Stays-refl s h = (h, refl)

Stays-eq : (s s' : Session) → s'.ftp_data ≡ s.ftp_data → IsStalled s.ftp_data → Stays s s'
Stays-eq s s' e h = subst (StaysStalled s.ftp_data) (sym e) (h, refl)

with_output-Stays :
    (o : Outcome Output) (s s' : Session)
    → IsStalled s.ftp_data
    → with_output o s ≡ ok s'
    → Stays s s'
unfolding with_output
with_output-Stays (ok o) s s' h e = subst (Stays s) (ok-injective e) (h, refl)
with_output-Stays throws s s' h e = cc
with_output-Stays undefined s s' h e = cc
with_output-Stays diverges s s' h e = cc

run_posted-Stays :
    (posted : List Bytes) (s s' : Session)
    → IsStalled s.ftp_data
    → run_posted posted s ≡ ok s'
    → Stays s s'
unfolding run_posted
run_posted-Stays [] s s' h e = subst (Stays s) (ok-injective e) (h, refl)
run_posted-Stays (message ∷ posted) s s' h e =
    with_output-Stays (enqueue_message message s.output) (record s { posted = posted }) s' h e

end_write-Stays :
    (writes : ℕ) (failed : Bool) (s s' : Session)
    → IsStalled s.ftp_data
    → end_write writes failed s ≡ ok s'
    → Stays s s'
unfolding end_write
end_write-Stays zero failed s s' h e = subst (Stays s) (ok-injective e) (h, refl)
end_write-Stays (suc writes) failed s s' h e =
    with_output-Stays (message_written failed writes s.output) s s' h e

end_read-Stays :
    (reads : ℕ) (net : Network) (packet : Bytes) (headers : Option Bytes) (s s' : Session)
    → IsStalled s.ftp_data
    → end_read reads net packet headers s ≡ ok s'
    → Stays s s'
unfolding end_read receive_packet
end_read-Stays zero net packet headers s s' h e = subst (Stays s) (ok-injective e) (h, refl)
end_read-Stays (suc reads) net packet headers s s' h e =
    let t = record s { reads = reads } in
    let (protocol, _, k) =
      >>=-eq-ok (detect_protocol packet) (λ p. handle_packet p net packet headers t) e in
    Stays-eq s s' (handle_packet-IsFrame protocol net packet headers t s' k).ftp_data h

end_failed_read-Stays :
    (reads : ℕ) (s : Session) → IsStalled s.ftp_data → Stays s (end_failed_read reads s)
unfolding end_failed_read fail_read post_data receive_message
end_failed_read-Stays zero s h = (h, refl)
end_failed_read-Stays (suc reads) s h = post_data-StaysStalled close_socket s refl h

end_upload-Stays :
    (uploads : List Upload) (body : Option File) (s : Session)
    → IsStalled s.ftp_data
    → Stays s (end_upload uploads body s)
unfolding end_upload
end_upload-Stays [] body s h = (h, refl)
end_upload-Stays (u ∷ uploads) body s h =
    let t = record s { uploads = uploads } in
    Stays-eq s (finish_put u.path body t) (finish_put-IsDone u.path body t).ftp_data h

accepted-Stays :
    (error : Option Bytes) (a : Accept) (s : Session)
    → IsStalled s.ftp_data
    → Stays s (accepted error a s)
unfolding accepted connected post_data reply
accepted-Stays (some message) a s h = (h, refl)
accepted-Stays none (send_file file) s h =
    let k = s.ftp_data.next_socket in
    let t = record s { ftp_data = record s.ftp_data { socket = some k; next_socket = suc k } } in
    let (first, same) = post_data-StaysStalled (enqueue_data (some file) k) t refl h in
    let (second, same') =
      post_data-StaysStalled (enqueue_data none k) (post_data (enqueue_data (some file) k) t) refl
        first in
    (second, same' ∙ same)
accepted-Stays none (receive_file path) s h = (h, refl)

end_accept-Stays :
    (accepts : List Accept) (error : Option Bytes) (s : Session)
    → IsStalled s.ftp_data
    → Stays s (end_accept accepts error s)
unfolding end_accept
end_accept-Stays [] error s h = (h, refl)
end_accept-Stays (a ∷ accepts) error s h = accepted-Stays error a (record s { accepts = accepts }) h

run_task-Stays :
    (tasks : List DataTask) (s s' : Session)
    → s.ftp_data.tasks ≡ tasks
    → IsStalled s.ftp_data
    → run_task tasks s ≡ ok s'
    → Stays s s'
unfolding run_task
run_task-Stays [] s s' t h e = subst (Stays s) (ok-injective e) (h, refl)
run_task-Stays (task ∷ tasks) s s' t (none_left, w, b) e =
    let first : is_send task + count_sends tasks ≡ 0 = subst (λ l. count_sends l ≡ 0) t none_left in
    perform-StaysStalled task (record s { ftp_data = record s.ftp_data { tasks = tasks } }) s'
      (omega (arith, first)) (omega (arith, first), w, b) e

end_data_write-Stays :
    (writes : List DataWrite) (failed : Bool) (s s' : Session)
    → s.ftp_data.writes ≡ writes
    → IsStalled s.ftp_data
    → end_data_write writes failed s ≡ ok s'
    → Stays s s'
unfolding end_data_write
end_data_write-Stays [] failed s s' v h e = subst (Stays s) (ok-injective e) (h, refl)
end_data_write-Stays (w ∷ writes) failed s s' v h e = absurd (ground (arith, v, h.1))

file_arrived-Stays :
    (arrival : Arrival) (r : Reception) (s : Session)
    → IsStalled s.ftp_data
    → Stays s (file_arrived arrival r s)
unfolding file_arrived
file_arrived-Stays arrival r s h = elim (Bool-cases arrival.failed) [
  | inl e ↦ rw e (post_data-StaysStalled (save (r.file ++ arrival.bytes) r.path) s refl h)
  | inr e ↦ elim (Bool-cases (length arrival.bytes == 0)) [
    | inl f ↦ rw (e, f) (h, refl)
    | inr f ↦ rw (e, f) (h, refl)
  ]
]

end_reception-Stays :
    (r : Option (Reception × List Reception)) (arrival : Arrival) (s : Session)
    → IsStalled s.ftp_data
    → Stays s (end_reception r arrival s)
unfolding end_reception
end_reception-Stays none arrival s h = (h, refl)
end_reception-Stays (some (r, receptions)) arrival s h =
    file_arrived-Stays arrival r
      (record s { ftp_data = record s.ftp_data { receptions = receptions } }) h

pub step-Stays :
    (event : Event) (s s' : Session) → IsStalled s.ftp_data → step event s ≡ ok s' → Stays s s'
unfolding step
step-Stays message_posted s s' h e = run_posted-Stays s.posted s s' h e
step-Stays (message_sent failed) s s' h e = end_write-Stays s.output.writes failed s s' h e
step-Stays (packet_received net packet headers) s s' h e =
    end_read-Stays s.reads net packet headers s s' h e
step-Stays read_failed s s' h e =
    subst (Stays s) (ok-injective e) (end_failed_read-Stays s.reads s h)
step-Stays (body_received body) s s' h e =
    subst (Stays s) (ok-injective e) (end_upload-Stays s.uploads body s h)
step-Stays (connection_accepted error) s s' h e =
    subst (Stays s) (ok-injective e) (end_accept-Stays s.accepts error s h)
step-Stays data_posted s s' h e = run_task-Stays s.ftp_data.tasks s s' refl h e
step-Stays (data_sent failed) s s' h e = end_data_write-Stays s.ftp_data.writes failed s s' refl h e
step-Stays (data_received i arrival) s s' h e =
    subst (Stays s) (ok-injective e)
      (end_reception-Stays (take_out i s.ftp_data.receptions) arrival s h)
