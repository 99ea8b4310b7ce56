-- ===== src/Session/Events/Deafness.antt =====
-- A session that reads no more.
use in_memory_object_storage.Common.{
  ℕ, zero, suc, ◌<◌, ◌≡◌, ◌∙◌, refl, inl, inr, subst, Bool, true, List, [], ◌∷◌, ◌++◌, Option, none,
  some, arith, Outcome, ok, >>=-eq-ok, ok-injective, Ensures-ok,
}
use in_memory_object_storage.Common.Text.{Bytes}
use in_memory_object_storage.MemoryFs.{File}
use in_memory_object_storage.Protocol.Detector.{AppLayerProtocol, detect_protocol}
use in_memory_object_storage.Session.{
  Session, Network, Upload, Output, Accept, DataTask, DataWrite, Reception,
}
use in_memory_object_storage.Session.Http.Access.{Accepted, handle_http-authorized}
use in_memory_object_storage.Session.Messages.{enqueue_message, message_written}
use in_memory_object_storage.Session.Transfer.{Arrival}
use in_memory_object_storage.Session.DataTransfer.{accepted}
use in_memory_object_storage.Session.DataTransfer.Frame.{
  IsDataFrame, perform-Ensures, data_written-Ensures, accepted-IsDataFrame,
  file_arrived-IsDataFrame,
}
use in_memory_object_storage.Session.Events.{
  Event, message_posted, message_sent, packet_received, read_failed, body_received,
  connection_accepted, data_posted, data_sent, data_received, with_output, handle_packet,
  receive_packet, run_posted, end_write, end_read, end_failed_read, end_upload, end_accept,
  run_task, end_data_write, end_reception, take_out, step, run,
}
use in_memory_object_storage.Session.Events.Invariant.{IsSound}

-- Nothing is being read from the socket.
abbrev pub IsDeaf : Session → Type 0
IsDeaf s = (s.reads ≡ 0) × (s.uploads ≡ [])

IsDataFrame-IsDeaf : (s s' : Session) → IsDeaf s → IsDataFrame s s' → IsDeaf s'
IsDataFrame-IsDeaf s s' (r, u) f = (f.reads ∙ r, f.uploads ∙ u)

output-IsDeaf :
    (o : Outcome Output) (s s' : Session) → IsDeaf s → with_output o s ≡ ok s' → IsDeaf s'
unfolding with_output
output-IsDeaf o s s' (r, u) e = ground (arith, r, u, e)

run_posted-IsDeaf :
    (posted : List Bytes) (s s' : Session) → IsDeaf s → run_posted posted s ≡ ok s' → IsDeaf s'
unfolding run_posted
run_posted-IsDeaf [] s s' d e = subst IsDeaf (ok-injective e) d
run_posted-IsDeaf (message ∷ posted) s s' d e =
    output-IsDeaf (enqueue_message message s.output) (record s { posted = posted }) s' d e

end_write-IsDeaf :
    (writes : ℕ) (failed : Bool) (s s' : Session)
    → IsDeaf s
    → end_write writes failed s ≡ ok s'
    → IsDeaf s'
unfolding end_write
end_write-IsDeaf zero failed s s' d e = subst IsDeaf (ok-injective e) d
end_write-IsDeaf (suc writes) failed s s' d e =
    output-IsDeaf (message_written failed writes s.output) s s' d e

end_accept-IsDeaf :
    (accepts : List Accept) (error : Option Bytes) (s : Session)
    → IsDeaf s
    → IsDeaf (end_accept accepts error s)
unfolding end_accept
end_accept-IsDeaf [] error s d = d
end_accept-IsDeaf (a ∷ accepts) error s d =
    let t = record s { accepts = accepts } in
    IsDataFrame-IsDeaf t _ d (accepted-IsDataFrame error a t)

run_task-IsDeaf :
    (tasks : List DataTask) (s s' : Session) → IsDeaf s → run_task tasks s ≡ ok s' → IsDeaf s'
unfolding run_task
run_task-IsDeaf [] s s' d e = subst IsDeaf (ok-injective e) d
run_task-IsDeaf (task ∷ tasks) s s' d e =
    let t = record s { ftp_data = record s.ftp_data { tasks = tasks } } in
    IsDataFrame-IsDeaf t s' d (Ensures-ok (IsDataFrame t) (perform-Ensures task t) e)

end_data_write-IsDeaf :
    (writes : List DataWrite) (failed : Bool) (s s' : Session)
    → IsDeaf s
    → end_data_write writes failed s ≡ ok s'
    → IsDeaf s'
unfolding end_data_write
end_data_write-IsDeaf [] failed s s' d e = subst IsDeaf (ok-injective e) d
end_data_write-IsDeaf (w ∷ writes) failed s s' d e =
    let t = record s { ftp_data = record s.ftp_data { writes = writes } } in
    IsDataFrame-IsDeaf t s' d
      (Ensures-ok (IsDataFrame t) (data_written-Ensures failed w s.ftp_data.buffer t) e)

end_reception-IsDeaf :
    (r : Option (Reception × List Reception)) (arrival : Arrival) (s : Session)
    → IsDeaf s
    → IsDeaf (end_reception r arrival s)
unfolding end_reception
end_reception-IsDeaf none arrival s d = d
end_reception-IsDeaf (some (r, receptions)) arrival s d =
    let t = record s { ftp_data = record s.ftp_data { receptions = receptions } } in
    IsDataFrame-IsDeaf t _ d (file_arrived-IsDataFrame arrival r t)

end_read-IsDeaf :
    (reads : ℕ) (net : Network) (packet : Bytes) (headers : Option Bytes) (s s' : Session)
    → s.reads ≡ reads
    → IsDeaf s
    → end_read reads net packet headers s ≡ ok s'
    → IsDeaf s'
unfolding end_read
end_read-IsDeaf zero net packet headers s s' r d e = subst IsDeaf (ok-injective e) d
end_read-IsDeaf (suc reads) net packet headers s s' r d e = absurd (omega (arith, r, d.0))

end_failed_read-IsDeaf :
    (reads : ℕ) (s : Session) → s.reads ≡ reads → IsDeaf s → IsDeaf (end_failed_read reads s)
unfolding end_failed_read
end_failed_read-IsDeaf zero s r d = d
end_failed_read-IsDeaf (suc reads) s r d = absurd (omega (arith, r, d.0))

end_upload-IsDeaf :
    (uploads : List Upload) (body : Option File) (s : Session)
    → s.uploads ≡ uploads
    → IsDeaf s
    → IsDeaf (end_upload uploads body s)
unfolding end_upload
end_upload-IsDeaf [] body s u d = d
end_upload-IsDeaf (upload ∷ uploads) body s u d = absurd (ground (arith, u, d.1))

step-IsDeaf : (event : Event) (s s' : Session) → IsDeaf s → step event s ≡ ok s' → IsDeaf s'
unfolding step
step-IsDeaf message_posted s s' d e = run_posted-IsDeaf s.posted s s' d e
step-IsDeaf (message_sent failed) s s' d e = end_write-IsDeaf s.output.writes failed s s' d e
step-IsDeaf (packet_received net packet headers) s s' d e =
    end_read-IsDeaf s.reads net packet headers s s' refl d e
step-IsDeaf read_failed s s' d e =
    subst IsDeaf (ok-injective e) (end_failed_read-IsDeaf s.reads s refl d)
step-IsDeaf (body_received body) s s' d e =
    subst IsDeaf (ok-injective e) (end_upload-IsDeaf s.uploads body s refl d)
step-IsDeaf (connection_accepted error) s s' d e =
    subst IsDeaf (ok-injective e) (end_accept-IsDeaf s.accepts error s d)
step-IsDeaf data_posted s s' d e = run_task-IsDeaf s.ftp_data.tasks s s' d e
step-IsDeaf (data_sent failed) s s' d e = end_data_write-IsDeaf s.ftp_data.writes failed s s' d e
step-IsDeaf (data_received i arrival) s s' d e =
    subst IsDeaf (ok-injective e)
      (end_reception-IsDeaf (take_out i s.ftp_data.receptions) arrival s d)

run-IsDeaf : (events : List Event) (s s' : Session) → IsDeaf s → run events s ≡ ok s' → IsDeaf s'
unfolding run
run-IsDeaf [] s s' d e = subst IsDeaf (ok-injective e) d
run-IsDeaf (event ∷ events) s s' d e =
    let (t, f, r) = >>=-eq-ok (step event s) (run events) e in
    run-IsDeaf events t s' (step-IsDeaf event s t d f) r

no_uploads : (s : Session) → IsSound s → s.reads ≡ 1 → s.uploads ≡ []
no_uploads s h r = empty s.uploads refl
  where
    empty : (uploads : List Upload) → s.uploads ≡ uploads → s.uploads ≡ []
    empty [] e = e
    empty (u ∷ uploads) e = absurd (ground (arith, e, r, h.one_read))

refused-IsDeaf :
    (reads : ℕ) (net : Network) (request headers : Bytes) (s s' : Session)
    → s.reads ≡ reads
    → IsSound s
    → 0 < reads
    → s.authenticate ≡ true
    → detect_protocol request ≡ ok AppLayerProtocol.http
    → ¬ Accepted (request ++ headers) s
    → end_read reads net request (some headers) s ≡ ok s'
    → IsDeaf s'
unfolding end_read receive_packet handle_packet
refused-IsDeaf zero net request headers s s' r h some_read a p n e = absurd (omega arith)
refused-IsDeaf (suc reads) net request headers s s' r h some_read a p n e =
    let t = record s { reads = reads } in
    let none_left : reads ≡ 0 = omega (arith, h.one_read, r) in
    elim (handle_http-authorized request headers t s' a (rw p at e)) [
      | inl accepted ↦ absurd (n accepted)
      | inr (files, uploads, same) ↦
          (same ∙ none_left, uploads ∙ no_uploads s h (omega (arith, r, none_left)))
    ]

-- On a server that authenticates, after an HTTP request without credentials that the database
-- accepts, in a sound session that was reading, no read of a request or a body is pending after
-- any completions that end normally.
pub refused-deaf :
    (net : Network) (request headers : Bytes) (events : List Event) (s s' : Session)
    → IsSound s
    → s.reads ≡ 1
    → s.authenticate ≡ true
    → detect_protocol request ≡ ok AppLayerProtocol.http
    → ¬ Accepted (request ++ headers) s
    → run (packet_received net request (some headers) ∷ events) s ≡ ok s'
    → (s'.reads ≡ 0) × (s'.uploads ≡ [])
unfolding run step
refused-deaf net request headers events s s' h r a p n e =
    let (t, f, k) =
      >>=-eq-ok (step (packet_received net request (some headers)) s) (run events) e in
    run-IsDeaf events t s'
      (refused-IsDeaf s.reads net request headers s t refl h (omega (arith, r)) a p n f) k
