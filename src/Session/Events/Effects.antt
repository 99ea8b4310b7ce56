-- ===== src/Session/Events/Effects.antt =====
-- What an event does to the files, and to the messages that leave.
use in_memory_object_storage.Common.{
  ℕ, zero, suc, ◌≡◌, ◌∙◌, refl, inl, sym, ap, subst, Bool, List, [], ◌∷◌, ◌++◌, append_assoc,
  append-nil, Option, none, some, Outcome, ok, >>=-eq-ok, ok-injective, Ensures-ok, Ensures, ends,
  by_throw, by_undefined, by_divergence, throws, undefined, diverges,
}
use in_memory_object_storage.Common.Text.{Bytes}
use in_memory_object_storage.MemoryFs.{File}
use in_memory_object_storage.Protocol.Detector.{AppLayerProtocol, detect_protocol}
use in_memory_object_storage.Session.{
  Session, Network, Upload, DataConnection, Accept, DataTask, DataWrite, Reception, post_data,
  receive_message,
}
use in_memory_object_storage.Session.Frame.{IsFrame, Changes, Removes-Changes, Prefix, Prefix-refl}
use in_memory_object_storage.Session.Ftp.Frame.{handle_ftp-IsFrame}
use in_memory_object_storage.Session.Http.{finish_put}
use in_memory_object_storage.Session.Http.Frame.{
  IsHttpFrame, handle_http-Ensures, finish_put-IsDone,
}
use in_memory_object_storage.Session.Messages.Sending.{
  IsSending, messages, enqueue_message-IsSending, message_written-IsSending,
}
use in_memory_object_storage.Session.Transfer.{Arrival}
use in_memory_object_storage.Session.DataTransfer.Frame.{
  IsDataFrame, perform-Ensures, data_written-Ensures, accepted-IsDataFrame,
  file_arrived-IsDataFrame,
}
use in_memory_object_storage.Session.Events.{
  Event, message_posted, message_sent, packet_received, read_failed, body_received,
  connection_accepted, data_posted, data_sent, data_received, with_output, handle_packet,
  receive_packet, fail_read, run_posted, end_write, end_read, end_failed_read, end_upload,
  end_accept, run_task, end_data_write, end_reception, take_out, step,
}
use in_memory_object_storage.Session.Events.Invariant.{IsSound}

-- Every message that was posted: what was sent, then the queue, then what waits on the strand.
abbrev pub outgoing : Session → List Bytes
outgoing s = messages s.output ++ s.posted

pub record IsEffect (s s' : Session) : Type 0 where
  pub users : s'.users ≡ s.users
  pub order : Prefix (outgoing s) (outgoing s')
  pub files : Changes s.filesystem s'.filesystem

IsEffect-refl : (s : Session) → IsEffect s s
IsEffect-refl s = record { users = refl; order = Prefix-refl (outgoing s); files = inl refl }

-- With the output as it was, later messages stand behind.
outgoing-Prefix :
    (s s' : Session)
    → s'.output ≡ s.output
    → Prefix s.posted s'.posted
    → Prefix (outgoing s) (outgoing s')
outgoing-Prefix s s' e (more, f) =
    (more, rw (e, f) (sym (append_assoc (messages s.output) s.posted more)))

IsFrame-IsEffect : (s s' : Session) → IsFrame s s' → IsEffect s s'
IsFrame-IsEffect s s' f = record {
  users = f.users;
  order = outgoing-Prefix s s' f.output f.posted;
  files = Removes-Changes s.filesystem s'.filesystem f.filesystem;
}

IsDataFrame-IsEffect : (s s' : Session) → IsDataFrame s s' → IsEffect s s'
IsDataFrame-IsEffect s s' f = record {
  users = f.users;
  order = outgoing-Prefix s s' f.output f.posted;
  files = f.filesystem;
}

run_posted-Ensures :
    (posted : List Bytes) (s : Session)
    → s.posted ≡ posted
    → IsSending s.output
    → Ensures (IsEffect s) (run_posted posted s)
unfolding run_posted with_output
run_posted-Ensures [] s e h = ends (IsEffect-refl s)
run_posted-Ensures (message ∷ posted) s e h =
    let (o, f, _, order) = enqueue_message-IsSending message s.output h in
    rw f (
      ends (record {
        users = refl;
        order = (
          [],
          ap (λ l. l ++ posted) order
              ∙ append_assoc (messages s.output) (message ∷ []) posted
              ∙ ap (λ l. messages s.output ++ l) (sym e)
              ∙ sym (append-nil _),
        );
        files = inl refl;
      }))

end_write-Ensures :
    (writes : ℕ) (failed : Bool) (s : Session)
    → s.output.writes ≡ writes
    → IsSending s.output
    → Ensures (IsEffect s) (end_write writes failed s)
unfolding end_write with_output
end_write-Ensures zero failed s e h = ends (IsEffect-refl s)
end_write-Ensures (suc writes) failed s e h =
    let (o, f, _, order) = message_written-IsSending failed writes s.output e h in
    rw f (
      ends (record {
        users = refl;
        order = ([], ap (λ l. l ++ s.posted) order ∙ sym (append-nil _));
        files = inl refl;
      }))

pub handle_packet-IsFrame :
    (protocol : AppLayerProtocol) (net : Network) (packet : Bytes) (headers : Option Bytes)
    (s s' : Session)
    → handle_packet protocol net packet headers s ≡ ok s'
    → IsFrame s s'
unfolding handle_packet
handle_packet-IsFrame AppLayerProtocol.http net packet headers s s' e =
    (Ensures-ok (IsHttpFrame s) (handle_http-Ensures packet headers s) e).0
handle_packet-IsFrame AppLayerProtocol.ftp net packet headers s s' e =
    handle_ftp-IsFrame net packet s s' e

end_read-IsEffect :
    (reads : ℕ) (net : Network) (packet : Bytes) (headers : Option Bytes) (s s' : Session)
    → end_read reads net packet headers s ≡ ok s'
    → IsEffect s s'
unfolding end_read receive_packet
end_read-IsEffect zero net packet headers s s' e =
    subst (IsEffect s) (ok-injective e) (IsEffect-refl s)
end_read-IsEffect (suc reads) net packet headers s s' e =
    let t = record s { reads = reads } in
    let (protocol, _, k) =
      >>=-eq-ok (detect_protocol packet) (λ p. handle_packet p net packet headers t) e in
    let f = IsFrame-IsEffect t s' (handle_packet-IsFrame protocol net packet headers t s' k) in
    record { users = f.users; order = f.order; files = f.files }

end_failed_read-IsEffect : (reads : ℕ) (s : Session) → IsEffect s (end_failed_read reads s)
unfolding end_failed_read fail_read post_data receive_message
end_failed_read-IsEffect zero s = IsEffect-refl s
end_failed_read-IsEffect (suc reads) s = record {
  users = refl;
  order = Prefix-refl (outgoing s);
  files = inl refl;
}

end_upload-IsEffect :
    (uploads : List Upload) (body : Option File) (s : Session)
    → IsEffect s (end_upload uploads body s)
unfolding end_upload
end_upload-IsEffect [] body s = IsEffect-refl s
end_upload-IsEffect (u ∷ uploads) body s =
    let t = record s { uploads = uploads } in
    let f = finish_put-IsDone u.path body t in
    record {
      users = f.users;
      order = outgoing-Prefix s (finish_put u.path body t) f.output f.posted;
      files = f.filesystem;
    }

end_accept-IsEffect :
    (accepts : List Accept) (error : Option Bytes) (s : Session)
    → IsEffect s (end_accept accepts error s)
unfolding end_accept
end_accept-IsEffect [] error s = IsEffect-refl s
end_accept-IsEffect (a ∷ accepts) error s =
    let t = record s { accepts = accepts } in
    let f = IsDataFrame-IsEffect t _ (accepted-IsDataFrame error a t) in
    record { users = f.users; order = f.order; files = f.files }

-- `t` is `s` but for what the data connections hold.
IsDataFrame-Ensures :
    (s : Session) (d : DataConnection) (o : Outcome Session)
    → Ensures (IsDataFrame (record s { ftp_data = d })) o
    → Ensures (IsEffect s) o
IsDataFrame-Ensures s d (ok s') (ends f) =
    let g = IsDataFrame-IsEffect (record s { ftp_data = d }) s' f in
    ends (record { users = g.users; order = g.order; files = g.files })
IsDataFrame-Ensures s d throws by_throw = by_throw
IsDataFrame-Ensures s d undefined by_undefined = by_undefined
IsDataFrame-Ensures s d diverges by_divergence = by_divergence

run_task-Ensures : (tasks : List DataTask) (s : Session) → Ensures (IsEffect s) (run_task tasks s)
unfolding run_task
run_task-Ensures [] s = ends (IsEffect-refl s)
run_task-Ensures (task ∷ tasks) s =
    let t = record s { ftp_data = record s.ftp_data { tasks = tasks } } in
    IsDataFrame-Ensures s t.ftp_data _ (perform-Ensures task t)

end_data_write-Ensures :
    (writes : List DataWrite) (failed : Bool) (s : Session)
    → Ensures (IsEffect s) (end_data_write writes failed s)
unfolding end_data_write
end_data_write-Ensures [] failed s = ends (IsEffect-refl s)
end_data_write-Ensures (w ∷ writes) failed s =
    let t = record s { ftp_data = record s.ftp_data { writes = writes } } in
    IsDataFrame-Ensures s t.ftp_data _ (data_written-Ensures failed w s.ftp_data.buffer t)

end_reception-IsEffect :
    (r : Option (Reception × List Reception)) (arrival : Arrival) (s : Session)
    → IsEffect s (end_reception r arrival s)
unfolding end_reception
end_reception-IsEffect none arrival s = IsEffect-refl s
end_reception-IsEffect (some (r, receptions)) arrival s =
    let t = record s { ftp_data = record s.ftp_data { receptions = receptions } } in
    let f = IsDataFrame-IsEffect t _ (file_arrived-IsDataFrame arrival r t) in
    record { users = f.users; order = f.order; files = f.files }

pub step-IsEffect :
    (event : Event) (s s' : Session) → IsSound s → step event s ≡ ok s' → IsEffect s s'
unfolding step
step-IsEffect message_posted s s' h e =
    Ensures-ok (IsEffect s) (run_posted-Ensures s.posted s refl h.sending) e
step-IsEffect (message_sent failed) s s' h e =
    Ensures-ok (IsEffect s) (end_write-Ensures s.output.writes failed s refl h.sending) e
step-IsEffect (packet_received net packet headers) s s' h e =
    end_read-IsEffect s.reads net packet headers s s' e
step-IsEffect read_failed s s' h e =
    subst (IsEffect s) (ok-injective e) (end_failed_read-IsEffect s.reads s)
step-IsEffect (body_received body) s s' h e =
    subst (IsEffect s) (ok-injective e) (end_upload-IsEffect s.uploads body s)
step-IsEffect (connection_accepted error) s s' h e =
    subst (IsEffect s) (ok-injective e) (end_accept-IsEffect s.accepts error s)
step-IsEffect data_posted s s' h e = Ensures-ok (IsEffect s) (run_task-Ensures s.ftp_data.tasks s) e
step-IsEffect (data_sent failed) s s' h e =
    Ensures-ok (IsEffect s) (end_data_write-Ensures s.ftp_data.writes failed s) e
step-IsEffect (data_received i arrival) s s' h e =
    subst (IsEffect s) (ok-injective e)
      (end_reception-IsEffect (take_out i s.ftp_data.receptions) arrival s)
