-- ===== src/Session/Events/Soundness.antt =====
-- Every event keeps the invariant, and only a packet may fail.
use in_memory_object_storage.Common.{
  ℕ, zero, suc, ◌+◌, ◌≡◌, ◌∙◌, refl, sym, subst, Bool, true, false, Option, arith, length, Outcome,
  ok, >>=-eq-ok, ok-injective, Ensures-ok,
}
use in_memory_object_storage.Common.Text.{Bytes}
use in_memory_object_storage.MemoryFs.{IsStore}
use in_memory_object_storage.Protocol.Detector.{AppLayerProtocol, detect_protocol}
use in_memory_object_storage.Session.{Session, Network}
use in_memory_object_storage.Session.Frame.{IsFrame, Removes-Changes}
use in_memory_object_storage.Session.Ftp.Guards.{IsAuthentic, handle_ftp-IsAuthentic}
use in_memory_object_storage.Session.Ftp.Frame.{handle_ftp-IsFrame}
use in_memory_object_storage.Session.Http.Frame.{IsHttpFrame, handle_http-Ensures}
use in_memory_object_storage.Session.Messages.Sending.{IsSending}
use in_memory_object_storage.Session.DataTransfer.Transferring.{IsSafe}
use in_memory_object_storage.Session.Events.{
  Event, message_posted, message_sent, packet_received, read_failed, body_received,
  connection_accepted, data_posted, data_sent, data_received, handle_packet, receive_packet,
  end_read, take_out, step,
}
use in_memory_object_storage.Session.Events.Invariant.{
  IsSound, Ends, Changes-IsStore, IsSafe-eq, IsAuthentic-eq, run_posted-Ends, end_write-Ends,
  end_failed_read-IsSound, end_upload-IsSound, end_accept-IsSound, run_task-Ends,
  end_data_write-Ends, end_reception-IsSound,
}

IsFrame-IsSound :
    (s s' : Session)
    → IsSending s.output
    → IsSafe s
    → s.reads + length s.uploads ≡ 0
    → IsStore s.filesystem
    → IsFrame s s'
    → IsAuthentic s'
    → IsSound s'
IsFrame-IsSound s s' sending safe no_read store f authentic = record {
  sending = subst IsSending (sym f.output) sending;
  transferring = IsSafe-eq s s' f.ftp_data safe;
  one_read = omega (arith, f.reading, no_read);
  store =
      Changes-IsStore s.filesystem s'.filesystem
        (Removes-Changes s.filesystem s'.filesystem f.filesystem) store;
  authentic = authentic;
}

-- A packet at a session with no read pending.
handle_packet-IsSound :
    (protocol : AppLayerProtocol) (net : Network) (packet : Bytes) (headers : Option Bytes)
    (s s' : Session)
    → IsSending s.output
    → IsSafe s
    → s.reads + length s.uploads ≡ 0
    → IsStore s.filesystem
    → IsAuthentic s
    → handle_packet protocol net packet headers s ≡ ok s'
    → IsSound s'
unfolding handle_packet
handle_packet-IsSound AppLayerProtocol.http net packet headers s s' sending safe no_read store a e =
    let (f, user) = Ensures-ok (IsHttpFrame s) (handle_http-Ensures packet headers s) e in
    IsFrame-IsSound s s' sending safe no_read store f (IsAuthentic-eq s s' f.users user a)
handle_packet-IsSound AppLayerProtocol.ftp net packet headers s s' sending safe no_read store a e =
    IsFrame-IsSound s s' sending safe no_read store (handle_ftp-IsFrame net packet s s' e)
      (handle_ftp-IsAuthentic net packet s s' a e)

end_read-IsSound :
    (reads : ℕ) (net : Network) (packet : Bytes) (headers : Option Bytes) (s s' : Session)
    → s.reads ≡ reads
    → IsSound s
    → end_read reads net packet headers s ≡ ok s'
    → IsSound s'
unfolding end_read receive_packet
end_read-IsSound zero net packet headers s s' r h e = subst IsSound (ok-injective e) h
end_read-IsSound (suc reads) net packet headers s s' r h e =
    let t = record s { reads = reads } in
    let (protocol, _, k) =
      >>=-eq-ok (detect_protocol packet) (λ p. handle_packet p net packet headers t) e in
    handle_packet-IsSound protocol net packet headers t s' h.sending h.transferring
      (omega (arith, h.one_read, r)) h.store h.authentic k

Ends-IsSound : (s' : Session) (o : Outcome Session) → Ends o → o ≡ ok s' → IsSound s'
Ends-IsSound s' o (t, e, h) f = subst IsSound (ok-injective (sym e ∙ f)) h

abbrev pub is_packet : Event → Bool
is_packet (packet_received net packet headers) = true
is_packet _ = false

-- In a sound session every completion but that of the read of a request ends normally: no empty
-- queue is read, nothing throws or runs on without end, and the session is sound again.
pub step-Ends :
    (event : Event) (s : Session) → is_packet event ≡ false → IsSound s → Ends (step event s)
unfolding step
step-Ends message_posted s n h = run_posted-Ends s.posted s h
step-Ends (message_sent failed) s n h = end_write-Ends s.output.writes failed s refl h
step-Ends (packet_received net packet headers) s n h = cc
step-Ends read_failed s n h = (_, refl, end_failed_read-IsSound s.reads s refl h)
step-Ends (body_received body) s n h = (_, refl, end_upload-IsSound s.uploads body s refl h)
step-Ends (connection_accepted error) s n h = (_, refl, end_accept-IsSound s.accepts error s h)
step-Ends data_posted s n h = run_task-Ends s.ftp_data.tasks s refl h
step-Ends (data_sent failed) s n h = end_data_write-Ends s.ftp_data.writes failed s refl h
step-Ends (data_received i arrival) s n h =
    (_, refl, end_reception-IsSound (take_out i s.ftp_data.receptions) arrival s h)

pub step-IsSound : (event : Event) (s s' : Session) → IsSound s → step event s ≡ ok s' → IsSound s'
unfolding step
step-IsSound (packet_received net packet headers) s s' h e =
    end_read-IsSound s.reads net packet headers s s' refl h e
step-IsSound message_posted s s' h e = Ends-IsSound s' _ (step-Ends message_posted s refl h) e
step-IsSound (message_sent failed) s s' h e =
    Ends-IsSound s' _ (step-Ends (message_sent failed) s refl h) e
step-IsSound read_failed s s' h e = Ends-IsSound s' _ (step-Ends read_failed s refl h) e
step-IsSound (body_received body) s s' h e =
    Ends-IsSound s' _ (step-Ends (body_received body) s refl h) e
step-IsSound (connection_accepted error) s s' h e =
    Ends-IsSound s' _ (step-Ends (connection_accepted error) s refl h) e
step-IsSound data_posted s s' h e = Ends-IsSound s' _ (step-Ends data_posted s refl h) e
step-IsSound (data_sent failed) s s' h e =
    Ends-IsSound s' _ (step-Ends (data_sent failed) s refl h) e
step-IsSound (data_received i arrival) s s' h e =
    Ends-IsSound s' _ (step-Ends (data_received i arrival) s refl h) e
