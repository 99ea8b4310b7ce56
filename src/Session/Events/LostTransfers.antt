-- ===== src/Session/Events/LostTransfers.antt =====
-- When an FTP session never delivers a file again: after a failed write, and after a second transfer
-- that begins while the first is under way.
use in_memory_object_storage.Common.{
  ℕ, ◌+◌, ◌≤◌, ◌≡◌, ◌∙◌, refl, subst, true, List, [], ◌∷◌, Option, none, arith, length, ok,
  >>=-eq-ok, ok-injective,
}
use in_memory_object_storage.MemoryFs.{File}
use in_memory_object_storage.Session.{Session, DataTask, send_data, DataWrite, reply}
use in_memory_object_storage.Session.DataTransfer.{perform, data_written}
use in_memory_object_storage.Session.DataTransfer.Transferring.{IsTransferring, count_sends}
use in_memory_object_storage.Session.Events.{
  Event, data_posted, data_sent, run_task, end_data_write, step, run,
}
use in_memory_object_storage.Session.Events.Invariant.{IsSound}
use in_memory_object_storage.Session.DataTransfer.Stalled.{IsStalled}
use in_memory_object_storage.Session.Events.Stall.{Stays, step-Stays}

run-Stays :
    (events : List Event) (s s' : Session)
    → IsStalled s.ftp_data
    → run events s ≡ ok s'
    → Stays s s'
unfolding run
run-Stays [] s s' h e = subst (Stays s) (ok-injective e) (h, refl)
run-Stays (event ∷ events) s s' h e =
    let (t, f, r) = >>=-eq-ok (step event s) (run events) e in
    let (stalled, same) = step-Stays event s t h f in
    let (stalled', same') = run-Stays events t s' stalled r in (stalled', same' ∙ same)

end_failed_write-Stays :
    (writes : List DataWrite) (w : DataWrite) (front next : Option File)
    (buffer : List (Option File)) (s s' : Session)
    → s.ftp_data.buffer ≡ front ∷ next ∷ buffer
    → count_sends s.ftp_data.tasks + length (w ∷ writes) ≤ 1
    → end_data_write (w ∷ writes) true s ≡ ok s'
    → Stays s s'
unfolding end_data_write data_written
end_failed_write-Stays [] w front next buffer s s' b one e = ground (arith, b, one, e)
end_failed_write-Stays (v ∷ writes) w front next buffer s s' b one e = absurd (omega (arith, one))

-- In a sound session, after the write of a file on a data connection has failed while more waited
-- in the buffer, no file is ever written successfully again, whatever completions follow and end
-- normally.
pub failed_write-delivered :
    (w : DataWrite) (writes : List DataWrite) (front next : Option File)
    (buffer : List (Option File)) (events : List Event) (s s' : Session)
    → IsSound s
    → s.ftp_data.writes ≡ w ∷ writes
    → s.ftp_data.buffer ≡ front ∷ next ∷ buffer
    → run (data_sent true ∷ events) s ≡ ok s'
    → s'.ftp_data.delivered ≡ s.ftp_data.delivered
unfolding run step
failed_write-delivered w writes front next buffer events s s' h v b e =
    let safe : IsTransferring s.ftp_data.tasks s.ftp_data = h.transferring in
    let (t, f, r) = >>=-eq-ok (step (data_sent true) s) (run events) e in
    let one : count_sends s.ftp_data.tasks + length (w ∷ writes) ≤ 1 =
      subst (λ l. count_sends s.ftp_data.tasks + length l ≤ 1) v safe.one in
    let (stalled, same) = end_failed_write-Stays writes w front next buffer s t b one (rw v at f) in
    (run-Stays events t s' stalled r).1 ∙ same

-- The end of a transmission while more stands behind it.
end_of_first-Stays :
    (socket : ℕ) (tasks : List DataTask) (next : Option File) (buffer : List (Option File))
    (s s' : Session)
    → s.ftp_data.buffer ≡ none ∷ next ∷ buffer
    → IsTransferring (send_data socket ∷ tasks) s.ftp_data
    → run_task (send_data socket ∷ tasks) s ≡ ok s'
    → Stays s s'
unfolding run_task perform reply
end_of_first-Stays socket tasks next buffer s s' b safe e = elim_writes s.ftp_data.writes refl
  where
    elim_writes : (writes : List DataWrite) → s.ftp_data.writes ≡ writes → Stays s s'
    elim_writes [] v = ground (arith, b, e, v, safe.one)
    elim_writes (w ∷ writes) v = absurd (ground (arith, v, safe.one))

-- In a sound session, once the end of one transfer is taken from the buffer while the next
-- transfer waits behind it, no file is ever written successfully again, whatever completions
-- follow and end normally.
pub overlap-delivered :
    (socket : ℕ) (tasks : List DataTask) (next : Option File) (buffer : List (Option File))
    (events : List Event) (s s' : Session)
    → IsSound s
    → s.ftp_data.tasks ≡ send_data socket ∷ tasks
    → s.ftp_data.buffer ≡ none ∷ next ∷ buffer
    → run (data_posted ∷ events) s ≡ ok s'
    → s'.ftp_data.delivered ≡ s.ftp_data.delivered
unfolding run step
overlap-delivered socket tasks next buffer events s s' h k b e =
    let (t, f, r) = >>=-eq-ok (step data_posted s) (run events) e in
    let safe : IsTransferring (send_data socket ∷ tasks) s.ftp_data =
      subst (λ l. IsTransferring l s.ftp_data) k h.transferring in
    let (stalled, same) = end_of_first-Stays socket tasks next buffer s t b safe (rw k at f) in
    (run-Stays events t s' stalled r).1 ∙ same
