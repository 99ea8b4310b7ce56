-- ===== src/Session/Events/Order.antt =====
-- Messages leave in the order in which they were posted, and all of them can.
use in_memory_object_storage.Common.{
  ℕ, ◌≡◌, ◌∙◌, refl, sym, ap, false, List, [], ◌∷◌, ◌++◌, append_assoc, append-nil, arith, ok,
}
use in_memory_object_storage.Common.Text.{Bytes}
use in_memory_object_storage.Session.{Session, Output}
use in_memory_object_storage.Session.Messages.{is_empty, enqueue_message, message_written}
use in_memory_object_storage.Session.Messages.Sending.{
  IsSending, messages, enqueue_message-IsSending,
}
use in_memory_object_storage.Session.Events.{
  Event, message_posted, message_sent, with_output, run_posted, end_write, step, run,
}
use in_memory_object_storage.Session.Events.Invariant.{IsSound}
use in_memory_object_storage.Session.Events.Effects.{outgoing}

-- No write has failed: the queue has a write pending, if it is not empty.
abbrev pub IsHealthy : Output → Type 0
IsHealthy o = is_empty o.output_queue ≡ false → o.writes ≡ 1

run-cons :
    (event : Event) (events : List Event) (s t s' : Session)
    → step event s ≡ ok t
    → run events t ≡ ok s'
    → run (event ∷ events) s ≡ ok s'
unfolding run
run-cons event events s t s' e f = rw e f

Delivers : Session → Type 0
Delivers s =
    (events : List Event) × (s' : Session) × (run events s ≡ ok s')
    × (s'.output.sent ≡ outgoing s)
    × (outgoing s' ≡ s'.output.sent)

-- The state behind the front message of the queue.
abbrev after_front : Session → Bytes → List Bytes → ℕ → Session
after_front s message queue writes = record s {
  output = record { output_queue = queue; writes = writes; sent = s.output.sent ++ message ∷ [] };
}

after_front-outgoing :
    (s : Session) (message : Bytes) (queue : List Bytes) (writes : ℕ)
    → s.output.output_queue ≡ message ∷ queue
    → outgoing (after_front s message queue writes) ≡ outgoing s
after_front-outgoing s message queue writes q =
    ap (λ l. l ++ s.posted)
      (append_assoc s.output.sent (message ∷ []) queue ∙ ap (λ l. s.output.sent ++ l) (sym q))

deliver_queue :
    (queue : List Bytes) (s : Session)
    → s.posted ≡ []
    → s.output.output_queue ≡ queue
    → IsHealthy s.output
    → Delivers s
unfolding run Delivers step end_write with_output message_written
deliver_queue [] s p q h = (
  [],
  s,
  refl,
  ground (arith, p, q, append-nil s.output.sent),
  ground (arith, p, q, append-nil s.output.sent),
)
deliver_queue (message ∷ []) s p q h =
    let t = after_front s message [] 0 in
    let first : step (message_sent false) s ≡ ok t = ground (arith, p, q, h) in
    let (events, s', r, sent, rest) = deliver_queue [] t p refl (λ z. cc) in
    (
      message_sent false ∷ events,
      s',
      run-cons (message_sent false) events s t s' first r,
      sent ∙ after_front-outgoing s message [] 0 q,
      rest,
    )
deliver_queue (message ∷ second ∷ queue) s p q h =
    let t = after_front s message (second ∷ queue) 1 in
    let first : step (message_sent false) s ≡ ok t = ground (arith, p, q, h) in
    let (events, s', r, sent, rest) = deliver_queue (second ∷ queue) t p refl (λ z. refl) in
    (
      message_sent false ∷ events,
      s',
      run-cons (message_sent false) events s t s' first r,
      sent ∙ after_front-outgoing s message (second ∷ queue) 1 q,
      rest,
    )

enqueue_message-IsHealthy :
    (message : Bytes) (o o' : Output)
    → IsSending o
    → IsHealthy o
    → enqueue_message message o ≡ ok o'
    → IsHealthy o'
unfolding enqueue_message
enqueue_message-IsHealthy message o o' h healthy e f = ground (arith, h.one, h.busy, healthy, e, f)

deliver_posted :
    (posted : List Bytes) (s : Session)
    → s.posted ≡ posted
    → IsSending s.output
    → IsHealthy s.output
    → Delivers s
unfolding Delivers step run_posted with_output
deliver_posted [] s p h healthy = deliver_queue s.output.output_queue s p refl healthy
deliver_posted (message ∷ posted) s p h healthy =
    let (o, e, sending, order) = enqueue_message-IsSending message s.output h in
    let t = record s { posted = posted; output = o } in
    let first : step message_posted s ≡ ok t = rw (p, step, run_posted) (rw e refl) in
    let (events, s', r, sent, rest) =
      deliver_posted posted t refl sending
        (enqueue_message-IsHealthy message s.output o h healthy e) in
    let same : outgoing t ≡ outgoing s =
      ap (λ l. l ++ posted) order
      ∙ append_assoc (messages s.output) (message ∷ []) posted
      ∙ ap (λ l. messages s.output ++ l) (sym p) in
    (message_posted ∷ events, s', run-cons message_posted events s t s' first r, sent ∙ same, rest)

-- From a sound session in which a write is pending whenever the message queue is not empty, some
-- completions follow one another after which every message that was queued or posted is sent, in
-- order, and none is left.
pub deliver_lem :
    (s : Session)
    → IsSound s
    → IsHealthy s.output
    → (events : List Event) × (s' : Session) × (run events s ≡ ok s')
      × (s'.output.sent ≡ outgoing s)
      × (outgoing s' ≡ s'.output.sent)
unfolding Delivers
deliver_lem s h healthy = deliver_posted s.posted s refl h.sending healthy
