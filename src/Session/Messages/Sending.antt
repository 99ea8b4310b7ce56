-- ===== src/Session/Messages/Sending.antt =====
-- The queue of messages: when a write is pending, and in which order messages leave.
use in_memory_object_storage.Common.{
  ℕ, suc, ◌≤◌, ◌<◌, ◌≡◌, refl, sym, Bool, true, false, List, [], ◌∷◌, ◌++◌, append-nil,
  append_assoc, arith, ok,
}
use in_memory_object_storage.Common.Text.{Bytes}
use in_memory_object_storage.Session.{Output}
use in_memory_object_storage.Session.Messages.{is_empty, enqueue_message, message_written}

-- At most one write is pending, and then the queue has its message in front.
pub record IsSending (o : Output) : Type 0 where
  pub one : o.writes ≤ 1
  pub busy : 0 < o.writes → is_empty o.output_queue ≡ false

-- What was sent, and what waits to be, in order.
abbrev pub messages : Output → List Bytes
messages o = o.sent ++ o.output_queue

-- The task of sendMessage ends, and puts its message last.
pub enqueue_message-IsSending :
    (message : Bytes) (o : Output)
    → IsSending o
    → (o' : Output) × (enqueue_message message o ≡ ok o')
      × IsSending o'
      × (messages o' ≡ messages o ++ message ∷ [])
unfolding enqueue_message
enqueue_message-IsSending message o h = go o.output_queue refl
  where
    go :
        (queue : List Bytes)
        → o.output_queue ≡ queue
        → (o' : Output) × (enqueue_message message o ≡ ok o')
          × IsSending o'
          × (messages o' ≡ messages o ++ message ∷ [])
    go [] e = (
      record o { output_queue = message ∷ []; writes = suc o.writes },
      ground (arith, e),
      ground (arith, e, h.busy),
      rw e (rw append-nil refl),
    )
    go (m ∷ queue) e = (
      record o { output_queue = m ∷ (queue ++ message ∷ []) },
      ground (arith, e),
      ground (arith, e, h.one),
      rw e (sym (append_assoc o.sent (m ∷ queue) (message ∷ []))),
    )

-- The completion of the pending write ends, and no message is lost or moved.
pub message_written-IsSending :
    (failed : Bool) (writes : ℕ) (o : Output)
    → o.writes ≡ suc writes
    → IsSending o
    → (o' : Output) × (message_written failed writes o ≡ ok o')
      × IsSending o'
      × (messages o' ≡ messages o)
unfolding message_written
message_written-IsSending true writes o e h =
    (record o { writes = writes }, refl, ground (arith, e, h.one, h.busy), refl)
message_written-IsSending false writes o e h = go o.output_queue refl
  where
    go :
        (queue : List Bytes)
        → o.output_queue ≡ queue
        → (o' : Output) × (message_written false writes o ≡ ok o')
          × IsSending o'
          × (messages o' ≡ messages o)
    go [] q = absurd (ground (arith, q, e, h.busy))
    go (m ∷ []) q = (
      record o { output_queue = []; writes = writes; sent = o.sent ++ m ∷ [] },
      ground (arith, q),
      ground (arith, e, h.one),
      rw q (append-nil _),
    )
    go (m ∷ n ∷ queue) q = (
      record o { output_queue = n ∷ queue; writes = suc writes; sent = o.sent ++ m ∷ [] },
      ground (arith, q),
      ground (arith, e, h.one),
      rw q (append_assoc o.sent (m ∷ []) (n ∷ queue)),
    )
