-- ===== src/Session/Messages.antt =====
-- The sending of messages in server/object_storage/src/session.cpp: the task of sendMessage and
-- sendMessageHandler with its completion.
pub mod Sending
use in_memory_object_storage.Common.{
  ℕ, zero, suc, Bool, true, false, not, List, [], ◌∷◌, ◌++◌, if◌then◌else◌, Outcome, ok, undefined,
}
use in_memory_object_storage.Common.Text.{Bytes}
use in_memory_object_storage.Session.{Session, Output}

abbrev pub is_empty {ℓ} : {A : Type ℓ} → List A → Bool
is_empty [] = true
is_empty (x ∷ xs) = false

-- `front` of an empty queue is undefined.
unfoldable pub send_message_handler : Output → Outcome Output
send_message_handler o =
    if is_empty o.output_queue then undefined else ok (record o { writes = suc o.writes })

-- The task that `sendMessage` posts.
unfoldable pub enqueue_message : Bytes → Output → Outcome Output
unfolding send_message_handler
enqueue_message message o =
    let o' = record o { output_queue = o.output_queue ++ message ∷ [] } in
    if not (is_empty o.output_queue) then ok o' else send_message_handler o'

-- `pop_front` without an error, and the next write if there is more.
unfoldable pub pop_message : List Bytes → Output → Outcome Output
unfolding send_message_handler
pop_message [] o = undefined
pop_message (message ∷ queue) o =
    let o' = record o { output_queue = queue; sent = o.sent ++ message ∷ [] } in
    if not (is_empty queue) then send_message_handler o' else ok o'

-- The completion of a write, where `writes` others are pending; after an error nothing is popped.
unfoldable pub message_written : Bool → ℕ → Output → Outcome Output
unfolding pop_message
message_written true writes o = ok (record o { writes = writes })
message_written false writes o = pop_message o.output_queue (record o { writes = writes })
