-- ===== src/Session/Start/Greeting.antt =====
-- A session that has just begun.
use in_memory_object_storage.Common.{
  Bool, ℕ, ◌≤◌, ◌<◌, ◌≡◌, inl, inr, List, [], ◌∷◌, ◌++◌, arith, Bool-cases,
}
use in_memory_object_storage.Common.Text.{Bytes, codes}
use in_memory_object_storage.MemoryFs.{MemoryFs, IsStore}
use in_memory_object_storage.UserDatabase.{UserDatabase}
use in_memory_object_storage.Protocol.FtpResponse.{with_text, serialize, service_ready_for_new_user}
use in_memory_object_storage.Session.{Session, new_session, reply, receive_message}
use in_memory_object_storage.Session.Events.Invariant.{IsSound}
use in_memory_object_storage.Session.Start.{PortRange, is_ftp_port, start}

begun-IsSound :
    (users : UserDatabase) (authenticate : Bool) (filesystem : MemoryFs) (posted : List Bytes)
    → IsStore filesystem
    → IsSound (record (new_session users authenticate filesystem) { reads = 1; posted = posted })
unfolding new_session
begun-IsSound users authenticate filesystem posted h = record {
  sending = record { one = omega arith; busy = λ n. absurd (omega arith) };
  transferring = record { one = omega arith; busy = λ n. absurd (omega arith) };
  one_read = omega arith;
  store = h;
  authentic = tt;
}

-- A session that starts is sound.
pub start-IsSound :
    (users : UserDatabase) (authenticate : Bool) (filesystem : MemoryFs) (range : PortRange)
    (client_port : ℕ)
    → IsStore filesystem
    → IsSound (start range client_port (new_session users authenticate filesystem))
unfolding start new_session receive_message reply
start-IsSound users authenticate filesystem range client_port h =
    elim (Bool-cases (is_ftp_port range client_port)) [
      | inl e ↦ rw e (begun-IsSound users authenticate filesystem _ h)
      | inr e ↦ rw e (begun-IsSound users authenticate filesystem _ h)
    ]

pub start-greets_iff :
    (range : PortRange) (client_port : ℕ) (s : Session)
    → ((range.min_port ≤ client_port) × (client_port < range.max_port)
        → (start range client_port s).posted
          ≡ s.posted
            ++ serialize
                (with_text service_ready_for_new_user (codes "Welcome to ObjectStorage server"))
              ∷ [])
      × (((range.min_port ≤ client_port) × (client_port < range.max_port) → ⊥)
          → (start range client_port s).posted ≡ s.posted)
unfolding start receive_message reply
start-greets_iff range client_port s = (λ h. ground arith, λ h. ground arith)
