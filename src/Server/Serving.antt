-- ===== src/Server/Serving.antt =====
-- What holds of the server and all its sessions between two events.
use in_memory_object_storage.Common.{
  ℕ, ◌≡◌, refl, sym, subst, inl, inr, Bool, true, false, List, [], ◌∷◌, Option, none, some,
  get_elem?, All, All-append, ok, >>=-eq-ok, ok-injective, Bool-cases, ◌&&◌,
}
use in_memory_object_storage.Common.Text.{Bytes}
use in_memory_object_storage.MemoryFs.{MemoryFs, IsStore}
use in_memory_object_storage.UserDatabase.{User, UserDatabase, verify}
use in_memory_object_storage.UserDatabase.Credentials.{verify-add_mono}
use in_memory_object_storage.Session.{Session, new_session}
use in_memory_object_storage.Session.Ftp.Guards.{Authentic}
use in_memory_object_storage.Session.Start.{is_ftp_port, start as start_session}
use in_memory_object_storage.Session.Start.Greeting.{start-IsSound}
use in_memory_object_storage.Session.Events.{Event, step}
use in_memory_object_storage.Session.Events.Invariant.{IsSound}
use in_memory_object_storage.Session.Events.Soundness.{step-IsSound}
use in_memory_object_storage.Session.Events.Effects.{step-IsEffect}
use in_memory_object_storage.Server.Sessions.{All-map, All-get, All-set}
use in_memory_object_storage.Server.{
  ObjectStorage, await_connection, add_user, accept_connection, ServerEvent, connection,
  session_event, user_added, attach, set, end_accept, step_session, step_server, is_handler, serve,
  run_server, server_stopped,
}

-- A session as its constructor leaves it.
abbrev pub IsFresh : Session → Type 0
IsFresh s =
    (users : UserDatabase) × (authenticate : Bool) × (filesystem : MemoryFs) × (s
      ≡ new_session users authenticate filesystem)

-- The shared files have distinct paths, and every session, with the shared objects as they are, is
-- sound.
pub record IsServing (o : ObjectStorage) : Type 0 where
  pub store : IsStore o.filesystem
  pub sound : All (λ s. IsSound (attach o s)) o.sessions
  pub fresh : All IsFresh o.waiting

Authentic-mono :
    (db db' : UserDatabase) (logged_in : Option User)
    → ((u : User) → verify db u ≡ true → verify db' u ≡ true)
    → Authentic db logged_in
    → Authentic db' logged_in
Authentic-mono db db' none f h = tt
Authentic-mono db db' (some u) f h = f u h

-- A session stays sound when users are added and files change.
attach-IsSound :
    (o o' : ObjectStorage) (s : Session)
    → ((u : User) → verify o.users u ≡ true → verify o'.users u ≡ true)
    → IsStore o'.filesystem
    → IsSound (attach o s)
    → IsSound (attach o' s)
attach-IsSound o o' s f store h = record {
  sending = h.sending;
  transferring = record { one = h.transferring.one; busy = h.transferring.busy };
  one_read = h.one_read;
  store = store;
  authentic = Authentic-mono o.users o'.users s.logged_in_user f h.authentic;
}

users-IsSound :
    (s : Session) (users : UserDatabase)
    → s.users ≡ users
    → IsSound s
    → IsSound (record s { users = users })
users-IsSound s users e h = record {
  sending = h.sending;
  transferring = h.transferring;
  one_read = h.one_read;
  store = h.store;
  authentic = subst (λ db. Authentic db s.logged_in_user) e h.authentic;
}

attach-start :
    (o : ObjectStorage) (s : Session) (client_port : ℕ)
    → start_session o.ftp_port_range client_port (attach o s)
      ≡ attach o (start_session o.ftp_port_range client_port (attach o s))
unfolding start_session
attach-start o s client_port = elim (Bool-cases (is_ftp_port o.ftp_port_range client_port)) [
  | inl e ↦ rw e refl
  | inr e ↦ rw e refl
]

fresh-attached :
    (o : ObjectStorage) (s : Session) (client_port : ℕ)
    → IsStore o.filesystem
    → IsFresh s
    → IsSound (attach o (start_session o.ftp_port_range client_port (attach o s)))
unfolding new_session
fresh-attached o s client_port store (users, authenticate, filesystem, e) =
    subst IsSound (attach-start o s client_port) (
      subst (λ t. IsSound (start_session o.ftp_port_range client_port (attach o t))) (sym e)
        (start-IsSound o.users authenticate o.filesystem o.ftp_port_range client_port store))

step_session-IsServing :
    (found : Option Session) (i : ℕ) (event : Event) (o o' : ObjectStorage)
    → get_elem? o.sessions i ≡ found
    → IsServing o
    → step_session found i event o ≡ ok o'
    → IsServing o'
unfolding step_session
step_session-IsServing none i event o o' g h e = subst IsServing (ok-injective e) h
step_session-IsServing (some s) i event o o' g h e =
    let t = attach o s in
    let (s', f, r) =
      >>=-eq-ok (step event t)
        (λ u. ok (record o { filesystem = u.filesystem; sessions = set o.sessions i u })) e in
    let sound : IsSound t = All-get (λ u. IsSound (attach o u)) o.sessions i s g h.sound in
    let sound' = step-IsSound event t s' sound f in
    let effect = step-IsEffect event t s' sound f in
    let after = record o { filesystem = s'.filesystem; sessions = set o.sessions i s' } in
    let kept : (u : Session) → IsSound (attach o u) → IsSound (attach after u) =
      λ u. attach-IsSound o after u (λ v w. w) sound'.store in
    let mine : IsSound (attach after s') = users-IsSound s' o.users effect.users sound' in
    subst IsServing (ok-injective r) (record {
      store = sound'.store;
      sound =
          All-set (λ u. IsSound (attach after u)) o.sessions i s' mine
            (All-map (λ u. IsSound (attach o u)) (λ u. IsSound (attach after u)) o.sessions kept
              h.sound);
      fresh = h.fresh;
    })

await_connection-IsServing : (o : ObjectStorage) → IsServing o → IsServing (await_connection o)
unfolding await_connection
await_connection-IsServing o h = record {
  store = h.store;
  sound = h.sound;
  fresh =
      All-append IsFresh o.waiting _ h.fresh ((o.users, o.authenticate, o.filesystem, refl), tt);
}

end_accept-IsServing :
    (waiting : List Session) (failed : Bool) (client_port : ℕ) (o : ObjectStorage)
    → o.waiting ≡ waiting
    → IsServing o
    → IsServing (end_accept waiting failed client_port o)
unfolding end_accept accept_connection
end_accept-IsServing [] failed client_port o e h = h
end_accept-IsServing (s ∷ waiting) true client_port o e h = record {
  store = h.store;
  sound = h.sound;
  fresh = (subst (All IsFresh) e h.fresh).1;
}
end_accept-IsServing (s ∷ waiting) false client_port o e h =
    let fresh : All IsFresh (s ∷ waiting) = subst (All IsFresh) e h.fresh in
    await_connection-IsServing _ (record {
      store = h.store;
      sound =
          All-append (λ t. IsSound (attach o t)) o.sessions _ h.sound
            (fresh-attached o s client_port h.store fresh.0, tt);
      fresh = fresh.1;
    })

add_user-IsServing :
    (username password : Bytes) (o : ObjectStorage)
    → IsServing o
    → IsServing (add_user username password o).1
unfolding add_user
add_user-IsServing username password o h =
    let o' = (add_user username password o).1 in
    let more : (u : User) → verify o.users u ≡ true → verify o'.users u ≡ true =
      λ u. verify-add_mono o.users (record { username = username; password = password }) u in
    record {
      store = h.store;
      sound =
          All-map (λ s. IsSound (attach o s)) (λ s. IsSound (attach o' s)) o.sessions
            (λ s. attach-IsSound o o' s more h.store) h.sound;
      fresh = h.fresh;
    }

step_server-IsServing :
    (event : ServerEvent) (o o' : ObjectStorage)
    → IsServing o
    → step_server event o ≡ ok o'
    → IsServing o'
unfolding step_server
step_server-IsServing (connection failed client_port) o o' h e =
    subst IsServing (ok-injective e) (end_accept-IsServing o.waiting failed client_port o refl h)
step_server-IsServing (session_event i event) o o' h e =
    step_session-IsServing (get_elem? o.sessions i) i event o o' refl h e
step_server-IsServing (user_added username password) o o' h e =
    subst IsServing (ok-injective e) (add_user-IsServing username password o h)
step_server-IsServing server_stopped o o' h e =
    subst IsServing (ok-injective e) (record { store = h.store; sound = h.sound; fresh = h.fresh })

serve-IsServing :
    (event : ServerEvent) (o o' : ObjectStorage)
    → IsServing o
    → serve event o ≡ ok o'
    → IsServing o'
unfolding serve
serve-IsServing event o o' h e = elim (Bool-cases (o.stopped && is_handler event)) [
  | inl quiet ↦ subst IsServing (ok-injective (rw quiet at e)) h
  | inr runs ↦ step_server-IsServing event o o' h (rw runs at e)
]

-- When events of the server follow one another and each ends normally (connections are accepted
-- or fail, users are added, and the completions of any session happen in any order), then, from a
-- server of which it holds, it holds again that the stored paths are distinct and that each
-- session, with the users and files as they are, is sound: one message and one file at most are
-- being written, at most one request is being read, and a user that is logged in is accepted by
-- the user database.
pub run_server-IsServing :
    (events : List ServerEvent) (o o' : ObjectStorage)
    → IsServing o
    → run_server events o ≡ ok o'
    → IsServing o'
unfolding run_server
run_server-IsServing [] o o' h e = subst IsServing (ok-injective e) h
run_server-IsServing (event ∷ events) o o' h e =
    let (t, f, r) = >>=-eq-ok (serve event o) (run_server events) e in
    run_server-IsServing events t o' (serve-IsServing event o t h f) r
