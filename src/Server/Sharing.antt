-- ===== src/Server/Sharing.antt =====
-- What the sessions share, and what each has to itself.
use in_memory_object_storage.Common.{
  Bool, true, sym, ap, ◌∙◌, ℕ, ◌⊎◌, inl, refl, ◌≡◌, ◌≢◌, subst, false, List, [], ◌∷◌, Option, none,
  some, arith, get_elem?, ok, >>=-eq-ok, ok-injective,
}
use in_memory_object_storage.Common.Text.{Bytes, codes, text_eq}
use in_memory_object_storage.Common.Dict.{lookup}
use in_memory_object_storage.MemoryFs.{File}
use in_memory_object_storage.Protocol.HttpRequest.{HttpParser}
use in_memory_object_storage.Protocol.HttpResponse
use in_memory_object_storage.Protocol.HttpResponse.{of_resource}
use in_memory_object_storage.Session.{Session, Upload, receive_message}
use in_memory_object_storage.Session.Http.{respond, handle_get}
use in_memory_object_storage.Session.Exchange.{finish_put-Holds, handle_get-Holds}
use in_memory_object_storage.Session.Events.{Event, body_received, end_upload, step}
use in_memory_object_storage.Server.Sessions.{All-get}
use in_memory_object_storage.Server.Serving.{IsServing}
use in_memory_object_storage.Session.Events.Invariant.{IsSound}
use in_memory_object_storage.Session.Events.Storage.{Same, Changes-Same}
use in_memory_object_storage.UserDatabase.{User, verify}
use in_memory_object_storage.UserDatabase.Credentials.{verify-add_mono}
use in_memory_object_storage.Session.Events.Effects.{step-IsEffect}
use in_memory_object_storage.Server.{
  ServerEvent, connection, user_added, server_stopped, end_accept, accept_connection,
  await_connection, add_user, ObjectStorage, session_event, attach, set, step_session, step_server,
}

step_session-Same :
    (found : Option Session) (i : ℕ) (event : Event) (p q : Bytes) (o o' : ObjectStorage)
    → get_elem? o.sessions i ≡ found
    → IsServing o
    → p ≢ q
    → step_session found i event o ≡ ok o'
    → (Same p o.filesystem o'.filesystem ⊎ Same q o.filesystem o'.filesystem) × (o'.users ≡ o.users)
unfolding step_session
step_session-Same none i event p q o o' g h n e =
    subst
      (λ u.
        (Same p o.filesystem u.filesystem ⊎ Same q o.filesystem u.filesystem) × (u.users ≡ o.users))
      (ok-injective e) (inl refl, refl)
step_session-Same (some s) i event p q o o' g h n e =
    let (s', f, r) =
      >>=-eq-ok (step event (attach o s))
        (λ u. ok (record o { filesystem = u.filesystem; sessions = set o.sessions i u })) e in
    let sound = All-get (λ u. IsSound (attach o u)) o.sessions i s g h.sound in
    let changed = (step-IsEffect event (attach o s) s' sound f).files in
    subst
      (λ u.
        (Same p o.filesystem u.filesystem ⊎ Same q o.filesystem u.filesystem) × (u.users ≡ o.users))
      (ok-injective r) (Changes-Same o.filesystem s'.filesystem p q n changed, refl)

end_accept-keeps :
    (waiting : List Session) (failed : Bool) (client_port : ℕ) (o : ObjectStorage)
    → let o' = end_accept waiting failed client_port o in
      (o'.filesystem ≡ o.filesystem) × (o'.users ≡ o.users)
unfolding end_accept accept_connection await_connection
end_accept-keeps [] failed client_port o = (refl, refl)
end_accept-keeps (s ∷ waiting) true client_port o = (refl, refl)
end_accept-keeps (s ∷ waiting) false client_port o = (refl, refl)

-- When an event of a server of which the invariant holds ends normally, be it a connection, an
-- event of a session, a new user or the end of the server, then of two different paths one at
-- least has the same file as before, or none as before, and a user whom the database accepted is
-- accepted still.
pub step_server-one_path :
    (event : ServerEvent) (p q : Bytes) (user : User) (o o' : ObjectStorage)
    → IsServing o
    → p ≢ q
    → verify o.users user ≡ true
    → step_server event o ≡ ok o'
    → ((lookup p o'.filesystem.fs ≡ lookup p o.filesystem.fs)
        ⊎ (lookup q o'.filesystem.fs ≡ lookup q o.filesystem.fs))
      × (verify o'.users user ≡ true)
unfolding step_server add_user
step_server-one_path (connection failed client_port) p q user o o' h n v e =
    let (files, users) = end_accept-keeps o.waiting failed client_port o in
    let after = sym (ok-injective e) in
    (
      inl (ap (λ u. lookup p u.filesystem.fs) after ∙ ap (λ m. lookup p m.fs) files),
      ap (λ u. verify u.users user) after ∙ ap (λ db. verify db user) users ∙ v,
    )
step_server-one_path (session_event i event) p q user o o' h n v e =
    let (files, users) = step_session-Same (get_elem? o.sessions i) i event p q o o' refl h n e in
    (files, ap (λ db. verify db user) users ∙ v)
step_server-one_path (user_added username password) p q user o o' h n v e =
    let after = sym (ok-injective e) in
    (
      inl (ap (λ u. lookup p u.filesystem.fs) after),
      ap (λ u. verify u.users user) after
          ∙ verify-add_mono o.users (record { username = username; password = password }) user v,
    )
step_server-one_path server_stopped p q user o o' h n v e =
    let after = sym (ok-injective e) in
    (inl (ap (λ u. lookup p u.filesystem.fs) after), ap (λ u. verify u.users user) after ∙ v)

-- The upload of one session, and the download of any.
end_upload-Holds :
    (l : List Upload) (u : Upload) (uploads : List Upload) (file : File) (s : Session)
    → l ≡ u ∷ uploads
    → lookup u.path s.filesystem.fs ≡ none
    → lookup u.path (end_upload l (some file) s).filesystem.fs ≡ some file
unfolding end_upload
end_upload-Holds [] u uploads file s e h = cc
end_upload-Holds (v ∷ l) u uploads file s e h =
    let there = finish_put-Holds v.path file (record s { uploads = l }) (ground (arith, e, h)) in
    ground (arith, e, there)

step_session-Holds :
    (found : Option Session) (i : ℕ) (s : Session) (u : Upload) (uploads : List Upload)
    (file : File) (o o' : ObjectStorage)
    → found ≡ some s
    → s.uploads ≡ u ∷ uploads
    → lookup u.path o.filesystem.fs ≡ none
    → step_session found i (body_received (some file)) o ≡ ok o'
    → lookup u.path o'.filesystem.fs ≡ some file
unfolding step_session step
step_session-Holds none i s u uploads file o o' g h m e = cc
step_session-Holds (some t) i s u uploads file o o' g h m e =
    let same : t.uploads ≡ u ∷ uploads = ground (arith, g, h) in
    let there = end_upload-Holds t.uploads u uploads file (attach o t) same m in
    subst (λ x. lookup u.path x.filesystem.fs ≡ some file) (ok-injective e) there

-- When the body of an HTTP upload of one session to a path that was free and is not "/" arrives,
-- then an HTTP GET of the path in any session responds with status 200 and exactly the uploaded
-- bytes, and starts one read.
pub upload-download :
    (i : ℕ) (s t : Session) (u : Upload) (uploads : List Upload) (file : File) (parser : HttpParser)
    (o o' : ObjectStorage)
    → get_elem? o.sessions i ≡ some s
    → s.uploads ≡ u ∷ uploads
    → lookup u.path o.filesystem.fs ≡ none
    → text_eq u.path (codes "/") ≡ false
    → parser.uri ≡ u.path
    → step_server (session_event i (body_received (some file))) o ≡ ok o'
    → handle_get parser (attach o' t)
      ≡ ok (receive_message (respond (of_resource HttpResponse.ok file) (attach o' t)))
unfolding step_server
upload-download i s t u uploads file parser o o' g h m r p e =
    let there = step_session-Holds (get_elem? o.sessions i) i s u uploads file o o' g h m e in
    handle_get-Holds parser file (attach o' t) (rw p r) (rw p there)
