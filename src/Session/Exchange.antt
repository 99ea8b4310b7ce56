-- ===== src/Session/Exchange.antt =====
-- Files that one protocol stores and the other, or the same, retrieves.
use in_memory_object_storage.Common.{
  ◌≡◌, ◌∙◌, refl, true, false, [], ◌∷◌, ◌++◌, Option, none, some, arith, ok,
}
use in_memory_object_storage.Common.Text.{Bytes, codes, text_eq, text_eq_refl}
use in_memory_object_storage.Common.Dict.{lookup, lookup-assign}
use in_memory_object_storage.MemoryFs.{File}
use in_memory_object_storage.MemoryFs.Refinement.{get_hit-eq, add_new-eq}
use in_memory_object_storage.UserDatabase.{User}
use in_memory_object_storage.Protocol.FtpRequest.{FtpParser}
use in_memory_object_storage.Protocol.FtpResponse.{file_status_ok_opening_data_connection}
use in_memory_object_storage.Protocol.HttpRequest.{HttpParser}
use in_memory_object_storage.Protocol.HttpResponse
use in_memory_object_storage.Protocol.HttpResponse.{of_resource}
use in_memory_object_storage.Session.{Session, send_file, reply, receive_message}
use in_memory_object_storage.Session.Transfer.{save_file}
use in_memory_object_storage.Session.Ftp.{handle_retr, accept}
use in_memory_object_storage.Session.Http.{respond, handle_get, finish_put}

abbrev pub Missing : Bytes → Session → Type 0
Missing path s = lookup path s.filesystem.fs ≡ none

abbrev pub Holds : Bytes → File → Session → Type 0
Holds path file s = lookup path s.filesystem.fs ≡ some file

pub finish_put-Holds :
    (path : Bytes) (file : File) (s : Session)
    → Missing path s
    → Holds path file (finish_put path (some file) s)
unfolding finish_put
finish_put-Holds path file s h =
    rw (add_new-eq s.filesystem path file h)
      (ground (arith, lookup-assign path path file s.filesystem.fs, text_eq_refl path))

pub save_file-Holds :
    (path : Bytes) (file : File) (s : Session)
    → Missing path s
    → Holds path file (save_file file path s)
unfolding save_file
save_file-Holds path file s h =
    rw (add_new-eq s.filesystem path file h)
      (ground (arith, lookup-assign path path file s.filesystem.fs, text_eq_refl path))

pub handle_get-Holds :
    (parser : HttpParser) (file : File) (s : Session)
    → text_eq parser.uri (codes "/") ≡ false
    → Holds parser.uri file s
    → handle_get parser s ≡ ok (receive_message (respond (of_resource HttpResponse.ok file) s))
unfolding handle_get
handle_get-Holds parser file s n h = rw (n, get_hit-eq s.filesystem parser.uri file h)

pub handle_retr-Holds :
    (parser : FtpParser) (command name : Bytes) (user : User) (file : File) (s : Session)
    → parser.tokens ≡ command ∷ name ∷ []
    → s.logged_in_user ≡ some user
    → s.acceptor_open ≡ true
    → Holds (s.current_working_dir ++ name) file s
    → handle_retr parser s
      ≡ ok (
          accept
            (send_file file)
            (reply file_status_ok_opening_data_connection (codes "Sending file") s))
unfolding handle_retr
handle_retr-Holds parser command name user file s t l o h =
    rw (l, o, t, get_hit-eq s.filesystem (s.current_working_dir ++ name) file h)

-- Storing a file leaves the FTP side of the session alone.
finish_put-keeps :
    (path : Bytes) (upload : Option File) (s : Session)
    → ((finish_put path upload s).current_working_dir ≡ s.current_working_dir)
      × ((finish_put path upload s).logged_in_user ≡ s.logged_in_user)
      × ((finish_put path upload s).acceptor_open ≡ s.acceptor_open)
unfolding finish_put
finish_put-keeps path none s = (refl, refl, refl)
finish_put-keeps path (some file) s = ground arith

save_file-keeps :
    (file : File) (path : Bytes) (s : Session)
    → ((save_file file path s).current_working_dir ≡ s.current_working_dir)
      × ((save_file file path s).logged_in_user ≡ s.logged_in_user)
      × ((save_file file path s).acceptor_open ≡ s.acceptor_open)
unfolding save_file
save_file-keeps file path s = ground arith

-- After an HTTP upload to a path that was free and is not "/", an HTTP GET of the path responds
-- with status 200 and exactly the uploaded bytes, and starts one read.
pub get-finish_put :
    (path : Bytes) (file : File) (s : Session) (parser : HttpParser)
    → lookup path s.filesystem.fs ≡ none
    → text_eq path (codes "/") ≡ false
    → parser.uri ≡ path
    → let s' = finish_put path (some file) s in
      handle_get parser s' ≡ ok (receive_message (respond (of_resource HttpResponse.ok file) s'))
get-finish_put path file s parser h n u =
    handle_get-Holds parser file (finish_put path (some file) s) (rw u n)
      (rw u (finish_put-Holds path file s h))

-- After an FTP upload is saved under a path that was free and is not "/", an HTTP GET of the path
-- responds with status 200 and exactly the uploaded bytes, and starts one read.
pub get-save_file :
    (path : Bytes) (file : File) (s : Session) (parser : HttpParser)
    → lookup path s.filesystem.fs ≡ none
    → text_eq path (codes "/") ≡ false
    → parser.uri ≡ path
    → let s' = save_file file path s in
      handle_get parser s' ≡ ok (receive_message (respond (of_resource HttpResponse.ok file) s'))
get-save_file path file s parser h n u =
    handle_get-Holds parser file (save_file file path s) (rw u n)
      (rw u (save_file-Holds path file s h))

module _ (command name : Bytes) (user : User) (file : File) (s : Session) (parser : FtpParser)
    (words : parser.tokens ≡ command ∷ name ∷ []) (login : s.logged_in_user ≡ some user)
    (passive : s.acceptor_open ≡ true)
    (missing : lookup (s.current_working_dir ++ name) s.filesystem.fs ≡ none) where
  -- After an HTTP upload to a path that was free, the path being the working directory followed
  -- by a name, a RETR of the name by a logged-in user with an open data acceptor replies that it
  -- sends a file and waits to send exactly the uploaded bytes.
  pub retr-finish_put :
      let s' = finish_put (s.current_working_dir ++ name) (some file) s in
      handle_retr parser s'
      ≡ ok (
          accept
            (send_file file)
            (reply file_status_ok_opening_data_connection (codes "Sending file") s'))
  retr-finish_put =
      let path : Bytes = s.current_working_dir ++ name in
      let (dir, logged, passive') = finish_put-keeps path (some file) s in
      handle_retr-Holds parser command name user file (finish_put path (some file) s) words
        (logged ∙ login) (passive' ∙ passive) (rw dir (finish_put-Holds path file s missing))

  -- After an FTP upload is saved under a path that was free, the path being the working directory
  -- followed by a name, a RETR of the name by a logged-in user with an open data acceptor replies
  -- that it sends a file and waits to send exactly the uploaded bytes.
  pub retr-save_file :
      let s' = save_file file (s.current_working_dir ++ name) s in
      handle_retr parser s'
      ≡ ok (
          accept
            (send_file file)
            (reply file_status_ok_opening_data_connection (codes "Sending file") s'))
  retr-save_file =
      let path : Bytes = s.current_working_dir ++ name in
      let (dir, logged, passive') = save_file-keeps file path s in
      handle_retr-Holds parser command name user file (save_file file path s) words (logged ∙ login)
        (passive' ∙ passive) (rw dir (save_file-Holds path file s missing))
