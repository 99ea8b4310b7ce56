-- ===== src/Session/Events/StoreAndRetrieve.antt =====
-- A file that one FTP client uploads with STOR and downloads with RETR.
use in_memory_object_storage.Common.{
  suc, ◌≡◌, ◌≢◌, ◌∙◌, refl, ap, true, List, [], ◌∷◌, ◌++◌, append_assoc, none, some, All, ok, ◌>>=◌,
}
use mathlib.Core.List.{flatten}
use in_memory_object_storage.Common.Text.{Bytes, codes, Lacks}
use in_memory_object_storage.Common.Dict.{lookup}
use in_memory_object_storage.MemoryFs.{File}
use in_memory_object_storage.MemoryFs.Refinement.{add_new-eq}
use in_memory_object_storage.UserDatabase.{User}
use in_memory_object_storage.Protocol.FtpRequest.{FtpCommand, with_command}
use in_memory_object_storage.Protocol.FtpResponse.{
  FtpReplyCode, with_text, serialize, closing_data_connection,
  file_status_ok_opening_data_connection,
}
use in_memory_object_storage.Session.{
  Session, Network, Accept, send_file, receive_file, reply, receive_message,
}
use in_memory_object_storage.Session.Transfer.{save_file}
use in_memory_object_storage.Session.Ftp.{accept, dispatch, handle_request, handle_stor}
use in_memory_object_storage.Session.Exchange.{save_file-Holds, handle_retr-Holds}
use in_memory_object_storage.Session.Events.{Event, step, run}
use in_memory_object_storage.Session.Events.Runs.{run-append}
use in_memory_object_storage.Session.Events.Commands.{IsReady, IsCommand, request, step-line}
use in_memory_object_storage.Session.Events.Download.{IsIdle, download_events, download_lem}
use in_memory_object_storage.Session.Events.Uploads.{
  upload_events, before_saving, run-upload_events,
}

-- The session after a request that starts an accept.
abbrev answered : FtpCommand → Bytes → Accept → Session → Session
answered command text a s =
    let s' = accept a (reply file_status_ok_opening_data_connection text s) in
    record s' { reads = 1; last_ftp_command = command }

handle_request-stor :
    (net : Network) (word name : Bytes) (user : User) (s : Session)
    → s.logged_in_user ≡ some user
    → s.acceptor_open ≡ true
    → handle_request net
        (with_command (some FtpCommand.stor) (word ∷ name ∷ []))
        (record s { reads = 0 })
      ≡ ok (
          answered FtpCommand.stor
            (codes "Ready to receive")
            (receive_file (s.current_working_dir ++ name))
            s)
unfolding handle_request dispatch with_command handle_stor reply receive_message accept
handle_request-stor net word name user s l o = rw (l, o) refl

handle_request-retr :
    (net : Network) (word name : Bytes) (user : User) (file : File) (s : Session)
    → s.logged_in_user ≡ some user
    → s.acceptor_open ≡ true
    → lookup (s.current_working_dir ++ name) s.filesystem.fs ≡ some file
    → handle_request net
        (with_command (some FtpCommand.retr) (word ∷ name ∷ []))
        (record s { reads = 0 })
      ≡ ok (answered FtpCommand.retr (codes "Sending file") (send_file file) s)
unfolding handle_request dispatch with_command reply receive_message accept
handle_request-retr net word name user file s l o h =
    ap (λ r. r >>= λ s'. ok (receive_message (record s' { last_ftp_command = FtpCommand.retr })))
      (handle_retr-Holds (with_command (some FtpCommand.retr) (word ∷ name ∷ [])) word name user
        file (record s { reads = 0 }) refl l o h)

answered-IsReady :
    (command : FtpCommand) (text : Bytes) (a : Accept) (user : User) (s : Session)
    → IsReady user [] s
    → IsReady user (a ∷ []) (answered command text a s)
unfolding reply accept
answered-IsReady command text a user s h = record {
  login = h.login;
  passive = h.passive;
  free = record {
    reads = refl;
    waiting = ap (λ l. l ++ a ∷ []) h.free.waiting;
    idle = h.free.idle;
    no_receptions = h.free.no_receptions;
  };
}

-- What a reply adds to the messages.
abbrev message : FtpReplyCode → Bytes → Bytes
message code text = serialize (with_text code text)

-- What the end of an upload leaves.
record IsSaved (user : User) (path : Bytes) (file : File) (s s' : Session) : Type 0 where
  ready : IsReady user [] s'
  directory : s'.current_working_dir ≡ s.current_working_dir
  stored : lookup path s'.filesystem.fs ≡ some file
  next_socket : s'.ftp_data.next_socket ≡ suc s.ftp_data.next_socket
  delivered : s'.ftp_data.delivered ≡ s.ftp_data.delivered
  closed : s'.ftp_data.closed ≡ s.ftp_data.closed ++ s.ftp_data.next_socket ∷ []
  posted : s'.posted ≡ s.posted ++ message closing_data_connection (codes "File saved") ∷ []

save_file-IsSaved :
    (user : User) (path : Bytes) (file : File) (s : Session)
    → IsReady user (receive_file path ∷ []) s
    → lookup path s.filesystem.fs ≡ none
    → IsSaved user path file s (save_file file path (before_saving [] s))
unfolding save_file reply
save_file-IsSaved user path file s h n =
    let add_eq = add_new-eq s.filesystem path file n in
    record {
      ready = rw add_eq (record {
        login = h.login;
        passive = h.passive;
        free = record {
          reads = h.free.reads;
          waiting = refl;
          idle = (refl, h.free.idle.1, h.free.idle.2);
          no_receptions = refl;
        };
      });
      directory = rw add_eq refl;
      stored = save_file-Holds path file (before_saving [] s) n;
      next_socket = rw add_eq refl;
      delivered = rw add_eq refl;
      closed = rw add_eq refl;
      posted = rw add_eq refl;
    }

-- A request, an upload, another request and a download.
abbrev pub round_trip : Network → Network → Bytes → Bytes → Bytes → List Bytes → Bytes → List Event
round_trip net₁ net₂ stor_word retr_word name bs last =
    request net₁ stor_word name
    ∷ (upload_events bs last ++ request net₂ retr_word name ∷ download_events)

module _ (net₁ net₂ : Network) (stor_word retr_word name : Bytes) (bs : List Bytes) (last : Bytes)
    (user : User) (s : Session) where
  run_all :
      (s₁ s₂ s₃ s₄ : Session)
      → step (request net₁ stor_word name) s ≡ ok s₁
      → run (upload_events bs last) s₁ ≡ ok s₂
      → step (request net₂ retr_word name) s₂ ≡ ok s₃
      → run download_events s₃ ≡ ok s₄
      → run (round_trip net₁ net₂ stor_word retr_word name bs last) s ≡ ok s₄
  unfolding run
  run_all s₁ s₂ s₃ s₄ e₁ e₂ e₃ e₄ =
      let rest = request net₂ retr_word name ∷ download_events in
      ap (λ r. r >>= run (upload_events bs last ++ rest)) e₁
      ∙ run-append (upload_events bs last) rest s₁ s₂ e₂
      ∙ ap (λ r. r >>= run download_events) e₃
      ∙ e₄

  pub stor-retr :
      IsCommand FtpCommand.stor stor_word name
      → IsCommand FtpCommand.retr retr_word name
      → Lacks b' ' name
      → IsReady user [] s
      → lookup (s.current_working_dir ++ name) s.filesystem.fs ≡ none
      → All (λ b. b ≢ []) bs
      → let file = flatten bs ++ last in
        let k = s.ftp_data.next_socket in
        (s' : Session) × (run (round_trip net₁ net₂ stor_word retr_word name bs last) s ≡ ok s')
        × (lookup (s.current_working_dir ++ name) s'.filesystem.fs ≡ some file)
        × (s'.ftp_data.delivered
            ≡ s.ftp_data.delivered ++ record { file = file; socket = suc k } ∷ [])
        × (s'.ftp_data.closed ≡ s.ftp_data.closed ++ k ∷ suc k ∷ [])
        × (s'.posted
            ≡ s.posted
              ++ message file_status_ok_opening_data_connection (codes "Ready to receive")
                ∷ message closing_data_connection (codes "File saved")
                ∷ message file_status_ok_opening_data_connection (codes "Sending file")
                ∷ message closing_data_connection (codes "Done")
                ∷ [])
        × IsIdle s'.ftp_data
  unfolding reply accept
  stor-retr c₁ c₂ l h n w =
      let path : Bytes = s.current_working_dir ++ name in
      let file : File = flatten bs ++ last in
      let s₁ = answered FtpCommand.stor (codes "Ready to receive") (receive_file path) s in
      let h₁ =
        answered-IsReady FtpCommand.stor (codes "Ready to receive") (receive_file path) user s h in
      let stor =
        step-line net₁ FtpCommand.stor stor_word name s c₁ l h.free.reads
        ∙ handle_request-stor net₁ stor_word name user s h.login h.passive in
      let s₂ = save_file file path (before_saving [] s₁) in
      let uploaded =
        run-upload_events bs last path [] s₁ h₁.free.waiting (h₁.free.idle.0, h₁.free.no_receptions)
          w in
      let saved = save_file-IsSaved user path file s₁ h₁ n in
      let there : lookup (s₂.current_working_dir ++ name) s₂.filesystem.fs ≡ some file =
        rw saved.directory saved.stored in
      let retr =
        step-line net₂ FtpCommand.retr retr_word name s₂ c₂ l saved.ready.free.reads
        ∙ handle_request-retr net₂ retr_word name user file s₂ saved.ready.login saved.ready.passive
            there in
      let h₃ =
        answered-IsReady FtpCommand.retr (codes "Sending file") (send_file file) user s₂
          saved.ready in
      let s₃ = answered FtpCommand.retr (codes "Sending file") (send_file file) s₂ in
      let (s₄, downloaded, delivered, closed, posted, files, idle) =
        download_lem file [] s₃ h₃.free.waiting h₃.free.idle in
      let k = s.ftp_data.next_socket in
      let socket : (s₂.ftp_data.next_socket) ≡ suc k = saved.next_socket in
      (
        s₄,
        run_all s₁ s₂ s₃ s₄ stor uploaded retr downloaded,
        ap (λ m. lookup path m.fs) files ∙ saved.stored,
        delivered
            ∙ ap (λ n. s₂.ftp_data.delivered ++ record { file = file; socket = n } ∷ []) socket
            ∙ ap (λ d. d ++ record { file = file; socket = suc k } ∷ []) saved.delivered,
        closed
            ∙ ap (λ n. s₂.ftp_data.closed ++ n ∷ []) socket
            ∙ ap (λ d. d ++ suc k ∷ []) saved.closed
            ∙ append_assoc s.ftp_data.closed (k ∷ []) (suc k ∷ []),
        posted
            ∙ ap
                (λ p.
                  (p ++ message file_status_ok_opening_data_connection (codes "Sending file") ∷ [])
                  ++ message closing_data_connection (codes "Done") ∷ [])
                saved.posted
            ∙ simp append_assoc,
        idle,
      )
