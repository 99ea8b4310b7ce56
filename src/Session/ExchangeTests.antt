-- ===== src/Session/ExchangeTests.antt =====
-- Files stored and retrieved in concrete sessions.
use in_memory_object_storage.Common.{◌≡◌, refl, true, [], ◌∷◌, ◌++◌, none, some, ok, ◌≢◌}
use mathlib.Core.List.{Nodup-nil}
use in_memory_object_storage.Common.Text.{Bytes, codes}
use in_memory_object_storage.Common.Dict.{lookup}
use in_memory_object_storage.MemoryFs.{File, IsStore}
use in_memory_object_storage.Protocol.FtpRequest.{FtpParser, retr, dele}
use in_memory_object_storage.Protocol.FtpResponse.{
  with_text, serialize, file_status_ok_opening_data_connection, action_not_taken,
}
use in_memory_object_storage.Protocol.HttpRequest.{HttpMethod, HttpParser}
use in_memory_object_storage.Protocol.HttpResponse
use in_memory_object_storage.Protocol.HttpResponse.{of_resource}
use in_memory_object_storage.Session.Tests.{ann, at_work}
use in_memory_object_storage.Session.Deletion.{dele-save_file}
use in_memory_object_storage.Session.Ftp.{handle_dele, handle_retr, accept}
use in_memory_object_storage.Session.{Session, new_session, reply, receive_message, send_file}
use in_memory_object_storage.Session.Transfer.{save_file}
use in_memory_object_storage.Session.Http.{handle_get, finish_put, respond}
use in_memory_object_storage.Session.Exchange.{get-save_file, retr-finish_put}

abbrev path : Bytes
path = codes "/a"

abbrev file : File
file = codes "contents"

abbrev get_path : HttpParser
get_path = record {
  valid = true;
  method = HttpMethod.get;
  uri = path;
  resource_size = 0;
  header_fields = [];
}

abbrev retr_name : FtpParser
retr_name = record { valid = true; command = retr; tokens = codes "RETR" ∷ codes "a" ∷ [] }

no_file : lookup path at_work.filesystem.fs ≡ none
unfolding new_session lookup
no_file = refl

no_file_there : lookup (at_work.current_working_dir ++ codes "a") at_work.filesystem.fs ≡ none
unfolding new_session lookup
no_file_there = refl

get-save_file_example :
    handle_get get_path (save_file file path at_work)
    ≡ ok
        (receive_message (respond (of_resource HttpResponse.ok file) (save_file file path at_work)))
get-save_file_example = get-save_file path file at_work get_path no_file refl refl

retr-finish_put_example :
    let s' = finish_put (at_work.current_working_dir ++ codes "a") (some file) at_work in
    handle_retr retr_name s'
    ≡ ok (
        accept
          (send_file file)
          (reply file_status_ok_opening_data_connection (codes "Sending file") s'))
retr-finish_put_example =
    retr-finish_put (codes "RETR") (codes "a") ann file at_work retr_name refl refl refl
      no_file_there

abbrev with_file : Session
with_file = record at_work { filesystem = record { fs = (path, file) ∷ [] } }

holds_file : lookup path with_file.filesystem.fs ≡ some file
unfolding lookup
holds_file = refl

abbrev dele_name : FtpParser
dele_name = record { valid = true; command = dele; tokens = codes "DELE" ∷ codes "a" ∷ [] }

IsStore-at_work : IsStore at_work.filesystem
unfolding new_session
IsStore-at_work = Nodup-nil

at_root : at_work.current_working_dir ≢ []
unfolding new_session
at_root e = cc

no_name : lookup (codes "a") at_work.filesystem.fs ≡ none
unfolding new_session lookup
no_name = refl

dele-save_file_example :
    let s₁ = save_file file (at_work.current_working_dir ++ codes "a") at_work in
    (s' : Session) × (handle_dele dele_name s₁ ≡ ok s')
    × (s'.posted
        ≡ s₁.posted ++ serialize (with_text action_not_taken (codes "Unable to delete file")) ∷ [])
    × (lookup (at_work.current_working_dir ++ codes "a") s'.filesystem.fs ≡ some file)
dele-save_file_example =
    dele-save_file (codes "a") file at_work (codes "DELE") ann dele_name refl refl IsStore-at_work
      at_root no_file_there no_name
