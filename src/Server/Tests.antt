-- ===== src/Server/Tests.antt =====
-- Servers at concrete events.
use in_memory_object_storage.Common.{
  ℕ, ◌≡◌, ◌≢◌, ◌<◌, ◌⊎◌, arith, refl, true, false, List, [], ◌∷◌, none, some, ok, value_or,
}
use mathlib.Core.List.{Nodup-nil}
use in_memory_object_storage.Common.Text.{codes}
use in_memory_object_storage.Common.Dict.{lookup}
use in_memory_object_storage.Protocol.HttpRequest
use in_memory_object_storage.Protocol.HttpRequest.{HttpParser}
use in_memory_object_storage.Protocol.HttpResponse
use in_memory_object_storage.Protocol.HttpResponse.{of_resource}
use in_memory_object_storage.Session.{Session, Upload, receive_message, new_session}
use in_memory_object_storage.Session.Events.Invariant.{IsSound}
use in_memory_object_storage.UserDatabase.{verify, is_reserved}
use in_memory_object_storage.Utils.Split.{split, find}
use in_memory_object_storage.Utils.Case.{to_upper_case}
use in_memory_object_storage.Protocol.Detector.{detect_protocol}
use in_memory_object_storage.Protocol.FtpRequest
use in_memory_object_storage.Session.Ftp.{handle_ftp}
use in_memory_object_storage.Session.Http.{respond, handle_get, finish_put}
use in_memory_object_storage.Session.Start.{start as start_session}
use in_memory_object_storage.Session.Messages.{enqueue_message}
use in_memory_object_storage.Session.Events.{
  message_posted, body_received, packet_received, receive_packet, step, with_output,
}
use in_memory_object_storage.Session.Events.Tests.{
  ports, begun, begun-IsSound, one_file, one_file-IsStore,
}
use in_memory_object_storage.Session.Tests.{ann, at_work, only_ann, net}
use in_memory_object_storage.Server.{
  ObjectStorage, LogLevel, AcceptorResults, new_server, await_connection, attach, start,
  ServerEvent, connection, session_event, user_added, server_stopped, step_server, serve,
  run_server,
}
use in_memory_object_storage.Server.Lifecycle.{start-once}
use in_memory_object_storage.Server.Serving.{IsServing, run_server-IsServing}
use in_memory_object_storage.Server.Sharing.{upload-download, step_server-one_path}

abbrev idle : ObjectStorage
idle = new_server (codes "127.0.0.1") 1670 LogLevel.info true ports

abbrev pub all_well : AcceptorResults
all_well = record {
  address_valid = true;
  opens = true;
  option_set = true;
  binds = true;
  listens = true;
}

abbrev four : ℕ
four = 4

idle-ports : idle.ftp_port_range.min_port < idle.ftp_port_range.max_port
unfolding new_server
idle-ports = omega arith

idle-closed : idle.acceptor_open ≡ false
unfolding new_server
idle-closed = refl

-- The port is taken at first.
abbrev taken : AcceptorResults
taken = record all_well { binds = false }

start-once_example : let (started, o) = start taken four idle in start all_well four o ≡ (false, o)
start-once_example =
    start-once taken all_well four four idle idle-closed (omega arith) idle-ports (refl, refl)

abbrev listening : ObjectStorage
listening = await_connection idle

listening-IsServing : IsServing listening
unfolding await_connection new_server
listening-IsServing = record { store = Nodup-nil; sound = tt; fresh = ((_, _, _, refl), tt) }

abbrev visit : List ServerEvent
visit =
    connection false 1500
    ∷ user_added (codes "ann") (codes "secret")
    ∷ session_event 0 message_posted
    ∷ connection true 0
    ∷ server_stopped
    ∷ session_event 0 message_posted
    ∷ []

abbrev visited : ObjectStorage
visited = value_or idle (run_server visit listening)

run_server-visit : run_server visit listening ≡ ok visited
unfolding run_server serve step_server await_connection new_server new_session start_session step
    with_output enqueue_message
run_server-visit = refl

run_server-IsServing_example : IsServing visited
run_server-IsServing_example =
    run_server-IsServing visit listening visited listening-IsServing run_server-visit

-- A session waits for a body, and another downloads it.
abbrev upload : Upload
upload = record { path = codes "/a"; size = 3 }

abbrev uploader : Session
uploader = record at_work { uploads = upload ∷ [] }

abbrev uploading : ObjectStorage
uploading = record idle { sessions = uploader ∷ [] }

abbrev body_event : ServerEvent
body_event = session_event 0 (body_received (some (codes "abc")))

abbrev uploaded : ObjectStorage
uploaded = value_or idle (step_server body_event uploading)

step_server-uploading : step_server body_event uploading ≡ ok uploaded
unfolding step_server new_server step finish_put
step_server-uploading = refl

uploading-free : lookup (codes "/a") uploading.filesystem.fs ≡ none
unfolding new_server lookup
uploading-free = refl

abbrev get_parser : HttpParser
get_parser = record HttpRequest.invalid { valid = true; uri = codes "/a" }

upload-download_example :
    handle_get get_parser (attach uploaded at_work)
    ≡ ok (
        receive_message
          (respond (of_resource HttpResponse.ok (codes "abc")) (attach uploaded at_work)))
upload-download_example =
    upload-download 0 uploader at_work upload [] (codes "abc") get_parser uploading uploaded refl
      refl uploading-free refl refl step_server-uploading

-- Two sessions, of which one deletes a file.
abbrev deleter : Session
deleter = record begun {
  logged_in_user = some (record { username = codes "ann"; password = codes "secret" });
}

abbrev busy : ObjectStorage
busy = record idle { users = only_ann; filesystem = one_file; sessions = deleter ∷ begun ∷ [] }

ann-verify : verify only_ann (record { username = codes "ann"; password = codes "secret" }) ≡ true
unfolding verify is_reserved lookup
ann-verify = refl

deleter-IsSound : IsSound deleter
unfolding start_session new_session
deleter-IsSound = record {
  sending = begun-IsSound.sending;
  transferring = begun-IsSound.transferring;
  one_read = begun-IsSound.one_read;
  store = begun-IsSound.store;
  authentic = ann-verify;
}

busy-IsServing : IsServing busy
unfolding start_session new_session new_server
busy-IsServing = record {
  store = one_file-IsStore;
  sound = (deleter-IsSound, (begun-IsSound, tt));
  fresh = tt;
}

abbrev delete_event : ServerEvent
delete_event = session_event 0 (packet_received net (codes "DELE /a\r\n") none)

abbrev deleted : ObjectStorage
deleted = value_or busy (step_server delete_event busy)

step_server-busy : step_server delete_event busy ≡ ok deleted
unfolding step_server step start_session new_session new_server receive_packet detect_protocol
    handle_ftp FtpRequest.parse split find to_upper_case lookup
step_server-busy = refl

paths-differ : codes "/a" ≢ codes "/b"
paths-differ e = ground (arith, e)

step_server-one_path_example :
    ((lookup (codes "/a") deleted.filesystem.fs ≡ lookup (codes "/a") busy.filesystem.fs)
      ⊎ (lookup (codes "/b") deleted.filesystem.fs ≡ lookup (codes "/b") busy.filesystem.fs))
    × (verify deleted.users ann ≡ true)
step_server-one_path_example =
    step_server-one_path delete_event (codes "/a") (codes "/b") ann busy deleted busy-IsServing
      paths-differ ann-verify step_server-busy
