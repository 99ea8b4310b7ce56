-- ===== src/Session/Ftp.antt =====
-- server/object_storage/src/ftp_command_handlers.cpp
pub mod Guards
pub mod Replies
pub mod Answers
pub mod Login
pub mod Passive
pub mod Tests
pub mod Frame
use in_memory_object_storage.Common.{
  ℕ, ◌/◌, ◌%◌, ◌^◌, Bool, true, false, not, List, [], ◌∷◌, ◌++◌, Option, none, some, is_some, ◌==◌,
  if◌then◌else◌, length, get_elem?, Outcome, ok, throws, ◌>>=◌, or_undefined, or_throw,
}
use in_memory_object_storage.Common.Text.{Bytes, codes}
use in_memory_object_storage.Common.Decimal.{to_string}
use in_memory_object_storage.MemoryFs.{Status, success, File, get, list, remove}
use in_memory_object_storage.UserDatabase.{User, verify}
use in_memory_object_storage.Protocol.FtpRequest.{FtpCommand, FtpParser, unrecognized, parse}
use in_memory_object_storage.Protocol.FtpResponse.{
  FtpReplyCode, command_ok, syntax_error_unrecognized_command, syntax_error_parameters,
  commands_bad_sequence, service_closing_control_connection, service_not_available,
  error_opening_data_connection, entering_passive_mode, user_logged_in, not_logged_in, user_name_ok,
  file_status_ok_opening_data_connection, file_action_completed, action_not_taken,
}
use in_memory_object_storage.Session.{
  Session, Network, Accept, send_file, receive_file, reply, receive_message, append_paths,
  configure_data_acceptor,
}

unfoldable pub refuse_login : Session → Session
unfolding reply
refuse_login s = reply not_logged_in (codes "Not logged in") s

unfoldable pub handle_user : FtpParser → Session → Outcome Session
unfolding reply
handle_user parser s =
    if length parser.tokens == 2
    then (do
      name ← or_undefined (get_elem? parser.tokens 1)
      ok (
          reply user_name_ok (codes "Please provide password")
            (record s { logged_in_user = none; last_username = name })))
    else ok (
        reply syntax_error_parameters (codes "No username provided")
          (record s { logged_in_user = none }))

unfoldable pub is_user : FtpCommand → Bool
is_user FtpCommand.user = true
is_user _ = false

unfoldable pub log_in : User → Session → Session
unfolding reply
log_in user s =
    if verify s.users user
    then reply user_logged_in (codes "Login successful") (record s { logged_in_user = some user })
    else reply not_logged_in (codes "Failed to log in") s

unfoldable pub handle_pass : FtpParser → Session → Outcome Session
unfolding is_user log_in reply
handle_pass parser s =
    if is_user s.last_ftp_command
    then (if length parser.tokens == 2
        then (do
          password ← or_undefined (get_elem? parser.tokens 1)
          ok (log_in (record { username = s.last_username; password = password }) s))
        else ok (reply syntax_error_parameters (codes "No password provided") s))
    else ok (reply commands_bad_sequence (codes "Please specify username first") s)

-- `async_accept` on the data acceptor.
unfoldable pub accept : Accept → Session → Session
accept a s = record s { accepts = s.accepts ++ a ∷ [] }

unfoldable pub handle_list : FtpParser → Session → Outcome Session
unfolding accept reply refuse_login
handle_list parser s =
    if is_some s.logged_in_user
    then ok (
        accept (send_file (append_paths (list s.filesystem) []))
          (reply file_status_ok_opening_data_connection (codes "Listing all objects stored") s))
    else ok (refuse_login s)

-- The switch on the status of `get`.
unfoldable pub send_found : Status × File → Session → Session
unfolding accept reply
send_found (Status.success, file) s =
    accept (send_file file) (reply file_status_ok_opening_data_connection (codes "Sending file") s)
send_found (_, file) s = reply action_not_taken (codes "File not found") s

unfoldable pub handle_retr : FtpParser → Session → Outcome Session
unfolding send_found reply refuse_login
handle_retr parser s =
    if is_some s.logged_in_user
    then (if s.acceptor_open
        then (do
          name ← or_undefined (get_elem? parser.tokens 1)
          ok (send_found (get s.filesystem (s.current_working_dir ++ name)) s))
        else ok (reply error_opening_data_connection (codes "Error opening data connection") s))
    else ok (refuse_login s)

unfoldable pub handle_stor : FtpParser → Session → Outcome Session
unfolding accept reply refuse_login
handle_stor parser s =
    if is_some s.logged_in_user
    then (if length parser.tokens == 2
        then (if s.acceptor_open
            then (do
              name ← or_undefined (get_elem? parser.tokens 1)
              ok (
                  accept (receive_file (s.current_working_dir ++ name))
                    (reply file_status_ok_opening_data_connection (codes "Ready to receive") s)))
            else ok (reply error_opening_data_connection (codes "Faile to open data connection") s))
        else ok (reply syntax_error_parameters (codes "No file specified") s))
    else ok (refuse_login s)

-- The switch on the status of `remove`.
unfoldable pub report_deleted : Status → Session → Session
unfolding reply
report_deleted Status.success s = reply file_action_completed (codes "File deleted") s
report_deleted _ s = reply action_not_taken (codes "Unable to delete file") s

unfoldable pub handle_dele : FtpParser → Session → Outcome Session
unfolding report_deleted refuse_login
handle_dele parser s =
    if is_some s.logged_in_user
    then (do
      name ← or_undefined (get_elem? parser.tokens 1)
      let (status, filesystem) = remove s.filesystem name
      ok (report_deleted status (record s { filesystem = filesystem })))
    else ok (refuse_login s)

-- The bytes of the address, each with a comma behind it.
unfoldable pub append_address : List ℕ → Bytes → Bytes
append_address [] text = text
append_address (byte ∷ bytes) text = append_address bytes (text ++ to_string byte ++ codes ",")

unfoldable pub endpoint_text : List ℕ → ℕ → Bytes
unfolding append_address
endpoint_text address port =
    append_address address (codes "(")
    ++ to_string (port / 2 ^ 8 % 256)
    ++ codes ","
    ++ to_string (port % 256)
    ++ codes ")"

-- `to_v4` throws on an address that is not IPv4.
unfoldable pub handle_pasv : Network → FtpParser → Session → Outcome Session
unfolding configure_data_acceptor reply refuse_login
handle_pasv net parser s =
    if is_some s.logged_in_user
    then (let (ready, s') = configure_data_acceptor net s in
        if ready
        then (do
          address ← or_throw net.address
          ok (
              reply entering_passive_mode
                (codes "Entering passive mode " ++ endpoint_text address net.port) s'))
        else ok (reply service_not_available (codes "Passive mode not supported") s'))
    else ok (refuse_login s)

unfoldable pub handle_type : FtpParser → Session → Outcome Session
unfolding reply refuse_login
handle_type parser s =
    if is_some s.logged_in_user
    then ok (reply command_ok (codes "Mode switched") s)
    else ok (refuse_login s)

unfoldable pub handle_quit : FtpParser → Session → Outcome Session
unfolding reply
handle_quit parser s = ok (
    reply service_closing_control_connection (codes "Connection closed") (record s {
      logged_in_user = none;
      current_working_dir = codes "/";
      last_ftp_command = unrecognized;
      last_username = [];
    }))

unfoldable pub handle_cwd : FtpParser → Session → Outcome Session
unfolding reply refuse_login
handle_cwd parser s =
    if is_some s.logged_in_user
    then (if length parser.tokens == 2
        then (do
          name ← or_undefined (get_elem? parser.tokens 1)
          ok (
              reply file_action_completed (codes "Working directory changed")
                (record s { current_working_dir = s.current_working_dir ++ (name ++ codes "/") })))
        else ok (reply syntax_error_parameters (codes "No directory specified") s))
    else ok (refuse_login s)

-- `ftp_handlers_.at(command)(parser)`
unfoldable pub dispatch : FtpCommand → Network → FtpParser → Session → Outcome Session
unfolding handle_user handle_pass handle_list handle_retr handle_stor handle_dele handle_pasv
    handle_type handle_quit handle_cwd
dispatch FtpCommand.user net parser s = handle_user parser s
dispatch FtpCommand.pass net parser s = handle_pass parser s
dispatch FtpCommand.list net parser s = handle_list parser s
dispatch FtpCommand.retr net parser s = handle_retr parser s
dispatch FtpCommand.stor net parser s = handle_stor parser s
dispatch FtpCommand.dele net parser s = handle_dele parser s
dispatch FtpCommand.pasv net parser s = handle_pasv net parser s
dispatch FtpCommand.type net parser s = handle_type parser s
dispatch FtpCommand.quit net parser s = handle_quit parser s
dispatch FtpCommand.cwd net parser s = handle_cwd parser s
dispatch FtpCommand.unrecognized net parser s = throws

unfoldable pub handle_request : Network → FtpParser → Session → Outcome Session
unfolding dispatch reply receive_message
handle_request net parser s =
    if parser.valid
    then (do
      s' ← dispatch parser.command net parser s
      ok (receive_message (record s' { last_ftp_command = parser.command })))
    else ok (receive_message (reply syntax_error_unrecognized_command [] s))

unfoldable pub handle_ftp : Network → Bytes → Session → Outcome Session
unfolding handle_request
handle_ftp net request s = do parser ← parse request; handle_request net parser s
