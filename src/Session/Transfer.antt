-- ===== src/Session/Transfer.antt =====
-- The upload half of FTP in server/object_storage/src/session.cpp: what a read of receiveFile gives, and
-- saveFile.
use in_memory_object_storage.Common.{Bool}
use in_memory_object_storage.Common.Text.{Bytes, codes}
use in_memory_object_storage.MemoryFs.{Status, File, add}
use in_memory_object_storage.Protocol.FtpResponse.{closing_data_connection, file_action_not_taken}
use in_memory_object_storage.Session.{Session, reply, close_ftp_data_socket}

-- One completion of `async_read`: the bytes that came, and whether with an error, such as the end
-- of the stream.
pub record Arrival : Type 0 where
  pub bytes : Bytes
  pub failed : Bool

-- The switch on the status of `add`.
unfoldable pub report_saved : Status → Session → Session
unfolding reply
report_saved Status.success s = reply closing_data_connection (codes "File saved") s
report_saved _ s = reply file_action_not_taken (codes "File not saved") s

unfoldable pub save_file : File → Bytes → Session → Session
unfolding report_saved close_ftp_data_socket
save_file file path s =
    let (status, filesystem) = add s.filesystem path file in
    close_ftp_data_socket (report_saved status (record s { filesystem = filesystem }))
