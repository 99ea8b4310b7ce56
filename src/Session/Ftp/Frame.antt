-- ===== src/Session/Ftp/Frame.antt =====
-- What an FTP request leaves alone.
use in_memory_object_storage.Common.{
  ◌≡◌, refl, inl, inr, arith, ok, is_some, get_elem?, or_undefined, Ensures, ends, Ensures-if,
  Ensures->>=, Ensures-ok, >>=-eq-ok,
}
use in_memory_object_storage.Common.Text.{Bytes}
use in_memory_object_storage.MemoryFs.{Status, remove}
use in_memory_object_storage.Protocol.FtpRequest.{FtpCommand, FtpParser, parse}
use in_memory_object_storage.Session.{Session, Network, receive_message, reply}
use in_memory_object_storage.Session.Frame.{IsFrame, Removes}
use in_memory_object_storage.Session.Ftp.{
  report_deleted, refuse_login, dispatch, handle_request, handle_ftp, send_found,
}
use in_memory_object_storage.Session.Ftp.Guards.{handle_request-cases}
use in_memory_object_storage.Session.Ftp.Replies.{handle_ftp-one_reply}

record IsKept (s s' : Session) : Type 0 where
  users : s'.users ≡ s.users
  authenticate : s'.authenticate ≡ s.authenticate
  output : s'.output ≡ s.output
  ftp_data : s'.ftp_data ≡ s.ftp_data
  uploads : s'.uploads ≡ s.uploads

dispatch-IsKept :
    (net : Network) (p : FtpParser) (s s' : Session) (c : FtpCommand)
    → dispatch c net p s ≡ ok s'
    → IsKept s s'
unfolding dispatch send_found
dispatch-IsKept net p s s' FtpCommand.user e = ground arith
dispatch-IsKept net p s s' _ e = ground arith

report_deleted-filesystem :
    (status : Status) (s : Session) → (report_deleted status s).filesystem ≡ s.filesystem
unfolding report_deleted reply
report_deleted-filesystem Status.success s = refl
report_deleted-filesystem _ s = refl

dele-Ensures :
    (net : Network) (p : FtpParser) (s : Session)
    → Ensures (λ s'. Removes s.filesystem s'.filesystem) (dispatch FtpCommand.dele net p s)
unfolding dispatch refuse_login reply
dele-Ensures net p s =
    Ensures-if kept (is_some s.logged_in_user) _ _
      (Ensures->>= kept (or_undefined (get_elem? p.tokens 1)) _
        λ name _. ends (inr (name, report_deleted-filesystem (remove s.filesystem name).0 _)))
      (ends (inl refl))
  where
    kept : Session → Type 0
    kept s' = Removes s.filesystem s'.filesystem

-- Only a DELE changes the files, by a removal.
dispatch-Removes :
    (net : Network) (p : FtpParser) (s s' : Session) (c : FtpCommand)
    → dispatch c net p s ≡ ok s'
    → Removes s.filesystem s'.filesystem
unfolding dispatch send_found
dispatch-Removes net p s s' FtpCommand.dele e =
    Ensures-ok (λ (t : Session). Removes s.filesystem t.filesystem) (dele-Ensures net p s) e
dispatch-Removes net p s s' FtpCommand.user e = inl (ground arith)
dispatch-Removes net p s s' _ e = inl (ground arith)

pub handle_ftp-IsFrame :
    (net : Network) (request : Bytes) (s s' : Session)
    → handle_ftp net request s ≡ ok s'
    → IsFrame s s'
unfolding handle_ftp receive_message reply
handle_ftp-IsFrame net request s s' e =
    let (p, _, r) = >>=-eq-ok (parse request) (λ q. handle_request net q s) e in
    let (code, text, posted, reads) = handle_ftp-one_reply net request s s' e in
    elim (handle_request-cases net p s s' r) [
      | inl (s₁, d, l) ↦
          let k = dispatch-IsKept net p s s₁ p.command d in
          let m = dispatch-Removes net p s s₁ p.command d in
          record {
            users = ground (arith, l, k.users);
            authenticate = ground (arith, l, k.authenticate);
            output = ground (arith, l, k.output);
            ftp_data = ground (arith, l, k.ftp_data);
            posted = (_, posted);
            reading = ground (arith, l, k.uploads, reads);
            filesystem = rw l m;
          }
      | inr l ↦ record {
        users = ground (arith, l);
        authenticate = ground (arith, l);
        output = ground (arith, l);
        ftp_data = ground (arith, l);
        posted = (_, posted);
        reading = ground (arith, l, reads);
        filesystem = inl (ground (arith, l));
      }
    ]
