-- ===== src/Session/Http/Frame.antt =====
-- What an HTTP request leaves alone.
use in_memory_object_storage.Common.{
  suc, ◌≡◌, refl, inl, inr, Bool, true, false, List, [], ◌∷◌, ◌++◌, Option, none, some, arith,
  length-append, Bool-cases, Ensures, ends, by_throw, Ensures-if, Ensures->>=, ltb,
}
use in_memory_object_storage.Common.Text.{Bytes, codes, text_eq}
use in_memory_object_storage.MemoryFs.{Status, File, MemoryFs, get, add, remove}
use in_memory_object_storage.Protocol.HttpRequest.{HttpMethod, HttpParser, field, parse}
use in_memory_object_storage.Protocol.HttpResponse.{HttpResponse}
use in_memory_object_storage.Session.{Session, Upload, send_message, receive_message}
use in_memory_object_storage.Session.Frame.{IsFrame, Changes, Removes, Prefix, Prefix-refl}
use in_memory_object_storage.Session.Http.{
  respond, respond_file, respond_removed, expects_continue, max_string_size, continue_if_expected,
  handle_put, dispatch, auth_http_user, handle_authorized, handle_parsed, handle_http,
  respond_added, finish_put,
}

-- As for any request, and the user of the FTP side stays.
abbrev pub IsHttpFrame : Session → Session → Type 0
IsHttpFrame s s' = IsFrame s s' × (s'.logged_in_user ≡ s.logged_in_user)

respond-IsHttpFrame : (response : HttpResponse) (s : Session) → IsHttpFrame s (respond response s)
unfolding respond send_message
respond-IsHttpFrame response s = (
  record {
    users = refl;
    authenticate = refl;
    output = refl;
    ftp_data = refl;
    posted = (_, refl);
    reading = omega arith;
    filesystem = inl refl;
  },
  refl,
)

-- A response, and one read.
answer-IsHttpFrame :
    (response : HttpResponse) (s : Session) (m : MemoryFs)
    → Removes s.filesystem m
    → IsHttpFrame s (receive_message (respond response (record s { filesystem = m })))
unfolding respond send_message receive_message
answer-IsHttpFrame response s m h = (
  record {
    users = refl;
    authenticate = refl;
    output = refl;
    ftp_data = refl;
    posted = (_, refl);
    reading = omega arith;
    filesystem = h;
  },
  refl,
)

respond_file-IsHttpFrame :
    (found : Status × File) (s : Session) → IsHttpFrame s (receive_message (respond_file found s))
unfolding respond_file
respond_file-IsHttpFrame (Status.success, file) s = answer-IsHttpFrame _ s s.filesystem (inl refl)
respond_file-IsHttpFrame (Status.file_not_found, file) s =
    answer-IsHttpFrame _ s s.filesystem (inl refl)
respond_file-IsHttpFrame (Status.already_exists, file) s =
    answer-IsHttpFrame _ s s.filesystem (inl refl)

respond_removed-IsHttpFrame :
    (status : Status) (s : Session) (path : Bytes)
    → IsHttpFrame s (
        receive_message
          (respond_removed status (record s { filesystem = (remove s.filesystem path).1 })))
unfolding respond_removed
respond_removed-IsHttpFrame Status.success s path = answer-IsHttpFrame _ s _ (inr (path, refl))
respond_removed-IsHttpFrame Status.file_not_found s path =
    answer-IsHttpFrame _ s _ (inr (path, refl))
respond_removed-IsHttpFrame Status.already_exists s path =
    answer-IsHttpFrame _ s _ (inr (path, refl))

upload-IsHttpFrame :
    (s : Session) (u : Upload) (posted : List Bytes)
    → Prefix s.posted posted
    → IsHttpFrame s (record s { posted = posted; uploads = s.uploads ++ u ∷ [] })
upload-IsHttpFrame s u posted h = (
  record {
    users = refl;
    authenticate = refl;
    output = refl;
    ftp_data = refl;
    posted = h;
    reading = omega (arith, length-append s.uploads (u ∷ []));
    filesystem = inl refl;
  },
  refl,
)

handle_put-Ensures :
    (parser : HttpParser) (s : Session) → Ensures (IsHttpFrame s) (handle_put parser s)
unfolding handle_put continue_if_expected respond send_message
handle_put-Ensures parser s = elim (Bool-cases (expects_continue (field parser (codes "expect")))) [
  | inl e ↦ rw e (
      Ensures-if (IsHttpFrame s) (ltb max_string_size parser.resource_size) _ _ by_throw
        (ends (upload-IsHttpFrame s _ _ (_, refl))))
  | inr e ↦ rw e (
      Ensures-if (IsHttpFrame s) (ltb max_string_size parser.resource_size) _ _ by_throw
        (ends (upload-IsHttpFrame s _ _ (Prefix-refl s.posted))))
]

dispatch-Ensures :
    (c : HttpMethod) (parser : HttpParser) (s : Session)
    → Ensures (IsHttpFrame s) (dispatch c parser s)
unfolding dispatch
dispatch-Ensures HttpMethod.get parser s =
    Ensures-if (IsHttpFrame s) (text_eq parser.uri (codes "/")) _ _
      (ends (answer-IsHttpFrame _ s s.filesystem (inl refl)))
      (ends (respond_file-IsHttpFrame (get s.filesystem parser.uri) s))
dispatch-Ensures HttpMethod.put parser s = handle_put-Ensures parser s
dispatch-Ensures HttpMethod.delete parser s =
    ends (respond_removed-IsHttpFrame (remove s.filesystem parser.uri).0 s parser.uri)
dispatch-Ensures HttpMethod.unrecognized parser s = by_throw

handle_authorized-Ensures :
    (b : Bool) (parser : HttpParser) (s : Session)
    → Ensures (IsHttpFrame s) (handle_authorized b parser s)
unfolding handle_authorized
handle_authorized-Ensures true parser s = dispatch-Ensures parser.method parser s
handle_authorized-Ensures false parser s = ends (respond-IsHttpFrame _ s)

handle_parsed-Ensures :
    (parser : HttpParser) (s : Session) → Ensures (IsHttpFrame s) (handle_parsed parser s)
unfolding handle_parsed
handle_parsed-Ensures parser s =
    Ensures-if (IsHttpFrame s) parser.valid _ _
      (Ensures->>= (IsHttpFrame s) (auth_http_user parser s) _
        λ b _. handle_authorized-Ensures b parser s)
      (ends (respond-IsHttpFrame _ s))

pub handle_http-Ensures :
    (request : Bytes) (headers : Option Bytes) (s : Session)
    → Ensures (IsHttpFrame s) (handle_http request headers s)
unfolding handle_http
handle_http-Ensures request none s = by_throw
handle_http-Ensures request (some headers) s =
    Ensures->>= (IsHttpFrame s) (parse (request ++ headers)) _ λ p _. handle_parsed-Ensures p s

-- The end of an upload: a response, one read, and a change of the files.
pub record IsDone (s s' : Session) : Type 0 where
  pub users : s'.users ≡ s.users
  pub authenticate : s'.authenticate ≡ s.authenticate
  pub logged_in_user : s'.logged_in_user ≡ s.logged_in_user
  pub output : s'.output ≡ s.output
  pub ftp_data : s'.ftp_data ≡ s.ftp_data
  pub reads : s'.reads ≡ suc s.reads
  pub uploads : s'.uploads ≡ s.uploads
  pub posted : Prefix s.posted s'.posted
  pub filesystem : Changes s.filesystem s'.filesystem

done :
    (s : Session) (message : Bytes) (m : MemoryFs)
    → Changes s.filesystem m
    → IsDone s (record s { posted = s.posted ++ message ∷ []; reads = suc s.reads; filesystem = m })
done s message m h = record {
  users = refl;
  authenticate = refl;
  logged_in_user = refl;
  output = refl;
  ftp_data = refl;
  reads = refl;
  uploads = refl;
  posted = (_, refl);
  filesystem = h;
}

respond_added-IsDone :
    (status : Status) (s : Session) (m : MemoryFs)
    → Changes s.filesystem m
    → IsDone s (receive_message (respond_added status (record s { filesystem = m })))
unfolding respond_added respond send_message receive_message
respond_added-IsDone Status.success s m h = done s _ m h
respond_added-IsDone Status.file_not_found s m h = done s _ m h
respond_added-IsDone Status.already_exists s m h = done s _ m h

-- The end of an upload changes as little, but for the file that it adds.
pub finish_put-IsDone :
    (path : Bytes) (body : Option File) (s : Session) → IsDone s (finish_put path body s)
unfolding finish_put respond send_message receive_message
finish_put-IsDone path none s = done s _ s.filesystem (inl refl)
finish_put-IsDone path (some file) s =
    respond_added-IsDone (add s.filesystem path file).0 s _ (inr (inr (path, file, refl)))
