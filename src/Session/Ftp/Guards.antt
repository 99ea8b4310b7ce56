-- ===== src/Session/Ftp/Guards.antt =====
-- Who may do what over FTP.
use in_memory_object_storage.Common.{
  ◌≡◌, ◌⊎◌, inl, inr, sym, subst, true, List, [], ◌∷◌, Option, none, some, arith, Outcome, ok,
  ◌>>=◌, >>=-eq-ok, ok-injective, Bool-cases,
}
use in_memory_object_storage.Common.Text.{Bytes}
use in_memory_object_storage.UserDatabase.{User, UserDatabase, verify}
use in_memory_object_storage.Protocol.FtpRequest.{FtpCommand, FtpParser, parse}
use in_memory_object_storage.Protocol.FtpResponse.{syntax_error_unrecognized_command}
use in_memory_object_storage.Session.{Session, Network, reply, receive_message}
use in_memory_object_storage.Session.Ftp.{dispatch, handle_request, handle_ftp, send_found}

-- How a handled request came to its end.
abbrev pub Handled : Network → FtpParser → Session → Session → Type 0
Handled net p s s' =
    (s₁ : Session) × (dispatch p.command net p s ≡ ok s₁)
    × (s' ≡ receive_message (record s₁ { last_ftp_command = p.command }))

abbrev pub Unknown : Session → Session → Type 0
Unknown s s' = s' ≡ receive_message (reply syntax_error_unrecognized_command [] s)

pub handle_request-cases :
    (net : Network) (p : FtpParser) (s s' : Session)
    → handle_request net p s ≡ ok s'
    → Handled net p s s' ⊎ Unknown s s'
unfolding handle_request
handle_request-cases net p s s' e = elim (Bool-cases p.valid) [
  | inl v ↦
      let (s₁, d, r) =
        >>=-eq-ok (dispatch p.command net p s)
          (λ t. ok (receive_message (record t { last_ftp_command = p.command }))) {y = s'}
          (ground (arith, v, e)) in
      inl (s₁, d, ok-injective (sym r))
  | inr v ↦ inr (ok-injective (ground (arith, v, e)))
]

-- Nothing of the storage or of the data connection has changed.
record IsUntouched (s s' : Session) : Type 0 where
  filesystem : s'.filesystem ≡ s.filesystem
  accepts : s'.accepts ≡ s.accepts
  ftp_data : s'.ftp_data ≡ s.ftp_data
  acceptor : s'.acceptor_open ≡ s.acceptor_open

dispatch-guarded :
    (net : Network) (p : FtpParser) (s s' : Session) (c : FtpCommand)
    → s.logged_in_user ≡ none
    → dispatch c net p s ≡ ok s'
    → IsUntouched s s'
unfolding dispatch
dispatch-guarded net p s s' FtpCommand.user h e = ground arith
dispatch-guarded net p s s' _ h e = ground arith

-- When the handling of an FTP request ends normally and nobody was logged in, then, whether the
-- server authenticates or not, the stored files, the accepts that are pending, the data
-- connections with all that is pending on them, and the state of the data acceptor are as they
-- were.
pub handle_ftp-guarded :
    (net : Network) (request : Bytes) (s s' : Session)
    → s.logged_in_user ≡ none
    → handle_ftp net request s ≡ ok s'
    → (s'.filesystem ≡ s.filesystem)
      × (s'.accepts ≡ s.accepts)
      × (s'.ftp_data ≡ s.ftp_data)
      × (s'.acceptor_open ≡ s.acceptor_open)
unfolding handle_ftp receive_message reply
handle_ftp-guarded net request s s' h e =
    let (p, _, r) = >>=-eq-ok (parse request) (λ q. handle_request net q s) e in
    elim (handle_request-cases net p s s' r) [
      | inl (s₁, d, l) ↦
          let u = dispatch-guarded net p s s₁ p.command h d in
          ground (arith, l, u.filesystem, u.accepts, u.ftp_data, u.acceptor)
      | inr l ↦ ground (arith, l)
    ]

-- Whoever is logged in has an accepted password.
abbrev pub Authentic : UserDatabase → Option User → Type 0
Authentic db none = Unit
Authentic db (some user) = verify db user ≡ true

abbrev pub IsAuthentic : Session → Type 0
IsAuthentic s = Authentic s.users s.logged_in_user

dispatch-Authentic :
    (net : Network) (p : FtpParser) (s s' : Session) (c : FtpCommand)
    → IsAuthentic s
    → dispatch c net p s ≡ ok s'
    → IsAuthentic s'
unfolding dispatch send_found
dispatch-Authentic net p s s' FtpCommand.user a e = ground arith
dispatch-Authentic net p s s' _ a e = ground arith

-- A request leaves a session in which whoever is logged in has an accepted password.
pub handle_ftp-IsAuthentic :
    (net : Network) (request : Bytes) (s s' : Session)
    → IsAuthentic s
    → handle_ftp net request s ≡ ok s'
    → IsAuthentic s'
unfolding handle_ftp receive_message reply
handle_ftp-IsAuthentic net request s s' a e =
    let (p, _, r) = >>=-eq-ok (parse request) (λ q. handle_request net q s) e in
    elim (handle_request-cases net p s s' r) [
      | inl (s₁, d, l) ↦ subst IsAuthentic (sym l) (dispatch-Authentic net p s s₁ p.command a d)
      | inr l ↦ subst IsAuthentic (sym l) a
    ]

-- Requests one after the other, each at the state that the last one left.
unfoldable pub serve_ftp : List (Network × Bytes) → Session → Outcome Session
serve_ftp [] s = ok s
serve_ftp ((net, request) ∷ requests) s = do s' ← handle_ftp net request s; serve_ftp requests s'

-- When FTP requests are handled one after the other and each handling ends normally, from a
-- session in which a user that is logged in is accepted by the user database, then at the end a
-- user that is logged in is accepted by the user database too.
pub serve_ftp-IsAuthentic :
    (requests : List (Network × Bytes)) (s s' : Session)
    → IsAuthentic s
    → serve_ftp requests s ≡ ok s'
    → IsAuthentic s'
unfolding serve_ftp
serve_ftp-IsAuthentic [] s s' a e = subst IsAuthentic (ok-injective e) a
serve_ftp-IsAuthentic ((net, request) ∷ requests) s s' a e =
    let (s₁, h, r) = >>=-eq-ok (handle_ftp net request s) (serve_ftp requests) e in
    serve_ftp-IsAuthentic requests s₁ s' (handle_ftp-IsAuthentic net request s s₁ a h) r
