-- ===== src/Session/Ftp/Replies.antt =====
-- What a client hears: the replies to its requests.
use in_memory_object_storage.Common.{
  List, ◌≡◌, refl, ap, subst, ◌+◌, inl, inr, Bool, true, false, [], ◌∷◌, ◌++◌, Option, none, some,
  is_some, ◌==◌, length, get_elem?, arith, Outcome, ok, throws, undefined, diverges, ◌>>=◌,
  >>=-eq-ok, ok-injective, or_undefined, or_throw, ℕ, if◌then◌else◌, Bool-cases,
}
use in_memory_object_storage.Common.Text.{Bytes, codes}
use in_memory_object_storage.MemoryFs.{Status, File, remove}
use in_memory_object_storage.UserDatabase.{User, verify}
use in_memory_object_storage.Protocol.FtpRequest.{FtpCommand, FtpParser, parse}
use in_memory_object_storage.Protocol.FtpResponse.{
  FtpReplyCode, entering_passive_mode, service_not_available, syntax_error_unrecognized_command,
  with_text, serialize,
}
use in_memory_object_storage.Session.{
  Session, Network, configure_data_acceptor, reply, receive_message,
}
use in_memory_object_storage.Session.Ftp.{
  is_user, log_in, send_found, report_deleted, endpoint_text, dispatch, handle_request, handle_ftp,
}
use in_memory_object_storage.Session.Ftp.Guards.{handle_request-cases}

-- The session has one more message to send, a reply line.
abbrev pub Replied : Session → Session → Type 0
Replied s s' =
    (code : FtpReplyCode) × (text : Bytes) × (s'.posted
      ≡ s.posted ++ serialize (with_text code text) ∷ [])
    × (s'.reads ≡ s.reads)

-- A run that ends has posted one reply, and has started no read of its own.
data Posts (s : Session) : Outcome Session → Type 0 where
  one_reply : {s' : Session} → Replied s s' → Posts s (ok s')
  by_throw : Posts s throws
  by_undefined : Posts s undefined

module _ (s : Session) where
  Posts-if :
      (b : Bool) (m n : Outcome Session) → Posts s m → Posts s n → Posts s (if b then m else n)
  Posts-if true m n h k = h
  Posts-if false m n h k = k

  Posts-token :
      (o : Option Bytes) (f : Bytes → Outcome Session)
      → ((a : Bytes) → Posts s (f a))
      → Posts s (or_undefined o >>= f)
  Posts-token none f h = by_undefined
  Posts-token (some a) f h = h a

  Posts-reply :
      (code : FtpReplyCode) (text : Bytes) (s₁ : Session)
      → s₁.posted ≡ s.posted
      → s₁.reads ≡ s.reads
      → Posts s (ok (reply code text s₁))
  unfolding reply
  Posts-reply code text s₁ h k =
      one_reply (code, text, ap (λ l. l ++ serialize (with_text code text) ∷ []) h, k)

  Posts-log_in : (user : User) → Posts s (ok (log_in user s))
  unfolding log_in
  Posts-log_in user = elim (Bool-cases (verify s.users user)) [
    | inl e ↦ rw e (Posts-reply _ _ _ refl refl)
    | inr e ↦ rw e (Posts-reply _ _ s refl refl)
  ]

  Posts-send_found : (f : Status × File) → Posts s (ok (send_found f s))
  unfolding send_found
  Posts-send_found (Status.success, file) = one_reply (_, _, refl, refl)
  Posts-send_found (_, file) = one_reply (_, _, refl, refl)

  Posts-report_deleted :
      (status : Status) (s₁ : Session)
      → s₁.posted ≡ s.posted
      → s₁.reads ≡ s.reads
      → Posts s (ok (report_deleted status s₁))
  unfolding report_deleted
  Posts-report_deleted Status.success s₁ h k = Posts-reply _ _ s₁ h k
  Posts-report_deleted _ s₁ h k = Posts-reply _ _ s₁ h k

  configure_data_acceptor-keeps :
      (net : Network)
      → ((configure_data_acceptor net s).1.posted ≡ s.posted)
        × ((configure_data_acceptor net s).1.reads ≡ s.reads)
  unfolding configure_data_acceptor
  configure_data_acceptor-keeps net = ground arith

  Posts-address :
      (o : Option (List ℕ)) (f : List ℕ → Outcome Session)
      → ((a : List ℕ) → Posts s (f a))
      → Posts s (or_throw o >>= f)
  Posts-address none f h = by_throw
  Posts-address (some a) f h = h a

  Posts-pasv :
      (net : Network)
      → Posts s (
          let (ready, s') = configure_data_acceptor net s in
          if ready
          then (do
            address ← or_throw net.address
            ok (
                reply entering_passive_mode
                  (codes "Entering passive mode " ++ endpoint_text address net.port)
                  s'))
          else ok (reply service_not_available (codes "Passive mode not supported") s'))
  Posts-pasv net =
      let kept = configure_data_acceptor-keeps net in
      Posts-if (configure_data_acceptor net s).0 _ _
        (Posts-address net.address _ λ a. Posts-reply _ _ _ kept.0 kept.1)
        (Posts-reply _ _ _ kept.0 kept.1)

dispatch-Posts :
    (net : Network) (p : FtpParser) (s : Session) (c : FtpCommand) → Posts s (dispatch c net p s)
unfolding dispatch
dispatch-Posts net p s FtpCommand.user =
    Posts-if s (length p.tokens == 2) _ _
      (Posts-token s (get_elem? p.tokens 1) _ λ a. Posts-reply s _ _ _ refl refl)
      (Posts-reply s _ _ _ refl refl)
dispatch-Posts net p s FtpCommand.pass =
    Posts-if s (is_user s.last_ftp_command) _ _
      (Posts-if s (length p.tokens == 2) _ _
        (Posts-token s (get_elem? p.tokens 1) _ λ a. Posts-log_in s _)
        (Posts-reply s _ _ s refl refl))
      (Posts-reply s _ _ s refl refl)
dispatch-Posts net p s FtpCommand.list =
    Posts-if s (is_some s.logged_in_user) _ _ (one_reply (_, _, refl, refl))
      (Posts-reply s _ _ s refl refl)
dispatch-Posts net p s FtpCommand.retr =
    Posts-if s (is_some s.logged_in_user) _ _
      (Posts-if s s.acceptor_open _ _
        (Posts-token s (get_elem? p.tokens 1) _ λ a. Posts-send_found s _)
        (Posts-reply s _ _ s refl refl))
      (Posts-reply s _ _ s refl refl)
dispatch-Posts net p s FtpCommand.stor =
    Posts-if s (is_some s.logged_in_user) _ _
      (Posts-if s (length p.tokens == 2) _ _
        (Posts-if s s.acceptor_open _ _
          (Posts-token s (get_elem? p.tokens 1) _ λ a. one_reply (_, _, refl, refl))
          (Posts-reply s _ _ s refl refl))
        (Posts-reply s _ _ s refl refl))
      (Posts-reply s _ _ s refl refl)
dispatch-Posts net p s FtpCommand.dele =
    Posts-if s (is_some s.logged_in_user) _ _
      (Posts-token s (get_elem? p.tokens 1) _ λ a.
        Posts-report_deleted s (remove s.filesystem a).0
          (record s { filesystem = (remove s.filesystem a).1 }) refl refl)
      (Posts-reply s _ _ s refl refl)
dispatch-Posts net p s FtpCommand.pasv =
    Posts-if s (is_some s.logged_in_user) _ _ (Posts-pasv s net) (Posts-reply s _ _ s refl refl)
dispatch-Posts net p s FtpCommand.type =
    Posts-if s (is_some s.logged_in_user) _ _ (Posts-reply s _ _ s refl refl)
      (Posts-reply s _ _ s refl refl)
dispatch-Posts net p s FtpCommand.quit = Posts-reply s _ _ _ refl refl
dispatch-Posts net p s FtpCommand.cwd =
    Posts-if s (is_some s.logged_in_user) _ _
      (Posts-if s (length p.tokens == 2) _ _
        (Posts-token s (get_elem? p.tokens 1) _ λ a. Posts-reply s _ _ _ refl refl)
        (Posts-reply s _ _ s refl refl))
      (Posts-reply s _ _ s refl refl)
dispatch-Posts net p s FtpCommand.unrecognized = by_throw

Posts-Replied : (s s' : Session) (o : Outcome Session) → Posts s o → o ≡ ok s' → Replied s s'
Posts-Replied s s' (ok t) (one_reply r) e = subst (Replied s) (ok-injective e) r
Posts-Replied s s' throws by_throw e = cc
Posts-Replied s s' undefined by_undefined e = cc
Posts-Replied s s' diverges h e = elim h [ ]

-- When the handling of an FTP request ends normally, then it has posted exactly one message, a
-- reply line of a code and a text, behind those that were posted before, and has started exactly
-- one read for the next request.
pub handle_ftp-one_reply :
    (net : Network) (request : Bytes) (s s' : Session)
    → handle_ftp net request s ≡ ok s'
    → (code : FtpReplyCode) × (text : Bytes) × (s'.posted
        ≡ s.posted ++ serialize (with_text code text) ∷ [])
      × (s'.reads ≡ s.reads + 1)
unfolding handle_ftp receive_message reply
handle_ftp-one_reply net request s s' e =
    let (p, _, r) = >>=-eq-ok (parse request) (λ q. handle_request net q s) e in
    elim (handle_request-cases net p s s' r) [
      | inl (s₁, d, l) ↦
          let (code, text, m, k) = Posts-Replied s s₁ _ (dispatch-Posts net p s p.command) d in
          (code, text, ground (arith, l, m), ground (arith, l, k))
      | inr l ↦ (syntax_error_unrecognized_command, [], ground (arith, l), ground (arith, l))
    ]
