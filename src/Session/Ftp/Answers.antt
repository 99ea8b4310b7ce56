-- ===== src/Session/Ftp/Answers.antt =====
-- Which FTP requests are handled to the end.
use in_memory_object_storage.Common.{
  map, List, or_throw, ◌≡◌, ◌≢◌, ◌∙◌, refl, inl, inr, Bool, true, false, [], ◌∷◌, ◌++◌, Option,
  none, some, is_some, arith, ℕ, All, Bool-cases, Outcome, ok, if◌then◌else◌, ap, ◌>>=◌,
}
use in_memory_object_storage.Common.Text.{Bytes, codes, Lacks, text_eq}
use in_memory_object_storage.Common.Dict.{Dict, lookup}
use in_memory_object_storage.Utils.Case.{to_upper, IsAscii, to_upper_case-IsAscii}
use in_memory_object_storage.Utils.Split.Tokens.{join}
use in_memory_object_storage.Protocol.FtpRequest.{
  command_map, FtpCommand, FtpParser, unrecognized, with_command, lookup_command,
}
use in_memory_object_storage.Protocol.FtpRequest.Parsing.{parse-line}
use in_memory_object_storage.Session.{Session, Network, receive_message, configure_data_acceptor}
use in_memory_object_storage.Session.Ftp.{is_user, dispatch, handle_request, handle_ftp}

abbrev pub Ends : Outcome Session → Type 0
Ends o = (s' : Session) × (o ≡ ok s')

Ends-if : (b : Bool) (m n : Outcome Session) → Ends m → Ends n → Ends (if b then m else n)
Ends-if true m n h k = h
Ends-if false m n h k = k

Ends-address :
    (o : Option (List ℕ)) (address : List ℕ) (f : List ℕ → Outcome Session)
    → o ≡ some address
    → ((a : List ℕ) → Ends (f a))
    → Ends (or_throw o >>= f)
Ends-address none address f e h = cc
Ends-address (some a) address f e h = h a

IsKnown : Dict FtpCommand → Type 0
IsKnown d = All (λ e. e.1 ≢ unrecognized) d

lookup-IsKnown :
    (name : Bytes) (d : Dict FtpCommand) → IsKnown d → lookup name d ≢ some unrecognized
unfolding lookup IsKnown
lookup-IsKnown name [] h e = cc
lookup-IsKnown name ((k, c) ∷ d) h e = elim (Bool-cases (text_eq k name)) [
  | inl t ↦ h.0 (ground (arith, t, e))
  | inr t ↦ lookup-IsKnown name d h.1 (ground (arith, t, e))
]

command_map-IsKnown : IsKnown command_map
unfolding IsKnown
command_map-IsKnown = (
  λ z. cc,
  (
    λ z. cc,
    (λ z. cc, (λ z. cc, (λ z. cc, (λ z. cc, (λ z. cc, (λ z. cc, (λ z. cc, (λ z. cc, tt)))))))),
  ),
)

lookup_command-known :
    (name : Bytes)
    → IsAscii name
    → (o : Option FtpCommand) × (lookup_command name ≡ ok o) × (o ≢ some unrecognized)
unfolding lookup_command
lookup_command-known name h =
    let upper = map to_upper name in
    (
      lookup upper command_map,
      ap (λ r. r >>= λ t. ok (lookup t command_map)) (to_upper_case-IsAscii name h),
      lookup-IsKnown upper command_map command_map-IsKnown,
    )

pub append-ne : (a b : Bytes) (c : ℕ) → a ++ c ∷ b ≢ []
append-ne [] b c e = cc
append-ne (x ∷ a) b c e = cc

module _ (net : Network) (address : List ℕ) (name argument : Bytes) (s : Session)
    (ipv4 : net.address ≡ some address) where
  abbrev request_of : FtpCommand → FtpParser
  request_of c = with_command (some c) (name ∷ argument ∷ [])

  dispatch-Ends : (c : FtpCommand) → c ≢ unrecognized → Ends (dispatch c net (request_of c) s)
  unfolding dispatch with_command
  dispatch-Ends FtpCommand.user h = (_, refl)
  dispatch-Ends FtpCommand.pass h = Ends-if (is_user s.last_ftp_command) _ _ (_, refl) (_, refl)
  dispatch-Ends FtpCommand.list h = Ends-if (is_some s.logged_in_user) _ _ (_, refl) (_, refl)
  dispatch-Ends FtpCommand.retr h =
      Ends-if (is_some s.logged_in_user) _ _ (Ends-if s.acceptor_open _ _ (_, refl) (_, refl))
        (_, refl)
  dispatch-Ends FtpCommand.stor h =
      Ends-if (is_some s.logged_in_user) _ _ (Ends-if s.acceptor_open _ _ (_, refl) (_, refl))
        (_, refl)
  dispatch-Ends FtpCommand.dele h = Ends-if (is_some s.logged_in_user) _ _ (_, refl) (_, refl)
  dispatch-Ends FtpCommand.pasv h =
      Ends-if (is_some s.logged_in_user) _ _
        (Ends-if (configure_data_acceptor net s).0 _ _
          (Ends-address net.address address _ ipv4 λ a. (_, refl)) (_, refl))
        (_, refl)
  dispatch-Ends FtpCommand.type h = Ends-if (is_some s.logged_in_user) _ _ (_, refl) (_, refl)
  dispatch-Ends FtpCommand.quit h = (_, refl)
  dispatch-Ends FtpCommand.cwd h = Ends-if (is_some s.logged_in_user) _ _ (_, refl) (_, refl)
  dispatch-Ends FtpCommand.unrecognized h = absurd (h refl)

  handle_request-Ends :
      (o : Option FtpCommand)
      → o ≢ some unrecognized
      → Ends (handle_request net (with_command o (name ∷ argument ∷ [])) s)
  unfolding handle_request with_command
  handle_request-Ends none h = (_, refl)
  handle_request-Ends (some c) h =
      let (s₁, e) = dispatch-Ends c (λ k. h (ap some k)) in
      (receive_message (record s₁ { last_ftp_command = c }), rw e)

  join-two_words : join (codes " ") (name ∷ argument ∷ []) ≢ []
  unfolding join
  join-two_words = append-ne name argument b' '

  -- In every session whose socket has an IPv4 address, the handling of an FTP request of two
  -- words without spaces, joined by one space and ended by CRLF, the first of ASCII characters,
  -- ends normally, whatever the words are.
  pub handle_ftp-Ends :
      IsAscii name
      → Lacks b' ' name
      → Lacks b' ' argument
      → (s' : Session) × (handle_ftp net (join (codes " ") (name ∷ argument ∷ []) ++ codes "\r\n") s
          ≡ ok s')
  unfolding handle_ftp
  handle_ftp-Ends a h k =
      let (o, known, n) = lookup_command-known name a in
      let (s', e) = handle_request-Ends o n in
      (
        s',
        ap (λ r. r >>= λ p. handle_request net p s)
              (parse-line name (argument ∷ []) join-two_words (h, (k, tt))
                ∙ ap (λ r. r >>= λ p. ok (with_command p (name ∷ argument ∷ []))) known)
            ∙ e,
      )
