-- ===== src/Session/Http/Access.antt =====
-- Who may do what over HTTP.
use in_memory_object_storage.Common.{
  ◌≡◌, ◌⊎◌, ◌∙◌, inl, inr, refl, ap, Bool, true, false, ◌++◌, Option, none, some, arith, ok,
  undefined, >>=-eq-ok, ok-injective, Bool-cases,
}
use in_memory_object_storage.Common.Text.{Bytes, codes}
use in_memory_object_storage.UserDatabase.{verify}
use in_memory_object_storage.Protocol.HttpRequest.{
  HttpParser, HttpAuthInfo, parse, field, get_auth_info, auth_of,
}
use in_memory_object_storage.Session.{Session}
use in_memory_object_storage.Session.Http.{
  respond, verify_info, auth_http_user, handle_authorized, handle_parsed, handle_http,
}

-- The request came with credentials that the database accepts.
abbrev pub Accepted : Bytes → Session → Type 0
Accepted request s =
    (parser : HttpParser) × (info : HttpAuthInfo) × (parse request ≡ ok parser)
    × (get_auth_info parser ≡ ok (some info))
    × (verify s.users (record { username = info.username; password = info.password }) ≡ true)

abbrev Refused : Session → Session → Type 0
Refused s s' = (s'.filesystem ≡ s.filesystem) × (s'.uploads ≡ s.uploads) × (s'.reads ≡ s.reads)

verify_info-true :
    (info : Option HttpAuthInfo) (s : Session)
    → verify_info info s ≡ ok true
    → (i : HttpAuthInfo) × (info ≡ some i)
      × (verify s.users (record { username = i.username; password = i.password }) ≡ true)
unfolding verify_info
verify_info-true none s e = cc
verify_info-true (some i) s e = (i, refl, ok-injective e)

authorized-cases :
    (b : Bool) (parser : HttpParser) (s s' : Session)
    → handle_authorized b parser s ≡ ok s'
    → (b ≡ true) ⊎ Refused s s'
unfolding handle_authorized respond
authorized-cases true parser s s' e = inl refl
authorized-cases false parser s s' e = inr (ground arith)

-- On a server that authenticates, when the handling of an HTTP request ends normally, then either
-- the request has credentials that the user database accepts, or the stored files, the pending
-- uploads and the pending reads are as they were.
pub handle_http-authorized :
    (request headers : Bytes) (s s' : Session)
    → s.authenticate ≡ true
    → handle_http request (some headers) s ≡ ok s'
    → Accepted (request ++ headers) s
      ⊎ (s'.filesystem ≡ s.filesystem) × (s'.uploads ≡ s.uploads) × (s'.reads ≡ s.reads)
unfolding handle_http handle_parsed auth_http_user respond
handle_http-authorized request headers s s' a e =
    let (parser, p, r) = >>=-eq-ok (parse (request ++ headers)) (λ q. handle_parsed q s) e in
    elim (Bool-cases parser.valid) [
      | inr v ↦ inr (ground (arith, v, r))
      | inl v ↦
          let (b, d, h) =
            >>=-eq-ok (auth_http_user parser s) (λ x. handle_authorized x parser s) {y = s'}
              (ground (arith, v, r)) in
          elim (authorized-cases b parser s s' h) [
            | inr k ↦ inr k
            | inl t ↦
                let (info, g, w) =
                  >>=-eq-ok (get_auth_info parser) (λ x. verify_info x s) {y = true}
                    (ground (arith, a, d, t)) in
                let (i, f, ver) = verify_info-true info s w in inl (parser, i, p, g ∙ ap ok f, ver)
          ]
    ]

get_auth_info-none :
    (parser : HttpParser)
    → field parser (codes "authorization") ≡ none
    → get_auth_info parser ≡ ok none
unfolding get_auth_info
get_auth_info-none parser f = ap auth_of f

-- On a server that authenticates, the handling of a valid request without the header field
-- Authorization is undefined behaviour.
pub handle_http-no_credentials :
    (request headers : Bytes) (s : Session) (parser : HttpParser)
    → s.authenticate ≡ true
    → parse (request ++ headers) ≡ ok parser
    → parser.valid ≡ true
    → field parser (codes "authorization") ≡ none
    → handle_http request (some headers) s ≡ undefined
unfolding handle_http handle_parsed auth_http_user verify_info
handle_http-no_credentials request headers s parser a p v f =
    let g = get_auth_info-none parser f in ground (arith, g, a, p, v)
