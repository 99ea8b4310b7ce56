-- ===== src/Session/Http/Requests.antt =====
-- Requests that are well formed, on a server that does not authenticate.
use in_memory_object_storage.Common.{
  ℕ, ◌<◌, ◌^◌, ◌≡◌, ◌∙◌, refl, ap, inl, inr, Bool-cases, ltb, false, true, List, [], ◌∷◌, ◌++◌,
  some, arith, All, ok,
}
use in_memory_object_storage.Common.Text.{Bytes, codes, text_eq, Lacks}
use in_memory_object_storage.Common.Dict.{lookup}
use in_memory_object_storage.MemoryFs.{File}
use in_memory_object_storage.Protocol.HttpRequest.{HttpMethod, HttpParser, method_map, parse, field}
use in_memory_object_storage.Protocol.HttpRequest.Parsing.{Header, IsHeader}
use in_memory_object_storage.Protocol.HttpRequest.Parsing.Requests.{
  request_text, Announces, parse-request,
}
use in_memory_object_storage.Protocol.HttpResponse
use in_memory_object_storage.Protocol.HttpResponse.{of_resource}
use in_memory_object_storage.Session.{Session, receive_message}
use in_memory_object_storage.Session.Http.{
  respond, auth_http_user, handle_put, continue_if_expected, expects_continue, max_string_size,
  dispatch, handle_parsed, handle_authorized, handle_http,
}
use in_memory_object_storage.Session.Exchange.{handle_get-Holds}

handle_http-parsed :
    (request headers : Bytes) (p : HttpParser) (s : Session)
    → parse (request ++ headers) ≡ ok p
    → p.valid ≡ true
    → s.authenticate ≡ false
    → handle_http request (some headers) s ≡ dispatch p.method p s
unfolding handle_http handle_parsed auth_http_user handle_authorized
handle_http-parsed request headers p s e v a = rw (e, v, a) refl

lookup-put : lookup (codes "PUT") method_map ≡ some HttpMethod.put
unfolding lookup
lookup-put = refl

lookup-get : lookup (codes "GET") method_map ≡ some HttpMethod.get
unfolding lookup
lookup-get = refl

continue_if_expected-same :
    (p : HttpParser) (s : Session)
    → let s' = continue_if_expected p s in
      (s'.uploads ≡ s.uploads)
      × (s'.filesystem ≡ s.filesystem)
      × (s'.authenticate ≡ s.authenticate)
      × (s'.reads ≡ s.reads)
unfolding continue_if_expected respond
continue_if_expected-same p s = elim (Bool-cases (expects_continue (field p (codes "expect")))) [
  | inl e ↦ rw e (refl, refl, refl, refl)
  | inr e ↦ rw e (refl, refl, refl, refl)
]

handle_put-pending :
    (p : HttpParser) (s : Session)
    → p.resource_size < 2 ^ 31
    → s.uploads ≡ []
    → (s' : Session) × (handle_put p s ≡ ok s')
      × (s'.uploads ≡ record { path = p.uri; size = p.resource_size } ∷ [])
      × (s'.filesystem ≡ s.filesystem)
      × (s'.authenticate ≡ s.authenticate)
      × (s'.reads ≡ s.reads)
unfolding handle_put
handle_put-pending p s b u =
    let (uploads, files, same, reads) = continue_if_expected-same p s in
    let fits : ltb max_string_size p.resource_size ≡ false = ground (arith, b) in
    let s' = continue_if_expected p s in
    (
      record s' { uploads = s'.uploads ++ record { path = p.uri; size = p.resource_size } ∷ [] },
      rw fits refl,
      ap (λ l. l ++ record { path = p.uri; size = p.resource_size } ∷ []) (uploads ∙ u),
      files,
      same,
      reads,
    )

-- A well-formed PUT leaves its body to be read.
pub put_request-pending :
    (uri version line headers : Bytes) (fields : List Header) (n : ℕ) (s : Session)
    → s.authenticate ≡ false
    → s.uploads ≡ []
    → Lacks b' ' uri × Lacks b' ' version × Lacks 13 uri × Lacks 13 version
    → line ++ headers ≡ request_text (codes "PUT") uri version fields
    → All IsHeader fields
    → n < 2 ^ 31
    → Announces fields n
    → (s' : Session) × (handle_http line (some headers) s ≡ ok s')
      × (s'.uploads ≡ record { path = uri; size = n } ∷ [])
      × (s'.filesystem ≡ s.filesystem)
      × (s'.authenticate ≡ s.authenticate)
      × (s'.reads ≡ s.reads)
unfolding dispatch
put_request-pending uri version line headers fields n s a u (l₁, l₂, r₁, r₂) text w b h =
    let (p, parsed, valid, method, path, size, _) =
      parse-request (codes "PUT") uri version HttpMethod.put fields n lookup-put
        (omega arith, l₁, l₂) (omega arith, r₁, r₂) w b h in
    let (s', e, uploads, files, same, reads) = handle_put-pending p s (rw size b) u in
    (
      s',
      handle_http-parsed line headers p s (ap parse text ∙ parsed) valid a
          ∙ ap (λ c. dispatch c p s) method
          ∙ e,
      uploads
          ∙ ap (λ t. record { path = t; size = p.resource_size } ∷ []) path
          ∙ ap (λ k. record { path = uri; size = k } ∷ []) size,
      files,
      same,
      reads,
    )

-- A well-formed GET of a stored file.
pub get_request-stored :
    (uri version line headers : Bytes) (fields : List Header) (n : ℕ) (file : File) (s : Session)
    → s.authenticate ≡ false
    → text_eq uri (codes "/") ≡ false
    → lookup uri s.filesystem.fs ≡ some file
    → Lacks b' ' uri × Lacks b' ' version × Lacks 13 uri × Lacks 13 version
    → line ++ headers ≡ request_text (codes "GET") uri version fields
    → All IsHeader fields
    → n < 2 ^ 31
    → Announces fields n
    → handle_http line (some headers) s
      ≡ ok (receive_message (respond (of_resource HttpResponse.ok file) s))
unfolding dispatch
get_request-stored uri version line headers fields n file s a root there (l₁, l₂, r₁, r₂) text w b
      h =
    let (p, parsed, valid, method, path, size, _) =
      parse-request (codes "GET") uri version HttpMethod.get fields n lookup-get
        (omega arith, l₁, l₂) (omega arith, r₁, r₂) w b h in
    handle_http-parsed line headers p s (ap parse text ∙ parsed) valid a
    ∙ ap (λ c. dispatch c p s) method
    ∙ handle_get-Holds p file s (rw path root) (rw path there)
