-- ===== src/Session/Stream/Visits.antt =====
-- An HTTP client that uploads a file and downloads it, over one connection.
use in_memory_object_storage.Common.{
  ℕ, suc, ◌<◌, ◌^◌, ◌≡◌, ◌≢◌, ◌∙◌, refl, sym, ap, inl, inr, false, List, [], ◌∷◌, ◌++◌, none, some,
  Option-cases, length, All, ok,
}
use in_memory_object_storage.Common.Text.{Bytes, codes, text_eq, Lacks}
use in_memory_object_storage.Common.Dict.{lookup}
use in_memory_object_storage.Protocol.HttpRequest.Parsing.{Header, IsHeader}
use in_memory_object_storage.Protocol.HttpRequest.Parsing.Requests.{request_text, Announces}
use in_memory_object_storage.Protocol.HttpResponse
use in_memory_object_storage.Protocol.HttpResponse.{of_resource}
use in_memory_object_storage.Session.{Session, Network, receive_message}
use in_memory_object_storage.Session.Http.{respond, finish_put}
use in_memory_object_storage.Session.Http.Frame.{finish_put-IsDone}
use in_memory_object_storage.Session.Exchange.{finish_put-Holds}
use in_memory_object_storage.Session.Stream.{
  Input, unread, Reader, Connection, request_arrives, body_arrives, step_connection, run_connection,
}
use in_memory_object_storage.Session.Stream.Packets.{IsSteady}
use in_memory_object_storage.Session.Stream.Bodies.{body_arrives-whole}
use in_memory_object_storage.Session.Stream.Requests.{after_head, put-arrives, get-arrives}

abbrev put_text : Bytes → List Header → Bytes
put_text uri fields = request_text (codes "PUT") uri (codes "HTTP/1.1") fields

abbrev get_text : Bytes → List Header → Bytes
get_text uri fields = request_text (codes "GET") uri (codes "HTTP/1.1") fields

-- A read of a body ends without an error when the socket has it.
abbrev pub IsSteadyBody : Reader → Type 0
IsSteadyBody r = (body rest : Bytes) → (r.read_exactly (length body) (body ++ rest)).0 ≢ none

body-arrives :
    (r : Reader) (uri body rest : Bytes) (c : Connection)
    → IsSteadyBody r
    → c.session.uploads ≡ record { path = uri; size = length body } ∷ []
    → c.input.buffer ≡ []
    → unread c.input ≡ body ++ rest
    → (i : Input) × (step_connection (body_arrives r) c
        ≡ ok (record {
          session = finish_put uri (some body) (record c.session { uploads = [] });
          input = i;
        }))
      × (unread i ≡ rest)
body-arrives r uri body rest c steady p b u =
    let incoming : c.input.incoming ≡ body ++ rest = sym (ap (λ t. t ++ c.input.incoming) b) ∙ u in
    elim (Option-cases (r.read_exactly (length body) c.input.incoming).0) [
      | inl failed ↦
          absurd (
            steady body rest (sym (ap (λ t. (r.read_exactly (length body) t).0) incoming) ∙ failed))
      | inr (arrived, a) ↦
          body_arrives-whole r (record { path = uri; size = length body }) [] body rest arrived c p
            b incoming refl a
    ]

-- On a connection of a server that does not authenticate, with one read and no upload pending,
-- let the stream begin with a PUT to a path that is free and is not "/", a body of the announced
-- size, and a GET of the path, both of HTTP/1.1 with one header field or more, the path without
-- spaces and carriage returns, each field a name of ASCII characters, a colon, a space and a
-- value that does not begin with a space, none with a colon or a carriage return, and the size
-- that each announces printed and below 2^31, or 0 when it announces none; and let the reads
-- succeed when the stream has what they wait for, and the reads of the head of the PUT read none
-- of the body ahead. Then the arrival of the PUT, of the body and of the GET end normally, the
-- file that is stored under the path is the body, the last response is status 200 with exactly
-- the body, one read is started after it, and what stands behind the GET in the stream is left
-- unread.
pub put_and_get-served :
    (r₁ r₂ r₃ : Reader) (net₁ net₃ : Network) (uri body rest : Bytes) (h g : Header)
    (put_fields get_fields : List Header) (m : ℕ) (c : Connection)
    → IsSteady r₁ × IsSteadyBody r₂ × IsSteady r₃
    → (c.session.authenticate ≡ false) × (c.session.uploads ≡ []) × (c.session.reads ≡ 1)
    → lookup uri c.session.filesystem.fs ≡ none
    → text_eq uri (codes "/") ≡ false
    → Lacks b' ' uri × Lacks 13 uri
    → All IsHeader (h ∷ put_fields) × All IsHeader (g ∷ get_fields)
    → (length body < 2 ^ 31) × (m < 2 ^ 31)
    → Announces (h ∷ put_fields) (length body) × Announces (g ∷ get_fields) m
    → unread c.input
      ≡ put_text uri (h ∷ put_fields) ++ (body ++ (get_text uri (g ∷ get_fields) ++ rest))
    → (after_head r₁ c.input).buffer ≡ []
    → (s : Session) × (i : Input) × (run_connection
          (request_arrives r₁ net₁ ∷ body_arrives r₂ ∷ request_arrives r₃ net₃ ∷ [])
          c
        ≡ ok (record {
          session = receive_message (respond (of_resource HttpResponse.ok body) s);
          input = i;
        }))
      × (lookup uri s.filesystem.fs ≡ some body)
      × (unread i ≡ rest)
unfolding run_connection
put_and_get-served r₁ r₂ r₃ net₁ net₃ uri body rest h g put_fields get_fields m c
      (steady₁, steady₂, steady₃) (a, p, k) free root l (w₁, w₂) (b₁, b₂) (m₁, m₂) u empty =
    let get = get_text uri (g ∷ get_fields) in
    let (s₁, e₁, left₁, uploads, files, open₁, reads) =
      put-arrives r₁ net₁ uri h put_fields (length body) (body ++ (get ++ rest)) c steady₁ a p k l
        w₁ b₁ m₁ u in
    let c₁ : Connection = record { session = s₁; input = after_head r₁ c.input } in
    let (i₂, e₂, left₂) = body-arrives r₂ uri body (get ++ rest) c₁ steady₂ uploads empty left₁ in
    let waiting = record s₁ { uploads = [] } in
    let t = finish_put uri (some body) waiting in
    let done = finish_put-IsDone uri (some body) waiting in
    let there = finish_put-Holds uri body waiting (ap (λ f. lookup uri f.fs) files ∙ free) in
    let c₂ : Connection = record { session = t; input = i₂ } in
    let (e₃, left₃) =
      get-arrives r₃ net₃ uri g get_fields m body rest c₂ steady₃ (done.authenticate ∙ open₁)
        (done.reads ∙ ap suc reads) root there l w₂ b₂ m₂ left₂ in
    (record t { reads = 0 }, after_head r₃ i₂, rw (e₁, e₂, e₃) refl, there, left₃)
