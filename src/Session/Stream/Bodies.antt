-- ===== src/Session/Stream/Bodies.antt =====
-- The body of a PUT, with and without bytes of it that were read ahead.
use in_memory_object_storage.Common.{
  ℕ, ◌<◌, ◌≡◌, ◌≢◌, ◌∙◌, refl, sym, ap, inl, inr, List, [], ◌∷◌, ◌++◌, some, Option-cases, ok,
  arith, take-append-length, drop-append-length, length, length-append, take, drop,
}
use in_memory_object_storage.Common.Text.{Bytes}
use in_memory_object_storage.Protocol.HttpResponse.{of_status, internal_server_error}
use in_memory_object_storage.Session.{Upload, receive_message}
use in_memory_object_storage.Session.Http.{finish_put, respond}
use in_memory_object_storage.Session.Events.{step, end_upload}
use in_memory_object_storage.Session.Stream.{
  Input, unread, Reader, Connection, body_arrives, receive_body, step_connection,
}

-- What a body's read leaves, when it is the oldest upload that is pending.
receive_body-step :
    (r : Reader) (u : Upload) (uploads : List Upload) (c : Connection)
    → c.session.uploads ≡ u ∷ uploads
    → let (body, incoming) = r.read_exactly u.size c.input.incoming in
      step_connection (body_arrives r) c
      ≡ ok (record {
        session = finish_put u.path body (record c.session { uploads = uploads });
        input = record c.input { incoming = incoming };
      })
unfolding step_connection receive_body step end_upload
receive_body-step r u uploads c e =
    let (body, incoming) = r.read_exactly u.size c.input.incoming in
    ap (λ l. receive_body l r c) e
    ∙ ap
        (λ l. ok (record {
          session = end_upload l body c.session;
          input = record c.input { incoming = incoming };
        }))
        e

length-pos : (l : Bytes) → l ≢ [] → 0 < length l
length-pos [] h = absurd (h refl)
length-pos (c ∷ l) h = omega arith

-- `body ++ rest` cut at the length of another body.
same_cut : (a b x y : Bytes) → length a ≡ length b → a ++ x ≡ b ++ y → (a ≡ b) × (x ≡ y)
same_cut a b x y l e = (
  sym (take-append-length a x)
      ∙ ap (take (length a)) e
      ∙ ap (λ (n : ℕ). take n (b ++ y)) l
      ∙ take-append-length b y,
  sym (drop-append-length a x)
      ∙ ap (drop (length a)) e
      ∙ ap (λ (n : ℕ). drop n (b ++ y)) l
      ∙ drop-append-length b y,
)

-- A body that is all behind the buffer is read whole.
pub body_arrives-whole :
    (r : Reader) (u : Upload) (uploads : List Upload) (body rest arrived : Bytes) (c : Connection)
    → c.session.uploads ≡ u ∷ uploads
    → c.input.buffer ≡ []
    → c.input.incoming ≡ body ++ rest
    → length body ≡ u.size
    → (r.read_exactly u.size c.input.incoming).0 ≡ some arrived
    → (i : Input) × (step_connection (body_arrives r) c
        ≡ ok (record {
          session = finish_put u.path (some body) (record c.session { uploads = uploads });
          input = i;
        }))
      × (unread i ≡ rest)
body_arrives-whole r u uploads body rest arrived c p b i l a =
    let (size, cut) = r.read_exactly-body u.size c.input.incoming arrived a in
    let behind = (r.read_exactly u.size c.input.incoming).1 in
    let (same, left) = same_cut arrived body behind rest (size ∙ sym l) (sym cut ∙ i) in
    let input = record c.input { incoming = behind } in
    let waiting = record c.session { uploads = uploads } in
    (
      input,
      receive_body-step r u uploads c p
          ∙ ap (λ o. ok (record { session = finish_put u.path o waiting; input = input }))
              (a ∙ ap some same),
      ap (λ t. t ++ behind) b ∙ left,
    )

-- When the body of the oldest pending upload is all that is left in the stream, and the session
-- has read some bytes of it ahead, then, whatever the reads do, the arrival of the body ends
-- normally with the response 500 and one read started, and nothing is stored.
pub read_ahead-lost :
    (r : Reader) (u : Upload) (uploads : List Upload) (c : Connection)
    → c.session.uploads ≡ u ∷ uploads
    → c.input.buffer ≢ []
    → length (unread c.input) ≡ u.size
    → (i : Input) × (step_connection (body_arrives r) c
        ≡ ok (record {
          session =
              receive_message (
                respond (of_status internal_server_error) (record c.session { uploads = uploads }));
          input = i;
        }))
unfolding finish_put
read_ahead-lost r u uploads c p b l =
    let input = record c.input { incoming = (r.read_exactly u.size c.input.incoming).1 } in
    let waiting = record c.session { uploads = uploads } in
    elim (Option-cases (r.read_exactly u.size c.input.incoming).0) [
      | inl failed ↦ (
        input,
        receive_body-step r u uploads c p
            ∙ ap (λ o. ok (record { session = finish_put u.path o waiting; input = input })) failed,
      )
      | inr (body, a) ↦
          let (size, cut) = r.read_exactly-body u.size c.input.incoming body a in
          absurd (
            omega (
              arith,
              size,
              l,
              length-pos c.input.buffer b,
              length-append c.input.buffer c.input.incoming,
              ap length cut,
              length-append body (r.read_exactly u.size c.input.incoming).1,
            ))
    ]
