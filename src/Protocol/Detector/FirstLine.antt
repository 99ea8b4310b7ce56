-- ===== src/Protocol/Detector/FirstLine.antt =====
-- What the detector answers for a packet whose first line is given.
use in_memory_object_storage.Common.{
  ℕ, ◌≡◌, ◌∙◌, ap, [], ◌∷◌, ◌++◌, some, arith, take, take-append-length, ok, ◌+◌, ◌↔◌, inl, inr,
  true, Bool-cases, Option-cases,
}
use in_memory_object_storage.Common.Text.{Bytes, codes, Lacks}
use in_memory_object_storage.Utils.Split.{starts_with, find}
use in_memory_object_storage.Utils.Split.Lacking.{find-Lacks_append, starts_with-append}
use in_memory_object_storage.Utils.Split.Tokens.{find-occurs}
use in_memory_object_storage.Protocol.Detector.{http, detect_protocol, protocol_at}

-- Only the text before the first end of line counts.
detect_protocol-line :
    (line rest : Bytes)
    → Lacks b'\r' line
    → detect_protocol (line ++ (codes "\r\n" ++ rest)) ≡ ok (protocol_at (find (codes "HTTP") line))
unfolding detect_protocol
detect_protocol-line line rest h =
    rw (find-Lacks_append b'\r' (codes "\n") line rest h)
      (ap (λ (t : Bytes). ok (protocol_at (find (codes "HTTP") t))) (take-append-length line _))

find-starts : (d s : Bytes) → starts_with d s ≡ true → find d s ≡ some 0
unfolding find
find-starts d [] h = rw h
find-starts d (c ∷ s) h = rw h

-- A pattern that stands in the text is found.
find-append : (d a b : Bytes) → (i : ℕ) × (find d (a ++ (d ++ b)) ≡ some i)
unfolding find
find-append d [] b = (0, find-starts d (d ++ b) (starts_with-append d b))
find-append d (c ∷ a) b =
    let (i, e) = find-append d a b in
    elim (Bool-cases (starts_with d (c ∷ (a ++ (d ++ b))))) [
      | inl h ↦ (0, rw h)
      | inr h ↦ (i + 1, rw (h, e))
    ]

-- A packet whose first line holds no carriage return is detected as HTTP exactly when the letters
-- HTTP stand somewhere in that line, whatever follows it.
pub detect_protocol-http_iff :
    (line rest : Bytes)
    → Lacks b'\r' line
    → (detect_protocol (line ++ (codes "\r\n" ++ rest)) ≡ ok http)
      ↔ ((a : Bytes) × (b : Bytes) × (line ≡ a ++ (codes "HTTP" ++ b)))
detect_protocol-http_iff line rest h = (only, holds)
  where
    only :
        detect_protocol (line ++ (codes "\r\n" ++ rest)) ≡ ok http
        → (a : Bytes) × (b : Bytes) × (line ≡ a ++ (codes "HTTP" ++ b))
    only e = elim (Option-cases (find (codes "HTTP") line)) [
      | inl n ↦ absurd (ground (arith, n, e, detect_protocol-line line rest h))
      | inr (i, f) ↦ (take i line, _, find-occurs (codes "HTTP") line i f)
    ]

    holds :
        (a : Bytes) × (b : Bytes) × (line ≡ a ++ (codes "HTTP" ++ b))
        → detect_protocol (line ++ (codes "\r\n" ++ rest)) ≡ ok http
    holds (a, b, e) =
        let (i, f) = find-append (codes "HTTP") a b in
        detect_protocol-line line rest h
        ∙ ap (λ (t : Bytes). ok (protocol_at (find (codes "HTTP") t))) e
        ∙ ap (λ o. ok (protocol_at o)) f
