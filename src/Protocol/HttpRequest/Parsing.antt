-- ===== src/Protocol/HttpRequest/Parsing.antt =====
-- The parser on header fields that are well formed.
pub mod Requests
pub mod Tests
use in_memory_object_storage.Common.{
  ℕ, zero, suc, ◌+◌, ◌≤◌, ◌<◌, ◌^◌, ◌≡◌, ◌≢◌, ◌⊎◌, ◌∙◌, refl, sym, ap, subst, inl, inr, Bool, true,
  false, List, [], ◌∷◌, ◌++◌, map, All, Option, none, some, Option-cases, Bool-cases, arith, length,
  if◌then◌else◌, Outcome, ok, ◌>>=◌,
}
use in_memory_object_storage.Common.Text.{Bytes, codes, text_eq, Lacks}
use in_memory_object_storage.Common.Dict.{Dict, lookup, assign, lookup-assign}
use in_memory_object_storage.Common.Decimal.{to_string, read_digits, read_digits-stop, is_digit}
use in_memory_object_storage.Utils.Split.{split}
use in_memory_object_storage.Utils.Split.Tokens.{join}
use in_memory_object_storage.Utils.Split.Lacking.{split-join-Lacks}
use in_memory_object_storage.Utils.Case.{to_lower, IsAscii, to_lower_case-IsAscii}
use in_memory_object_storage.Protocol.HttpRequest.Atoi.{pos, atoi}
use in_memory_object_storage.Protocol.HttpRequest.Atoi.RoundTrip.{atoi-to_string}
use in_memory_object_storage.Protocol.HttpRequest.{
  HttpMethod, HttpParser, HeaderValue, method_map, parse_request_line, skip_spaces, behind_value,
  parse_header_field, parse_header_lines, parse_header_fields, content_length, to_size,
  parse_request, parse, field,
}

-- A header field as a client sends it: the value does not begin with a space.
pub record Header : Type 0 where
  pub name : Bytes
  pub first : ℕ
  pub others : Bytes

abbrev pub value : Header → Bytes
value h = h.first ∷ h.others

abbrev pub IsHeader : Header → Type 0
IsHeader h =
    Lacks b':' h.name
    × Lacks b':' (value h)
    × Lacks 13 h.name
    × Lacks 13 (value h)
    × (h.first ≢ b' ')
    × IsAscii h.name

unfoldable pub header_line : Header → Bytes
header_line h = h.name ++ (codes ":" ++ (b' ' ∷ value h))

-- The value of the last field of a name, in any letter case.
unfoldable pub found : List Header → Bytes → Option Bytes
found [] key = none
found (h ∷ headers) key = elim (found headers key) [
  | some text ↦ some text
  | none ↦ if text_eq (map to_lower h.name) key then some (value h) else none
]

pub append-ne : (a b : Bytes) (c : ℕ) → a ++ c ∷ b ≢ []
append-ne [] b c e = cc
append-ne (x ∷ a) b c e = cc

header_line-join : (h : Header) → join (codes ":") (h.name ∷ (b' ' ∷ value h) ∷ []) ≡ header_line h
unfolding join header_line
header_line-join h = refl

header_line-ne : (h : Header) → header_line h ≢ []
unfolding header_line
header_line-ne h = append-ne h.name (b' ' ∷ value h) b':'

split-header_line :
    (h : Header)
    → IsHeader h
    → split (header_line h) (codes ":") ≡ ok (h.name ∷ (b' ' ∷ value h) ∷ [])
split-header_line h (n, v, r, s, k, a) =
    ap (λ t. split t (codes ":")) (sym (header_line-join h))
    ∙ split-join-Lacks b':' [] (h.name ∷ (b' ' ∷ value h) ∷ [])
        (subst (λ t. t ≢ []) (sym (header_line-join h)) (header_line-ne h))
        (n, ((omega arith, v), tt))

parse_header_field-line :
    (h : Header) (lines : List Bytes)
    → IsHeader h
    → parse_header_field (header_line h) lines
      ≡ ok (
        map to_lower h.name,
        record { text = value h; behind = codes "\r\n" ++ join (codes "\r\n") lines },
      )
unfolding parse_header_field skip_spaces behind_value
parse_header_field-line h lines (n, v, r, s, k, a) =
    rw (split-header_line h (n, v, r, s, k, a), to_lower_case-IsAscii h.name a) (ground (arith, k))

parse_header_lines-cons :
    (line : Bytes) (rest : List Bytes) (fields : Dict HeaderValue)
    → 2 ≤ length rest
    → parse_header_lines (line ∷ rest) fields
      ≡ (parse_header_field line rest >>= λ p. parse_header_lines rest (assign p.0 p.1 fields))
unfolding parse_header_lines
parse_header_lines-cons line [] fields h = absurd (omega arith)
parse_header_lines-cons line (a ∷ []) fields h = absurd (omega arith)
parse_header_lines-cons line (a ∷ b ∷ rest) fields h = refl

-- How a field is found: as it was, or with a text, behind which the line ends.
unfoldable pub Matches : Option Bytes → Option HeaderValue → Option HeaderValue → Type 0
Matches none old new = new ≡ old
Matches (some text) old new =
    (rest : Bytes) × (new ≡ some (record { text = text; behind = codes "\r\n" ++ rest }))

Matches-cons :
    (later : Option Bytes) (same : Bool) (text rest : Bytes) (old new : Option HeaderValue)
    → Matches later
        (if same then some (record { text = text; behind = codes "\r\n" ++ rest }) else old)
        new
    → Matches (elim later [ some t ↦ some t | none ↦ if same then some text else none ]) old new
unfolding Matches
Matches-cons none true text rest old new h = (rest, h)
Matches-cons none false text rest old new h = h
Matches-cons (some t) same text rest old new h = h

unfoldable pub header_lines : List Header → List Bytes
header_lines headers = map header_line headers ++ [] ∷ [] ∷ []

pub two-lines : (headers : List Header) → 2 ≤ length (header_lines headers)
unfolding header_lines
two-lines [] = omega arith
two-lines (h ∷ headers) = omega (arith, two-lines headers)

pub parse_header_lines-Matches :
    (headers : List Header) (fields : Dict HeaderValue)
    → All IsHeader headers
    → (fields' : Dict HeaderValue) × (parse_header_lines (header_lines headers) fields ≡ ok fields')
      × ((key : Bytes) → Matches (found headers key) (lookup key fields) (lookup key fields'))
unfolding found Matches header_lines parse_header_lines
parse_header_lines-Matches [] fields w = (fields, refl, λ key. refl)
parse_header_lines-Matches (h ∷ headers) fields w =
    let rest = header_lines headers in
    let v : HeaderValue = record {
      text = value h;
      behind = codes "\r\n" ++ join (codes "\r\n") rest;
    } in
    let (fields', e, m) =
      parse_header_lines-Matches headers (assign (map to_lower h.name) v fields) w.1 in
    (
      fields',
      parse_header_lines-cons (header_line h) rest fields (two-lines headers)
          ∙ ap (λ o. o >>= λ p. parse_header_lines rest (assign p.0 p.1 fields))
              (parse_header_field-line h rest w.0)
          ∙ e,
      λ key.
          Matches-cons (found headers key) (text_eq (map to_lower h.name) key) (value h)
            (join (codes "\r\n") rest) (lookup key fields) (lookup key fields')
            (subst (λ old. Matches (found headers key) old (lookup key fields'))
              (lookup-assign (map to_lower h.name) key v fields) (m key)),
    )
