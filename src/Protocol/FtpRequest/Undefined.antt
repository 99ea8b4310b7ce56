-- ===== src/Protocol/FtpRequest/Undefined.antt =====
-- When parsing an FTP request is undefined behaviour.
use in_memory_object_storage.Common.{
  ℕ, suc, ◌+◌, ◌-◌, ◌≤◌, ◌<◌, ◌≡◌, ◌⊎◌, ◌↔◌, ◌∙◌, refl, sym, ap, inl, inr, true, List, [], ◌∷◌,
  ◌++◌, append_assoc, append-nil, All, Bool-cases, none, arith, length, length-append, length-take,
  take, drop, take-append-drop, length-drop, ok, undefined, ◌>>=◌,
}
use in_memory_object_storage.Common.Text.{Bytes, codes, Lacks}
use in_memory_object_storage.Utils.Case.{is_negative, some_negative, to_upper_case}
use in_memory_object_storage.Utils.Split.{starts_with, find, split}
use in_memory_object_storage.Utils.Split.Tokens.{join, split-join, join-nil}
use in_memory_object_storage.Protocol.FtpRequest.{
  with_command, remove_suffix, lookup_command, parse,
}
use in_memory_object_storage.Protocol.FtpRequest.Parsing.{parse-cons}

-- A byte that is a negative `char` but not EOF, in front of the first space and of the last two bytes.
abbrev pub HasNegative : Bytes → Type 0
HasNegative request =
    (word : Bytes) × (c : ℕ) × (rest : Bytes) × (request ≡ word ++ c ∷ rest)
    × Lacks b' ' word
    × (128 ≤ c)
    × (c ≤ 254)
    × (2 ≤ length rest)

space-Lacks : (t : Bytes) → find (codes " ") t ≡ none → Lacks b' ' t
unfolding find starts_with
space-Lacks [] h = tt
space-Lacks (c ∷ t) h = (ground (arith, h), space-Lacks t (ground (arith, h)))

-- What stands behind the first token.
tail_of : List Bytes → Bytes
tail_of [] = []
tail_of (u ∷ ts) = b' ' ∷ join (codes " ") (u ∷ ts)

join-tail : (t : Bytes) (ts : List Bytes) → join (codes " ") (t ∷ ts) ≡ t ++ tail_of ts
unfolding join tail_of
join-tail t [] = sym (append-nil t)
join-tail t (u ∷ ts) = refl

first_token :
    (request : Bytes)
    → 3 ≤ length request
    → (t : Bytes) × (ts : List Bytes) × (t ++ tail_of ts ≡ take (length request - 2) request)
      × Lacks b' ' t
      × (parse request ≡ (lookup_command t >>= λ o. ok (with_command o (t ∷ ts))))
unfolding remove_suffix
first_token [] h = absurd (omega arith)
first_token (c ∷ s) h =
    let view = take (length (c ∷ s) - 2) (c ∷ s) in
    let cut : remove_suffix 2 (c ∷ s) ≡ ok view = ground arith in
    let (ts, e, spelled, free) = split-join view (codes " ") (λ z. cc) in
    some_token view ts e spelled free cut (omega (arith, length-take (length (c ∷ s) - 2) (c ∷ s)))
  where
    some_token :
        (view : Bytes) (ts : List Bytes)
        → split view (codes " ") ≡ ok ts
        → join (codes " ") ts ≡ view
        → All (λ t. find (codes " ") t ≡ none) ts
        → remove_suffix 2 (c ∷ s) ≡ ok view
        → 0 < length view
        → (t : Bytes) × (us : List Bytes) × (t ++ tail_of us ≡ view)
          × Lacks b' ' t
          × (parse (c ∷ s) ≡ (lookup_command t >>= λ o. ok (with_command o (t ∷ us))))
    some_token [] [] e spelled free cut long = absurd (omega arith)
    some_token (x ∷ view) [] e spelled free cut long = cc (join-nil (codes " "))
    some_token view (t ∷ ts) e spelled free cut long = (
      t,
      ts,
      sym (join-tail t ts) ∙ spelled,
      space-Lacks t free.0,
      parse-cons c s view ts t cut e,
    )

lookup_command-undefined :
    (t : Bytes) (ts : List Bytes)
    → ((lookup_command t >>= λ o. ok (with_command o (t ∷ ts))) ≡ undefined)
      ↔ (some_negative t ≡ true)
unfolding lookup_command to_upper_case
lookup_command-undefined t ts = elim (Bool-cases (some_negative t)) [
  | inl e ↦ rw e (λ h. refl, λ h. refl)
  | inr e ↦ rw e (λ h. cc, λ h. cc)
]

some_negative-found :
    (t : Bytes)
    → some_negative t ≡ true
    → Lacks b' ' t
    → (word : Bytes) × (c : ℕ) × (rest : Bytes) × (t ≡ word ++ c ∷ rest)
      × Lacks b' ' word
      × (128 ≤ c)
      × (c ≤ 254)
unfolding some_negative is_negative
some_negative-found [] h l = cc
some_negative-found (c ∷ t) h l = elim (Bool-cases (is_negative c)) [
  | inl e ↦ ([], c, t, refl, tt, ground (arith, e), ground (arith, e))
  | inr e ↦
      let (word, d, rest, s, k, m, n) = some_negative-found t (ground (arith, h, e)) l.1 in
      (c ∷ word, d, rest, ap (◌∷◌ c) s, (l.0, k), m, n)
]

some_negative-first :
    (t : Bytes) (ts : List Bytes) (word : Bytes) (c : ℕ) (rest : Bytes)
    → t ++ tail_of ts ≡ word ++ c ∷ rest
    → Lacks b' ' word
    → 128 ≤ c
    → c ≤ 254
    → some_negative t ≡ true
unfolding some_negative tail_of
some_negative-first [] [] [] c rest e l m n = cc
some_negative-first [] [] (w ∷ word) c rest e l m n = cc
some_negative-first [] (u ∷ ts) [] c rest e l m n = ground (arith, e, m)
some_negative-first [] (u ∷ ts) (w ∷ word) c rest e l m n = absurd (l.0 (ground (arith, e)))
some_negative-first (x ∷ t) ts [] c rest e l m n = ground (arith, e, m, n)
some_negative-first (x ∷ t) ts (w ∷ word) c rest e l m n =
    ground (arith, some_negative-first t ts word c rest (ground (arith, e)) l.1 m n)

take-past :
    (word : Bytes) (c : ℕ) (rest : Bytes) (k : ℕ)
    → take (length word + suc k) (word ++ c ∷ rest) ≡ word ++ c ∷ take k rest
take-past [] c rest k =
    let same : 0 + suc k ≡ suc k = omega arith in ap (λ (n : ℕ). take n (c ∷ rest)) same
take-past (w ∷ word) c rest k =
    let same : suc (length word) + suc k ≡ suc (length word + suc k) = omega arith in
    ap (λ (n : ℕ). take n (w ∷ (word ++ c ∷ rest))) same ∙ ap (◌∷◌ w) (take-past word c rest k)

-- The first token of a long request has a negative `char` when there is one in front.
HasNegative-token :
    (request t : Bytes) (ts : List Bytes)
    → t ++ tail_of ts ≡ take (length request - 2) request
    → HasNegative request
    → some_negative t ≡ true
HasNegative-token request t ts view (word, c, rest, e, l, m, n, long) =
    let size : length request - 2 ≡ length word + suc (length rest - 2) =
      omega (arith, ap length e, length-append word (c ∷ rest), long) in
    some_negative-first t ts word c (take (length rest - 2) rest)
      (view
        ∙ ap (λ k. take k request) size
        ∙ ap (take (length word + suc (length rest - 2))) e
        ∙ take-past word c rest (length rest - 2))
      l m n

token-HasNegative :
    (request t : Bytes) (ts : List Bytes)
    → 3 ≤ length request
    → t ++ tail_of ts ≡ take (length request - 2) request
    → Lacks b' ' t
    → some_negative t ≡ true
    → HasNegative request
token-HasNegative request t ts long view l h =
    let (word, c, rest, e, k, m, n) = some_negative-found t h l in
    let end = drop (length request - 2) request in
    let two : length end ≡ 2 = omega (arith, length-drop (length request - 2) request, long) in
    (
      word,
      c,
      rest ++ (tail_of ts ++ end),
      sym (take-append-drop (length request - 2) request)
          ∙ ap (λ v. v ++ end) (sym view)
          ∙ ap (λ v. (v ++ tail_of ts) ++ end) e
          ∙ append_assoc (word ++ c ∷ rest) (tail_of ts) end
          ∙ append_assoc word (c ∷ rest) (tail_of ts ++ end),
      k,
      m,
      n,
      omega (arith, length-append rest (tail_of ts ++ end), length-append (tail_of ts) end, two),
    )

HasNegative-ne : (0 < 0) × (0 < 3) ⊎ HasNegative [] → ⊥
HasNegative-ne (inl h) = omega (arith, h.0)
HasNegative-ne (inr ([], c, rest, e, l, m, n, k)) = cc
HasNegative-ne (inr (w ∷ word, c, rest, e, l, m, n, k)) = cc

-- Parsing an FTP request is undefined behaviour exactly when the request has one or two bytes, or
-- a byte from 128 to 254 stands in front of its first space and of its last two bytes, where it
-- is a negative char that toupper is called with.
pub parse-undefined_iff :
    (request : Bytes)
    → (parse request ≡ undefined)
      ↔ ((0 < length request) × (length request < 3) ⊎ HasNegative request)
unfolding parse remove_suffix split
parse-undefined_iff [] = (λ e. cc, λ h. absurd (HasNegative-ne h))
parse-undefined_iff (c ∷ []) = (λ _. inl (omega arith, omega arith), λ _. refl)
parse-undefined_iff (c ∷ d ∷ []) = (λ _. inl (omega arith, omega arith), λ _. refl)
parse-undefined_iff (c ∷ d ∷ x ∷ s) =
    let request = c ∷ d ∷ x ∷ s in
    let (t, ts, view, l, e) = first_token request (omega arith) in
    let (there, back) = lookup_command-undefined t ts in
    (
      λ u. inr (token-HasNegative request t ts (omega arith) view l (there (sym e ∙ u))),
      λ h. elim h [
        | inl short ↦ absurd (omega arith)
        | inr n ↦ e ∙ back (HasNegative-token request t ts view n)
      ],
    )
