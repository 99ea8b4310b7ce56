-- ===== src/Utils/Base64/Encoding.antt =====
-- Base64 as RFC 4648 defines it, which `decode_base64` inverts.
use in_memory_object_storage.Common.{
  ℕ, zero, suc, ◌+◌, ◌-◌, ◌*◌, ◌/◌, ◌%◌, ◌^◌, ◌≤◌, ◌<◌, ◌≡◌, refl, ap, ◌∙◌, Bool, true, false, [],
  ◌∷◌, ◌++◌, append-nil, append_assoc, arith, ltb, ◌==◌, ==_iff, if◌then◌else◌, length,
  length-append, Outcome, ok, throws, undefined, diverges,
}
use in_memory_object_storage.Common.Text.{Bytes, IsBytes}
use in_memory_object_storage.Utils.Base64.{sextet, store, triple, store_triple, decode_loop}

unfoldable pub digit : ℕ → ℕ
digit v =
    if ltb v 26
    then b'A' + v
    else if ltb v 52
    then b'a' + (v - 26)
    else if ltb v 62
    then b'0' + (v - 52)
    else if v == 62
    then b'+'
    else b'/'

unfoldable pub encode_base64 : Bytes → Bytes
unfolding digit
encode_base64 [] = []
encode_base64 (a ∷ []) = digit (a / 4) ∷ digit (a % 4 * 16) ∷ b'=' ∷ b'=' ∷ []
encode_base64 (a ∷ b ∷ []) =
    digit (a / 4) ∷ digit (a % 4 * 16 + b / 16) ∷ digit (b % 16 * 4) ∷ b'=' ∷ []
encode_base64 (a ∷ b ∷ c ∷ rest) =
    digit (a / 4)
    ∷ digit (a % 4 * 16 + b / 16)
    ∷ digit (b % 16 * 4 + c / 64)
    ∷ digit (c % 64)
    ∷ encode_base64 rest

-- The table has the value of each digit: by evaluation.
abbrev gives : Outcome ℕ → ℕ → Bool
gives (ok a) v = a == v
gives _ v = false

passes_below : (ℕ → Bool) → ℕ → Bool
passes_below test zero = true
passes_below test (suc bound) = if test bound then passes_below test bound else false

passes_below-lt :
    (test : ℕ → Bool) (bound v : ℕ) → v < bound → passes_below test bound ≡ true → test v ≡ true
unfolding passes_below
passes_below-lt test zero v h e = absurd (omega arith)
passes_below-lt test (suc bound) v h e = ground (arith, passes_below-lt test bound v)

gives_sound : (o : Outcome ℕ) (v : ℕ) → gives o v ≡ true → o ≡ ok v
gives_sound (ok a) v h = ap ok ((==_iff a v).0 h)
gives_sound throws v h = cc
gives_sound undefined v h = cc
gives_sound diverges v h = cc

digit_table : passes_below (λ v. gives (sextet (digit v)) v) 64 ≡ true
unfolding passes_below sextet digit
digit_table = refl

sextet-digit : (v : ℕ) → v < 64 → sextet (digit v) ≡ ok v
sextet-digit v h = gives_sound _ v (passes_below-lt _ 64 v h digit_table)

sextet_pad : sextet b'=' ≡ ok 0
unfolding sextet
sextet_pad = refl

pub digit_not_pad : (v : ℕ) → v < 64 → (digit v == b'=') ≡ false
unfolding digit
digit_not_pad v h = ground arith

-- A round puts three bytes together again.
module _ (a b c : ℕ) (ha : a < 256) (hb : b < 256) (hc : c < 256) where
  triple_bytes :
      let t = triple (a / 4) (a % 4 * 16 + b / 16) (b % 16 * 4 + c / 64) (c % 64) in
      (t / 2 ^ 16 % 256 ≡ a) × (t / 2 ^ 8 % 256 ≡ b) × (t % 256 ≡ c)
  unfolding triple
  triple_bytes = omega arith

  sextets_small :
      (a / 4 < 64) × (a % 4 * 16 + b / 16 < 64) × (b % 16 * 4 + c / 64 < 64) × (c % 64 < 64)
  sextets_small = omega arith

store_room : (n v : ℕ) (out : Bytes) → length out < n → store n v out ≡ out ++ v ∷ []
unfolding store
store_room n v out h = ground arith

store_full : (n v : ℕ) (out : Bytes) → n ≤ length out → store n v out ≡ out
unfolding store
store_full n v out h = ground arith

-- What a round writes: as many of its three bytes as there is room for.
module _ (a b c n : ℕ) (out : Bytes) (ha : a < 256) (hb : b < 256) (hc : c < 256) where
  abbrev round_of : Bytes
  round_of =
      store_triple n (triple (a / 4) (a % 4 * 16 + b / 16) (b % 16 * 4 + c / 64) (c % 64)) out

  stores : round_of ≡ store n c (store n b (store n a out))
  unfolding store_triple
  stores = let (x, y, z) = triple_bytes a b c ha hb hc in rw (x, y, z)

  length-one : length (out ++ a ∷ []) ≡ length out + 1
  length-one = length-append out (a ∷ [])

  length-two : length (out ++ a ∷ [] ++ b ∷ []) ≡ length out + 2
  length-two = omega (arith, length-one, length-append (out ++ a ∷ []) (b ∷ []))

  round_three : length out + 3 ≤ n → round_of ≡ out ++ a ∷ b ∷ c ∷ []
  round_three h =
      stores
      ∙ ap (λ o. store n c (store n b o)) (store_room n a out (omega arith))
      ∙ ap (store n c) (store_room n b _ (omega (arith, length-one)))
      ∙ store_room n c _ (omega (arith, length-two))
      ∙ simp append_assoc

  round_two : n ≡ length out + 2 → round_of ≡ out ++ a ∷ b ∷ []
  round_two h =
      stores
      ∙ ap (λ o. store n c (store n b o)) (store_room n a out (omega arith))
      ∙ ap (store n c) (store_room n b _ (omega (arith, length-one)))
      ∙ store_full n c _ (omega (arith, length-two))
      ∙ simp append_assoc

  round_one : n ≡ length out + 1 → round_of ≡ out ++ a ∷ []
  round_one h =
      stores
      ∙ ap (λ o. store n c (store n b o)) (store_room n a out (omega arith))
      ∙ ap (store n c) (store_full n b _ (omega (arith, length-one)))
      ∙ store_full n c _ (omega (arith, length-one))

-- A round of the loop over four characters that the table knows.
decode_round :
    (n p q r s a b c d : ℕ) (rest out : Bytes)
    → sextet p ≡ ok a
    → sextet q ≡ ok b
    → sextet r ≡ ok c
    → sextet s ≡ ok d
    → decode_loop n (p ∷ q ∷ r ∷ s ∷ rest) out
      ≡ decode_loop n rest (store_triple n (triple a b c d) out)
unfolding decode_loop
decode_round n p q r s a b c d rest out hp hq hr hs = rw (hp, hq, hr, hs)

-- The loop writes back what was encoded.
pub decode_loop-encode :
    (n : ℕ) (bs out : Bytes)
    → IsBytes bs
    → n ≡ length out + length bs
    → decode_loop n (encode_base64 bs) out ≡ ok (out ++ bs)
unfolding encode_base64
decode_loop-encode n [] out h e = unfold decode_loop in rw append-nil
decode_loop-encode n (a ∷ []) out h e =
    decode_round n _ _ b'=' b'=' (a / 4) (a % 4 * 16) 0 0 [] out (sextet-digit _ (omega arith))
      (sextet-digit _ (omega arith)) sextet_pad sextet_pad
    ∙ ap (λ (q : ℕ). decode_loop n [] (store_triple n (triple (a / 4) q 0 0) out))
        {y = a % 4 * 16 + 0 / 16} (omega arith)
    ∙ unfold decode_loop in ap ok (round_one a 0 0 n out h.0 (omega arith) (omega arith) e)
decode_loop-encode n (a ∷ b ∷ []) out h e =
    decode_round n _ _ _ b'=' (a / 4) (a % 4 * 16 + b / 16) (b % 16 * 4) 0 [] out
      (sextet-digit _ (omega arith)) (sextet-digit _ (omega arith)) (sextet-digit _ (omega arith))
      sextet_pad
    ∙ ap
        (λ (r : ℕ).
          decode_loop n [] (store_triple n (triple (a / 4) (a % 4 * 16 + b / 16) r 0) out))
        {y = b % 16 * 4 + 0 / 64} (omega arith)
    ∙ unfold decode_loop in ap ok (round_two a b 0 n out h.0 h.1.0 (omega arith) e)
decode_loop-encode n (a ∷ b ∷ c ∷ rest) out h e =
    decode_round n _ _ _ _ (a / 4) (a % 4 * 16 + b / 16) (b % 16 * 4 + c / 64) (c % 64)
      (encode_base64 rest) out (sextet-digit _ (omega arith)) (sextet-digit _ (omega arith))
      (sextet-digit _ (omega arith)) (sextet-digit _ (omega arith))
    ∙ ap (decode_loop n (encode_base64 rest))
        (round_three a b c n out h.0 h.1.0 h.1.1.0 (omega arith))
    ∙ decode_loop-encode n rest (out ++ a ∷ b ∷ c ∷ []) h.1.1.1
        (omega (arith, length-append out (a ∷ b ∷ c ∷ [])))
    ∙ ap ok (append_assoc out (a ∷ b ∷ c ∷ []) rest)
