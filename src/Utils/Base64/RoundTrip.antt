-- ===== src/Utils/Base64/RoundTrip.antt =====
-- `decode_base64` inverts the encoding, and what it refuses.
use in_memory_object_storage.Common.{
  ℕ, suc, ◌+◌, ◌-◌, ◌*◌, ◌/◌, ◌%◌, ◌≤◌, ◌≡◌, ◌≢◌, refl, ap, ◌∙◌, [], ◌∷◌, ◌++◌, append-nil, some,
  arith, length, get_elem?, replicate, ok,
}
use in_memory_object_storage.Common.Text.{Bytes, IsBytes}
use in_memory_object_storage.Utils.Base64.{padding, output_length_of, decode_base64}
use in_memory_object_storage.Utils.Base64.Encoding.{
  digit, encode_base64, digit_not_pad, decode_loop-encode,
}

-- The two last characters of an encoding, and what they say of its length.
record Ends (e : Bytes) (n : ℕ) : Type 0 where
  last : ℕ
  before : ℕ
  last-eq : get_elem? e (length e - 1) ≡ some last
  before-eq : get_elem? e (length e - 2) ≡ some before
  padded : padding last + padding before + n ≡ length e / 4 * 3
  whole : length e % 4 ≡ 0
  some_group : 4 ≤ length e

Ends-group :
    (p q r s : ℕ) (e : Bytes) (n : ℕ) → Ends e n → Ends (p ∷ q ∷ r ∷ s ∷ e) (suc (suc (suc n)))
Ends-group p q r s e n h = record {
  last = h.last;
  before = h.before;
  last-eq =
      ap (λ (k : ℕ). get_elem? (p ∷ q ∷ r ∷ s ∷ e) k) {y = suc (suc (suc (suc (length e - 1))))}
        (omega (arith, h.some_group))
      ∙ h.last-eq;
  before-eq =
      ap (λ (k : ℕ). get_elem? (p ∷ q ∷ r ∷ s ∷ e) k) {y = suc (suc (suc (suc (length e - 2))))}
        (omega (arith, h.some_group))
      ∙ h.before-eq;
  padded = omega (arith, h.padded);
  whole = omega (arith, h.whole);
  some_group = omega arith;
}

Ends-encode : (bs : Bytes) → bs ≢ [] → IsBytes bs → Ends (encode_base64 bs) (length bs)
unfolding encode_base64
Ends-encode [] ne h = absurd (ne refl)
Ends-encode (a ∷ []) ne h = record {
  last = b'=';
  before = b'=';
  last-eq = refl;
  before-eq = refl;
  padded = omega arith;
  whole = omega arith;
  some_group = omega arith;
}
Ends-encode (a ∷ b ∷ []) ne h = record {
  last = b'=';
  before = digit (b % 16 * 4);
  last-eq = refl;
  before-eq = refl;
  padded = ground (arith, digit_not_pad (b % 16 * 4));
  whole = omega arith;
  some_group = omega arith;
}
Ends-encode (a ∷ b ∷ c ∷ []) ne h = record {
  last = digit (c % 64);
  before = digit (b % 16 * 4 + c / 64);
  last-eq = refl;
  before-eq = refl;
  padded = ground (arith, digit_not_pad (c % 64), digit_not_pad (b % 16 * 4 + c / 64));
  whole = omega arith;
  some_group = omega arith;
}
Ends-encode (a ∷ b ∷ c ∷ x ∷ rest) ne h =
    Ends-group _ _ _ _ (encode_base64 (x ∷ rest)) (length (x ∷ rest))
      (Ends-encode (x ∷ rest) (λ z. cc) h.1.1.1)

output_length_of-Ends : (e : Bytes) (n : ℕ) → Ends e n → output_length_of e ≡ ok n
unfolding output_length_of
output_length_of-Ends e n h = rw (h.last-eq, h.before-eq) (ap ok (omega (arith, h.padded)))

-- The decoder returns any bytes but none from their encoding by RFC 4648.
pub decode_base64-encode :
    (bs : Bytes) → bs ≢ [] → IsBytes bs → decode_base64 (encode_base64 bs) ≡ ok (some bs)
unfolding decode_base64
decode_base64-encode bs ne h =
    let ends = Ends-encode bs ne h in
    let size = output_length_of-Ends (encode_base64 bs) (length bs) ends in
    let loop = decode_loop-encode (length bs) bs [] h (omega arith) in
    rw (ends.whole, size, loop)
      (ap (λ (t : Bytes). ok (some (bs ++ t))) (no_fill (length bs))
        ∙ ap (λ (t : Bytes). ok (some t)) (append-nil bs))
  where
    no_fill : (n : ℕ) → replicate {A = ℕ} (n - n) 0 ≡ []
    no_fill n = ap (λ (k : ℕ). replicate {A = ℕ} k 0) {y = 0} (omega arith)
