-- ===== src/Protocol/HttpRequest/Atoi/RoundTrip.antt =====
-- std::atoi of a printed number.
use in_memory_object_storage.Common.{ℕ, ◌+◌, ◌<◌, ◌^◌, ◌≡◌, ◌∙◌, sym, ap, ◌∷◌, ◌++◌, arith, ok}
use in_memory_object_storage.Common.Text.{Bytes}
use in_memory_object_storage.Common.Decimal.{
  to_string, to_string-head, read_digits, read_digits-to_string,
}
use in_memory_object_storage.Protocol.HttpRequest.Atoi.{pos, atoi, unsigned}

atoi-digit :
    (d : ℕ) (s : Bytes) → d < 10 → atoi ((b'0' + d) ∷ s) ≡ unsigned (read_digits 0 ((b'0' + d) ∷ s))
unfolding atoi
atoi-digit d s h = ground arith

unsigned-fits : (n : ℕ) → n < 2 ^ 31 → unsigned n ≡ ok (pos n)
unfolding unsigned
unsigned-fits n h = ground arith

-- Behind the number stands what does not continue it.
pub atoi-to_string :
    (n : ℕ) (rest : Bytes)
    → n < 2 ^ 31
    → read_digits n rest ≡ n
    → atoi (to_string n ++ rest) ≡ ok (pos n)
atoi-to_string n rest h stop =
    let (d, s, digit, e) = to_string-head n in
    ap (λ t. atoi (t ++ rest)) e
    ∙ atoi-digit d (s ++ rest) digit
    ∙ ap (λ t. unsigned (read_digits 0 (t ++ rest))) (sym e)
    ∙ ap unsigned (read_digits-to_string n rest ∙ stop)
    ∙ unsigned-fits n h
