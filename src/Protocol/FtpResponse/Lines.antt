-- ===== src/Protocol/FtpResponse/Lines.antt =====
-- The reply line as a client reads it.
use in_memory_object_storage.Common.{
  ℕ, ◌≡◌, ◌∙◌, refl, sym, ap, drop-drop, ◌∷◌, ◌++◌, append_assoc, drop,
}
use in_memory_object_storage.Common.Text.{Bytes, codes}
use in_memory_object_storage.Common.Decimal.{
  to_string, is_digit, read_digits, read_digits-to_string, read_digits-stop,
}
use in_memory_object_storage.Protocol.FtpResponse.{
  FtpReplyCode, command_ok, code_number, with_text, serialize,
}

-- Every reply code has three digits.
number_drop :
    (code : FtpReplyCode) (rest : Bytes) → drop 3 (to_string (code_number code) ++ rest) ≡ rest
unfolding code_number to_string
number_drop command_ok rest = refl
number_drop _ rest = refl

space_stops : (n : ℕ) (s : Bytes) → read_digits n (b' ' ∷ s) ≡ n
unfolding is_digit
space_stops n s = read_digits-stop n b' ' s refl

serialize-cons :
    (code : FtpReplyCode) (text : Bytes)
    → serialize (with_text code text)
      ≡ to_string (code_number code) ++ (codes " " ++ (text ++ codes "\r\n"))
unfolding serialize
serialize-cons code text = simp append_assoc

-- The digits in front of a serialized FTP reply spell its code, and behind the first four bytes
-- stand its text and CRLF, for every code and text.
pub serialize-fields :
    (code : FtpReplyCode) (text : Bytes)
    → (read_digits 0 (serialize (with_text code text)) ≡ code_number code)
      × (drop 4 (serialize (with_text code text)) ≡ text ++ codes "\r\n")
serialize-fields code text =
    let rest : Bytes = codes " " ++ (text ++ codes "\r\n") in
    let number : Bytes = to_string (code_number code) in
    rw serialize-cons (
      read_digits-to_string (code_number code) rest ∙ space_stops (code_number code) _,
      sym (drop-drop 3 1 (number ++ rest)) ∙ ap (drop 1) {y = rest} (number_drop code rest),
    )
