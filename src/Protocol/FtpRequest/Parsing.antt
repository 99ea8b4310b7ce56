-- ===== src/Protocol/FtpRequest/Parsing.antt =====
-- What the FTP parser makes of a request.
use in_memory_object_storage.Common.{
  ℕ, false, ltb, ◌-◌, ◌≡◌, ◌≢◌, ap, List, [], ◌∷◌, ◌++◌, arith, length, length-append,
  take-append-length, All, ok, ◌>>=◌,
}
use in_memory_object_storage.Common.Text.{Bytes, codes, Lacks}
use in_memory_object_storage.Utils.Split.{split}
use in_memory_object_storage.Utils.Split.Tokens.{join, split-nil}
use in_memory_object_storage.Utils.Split.Lacking.{split-join-Lacks}
use in_memory_object_storage.Protocol.FtpRequest.{
  with_command, remove_suffix, lookup_command, parse,
}

remove_suffix-append : (s e : Bytes) → remove_suffix (length e) (s ++ e) ≡ ok s
unfolding remove_suffix
remove_suffix-append s e =
    let size = length-append s e in
    let cut : length (s ++ e) - length e ≡ length s = omega (arith, size) in
    let long : ltb (length (s ++ e)) (length e) ≡ false = ground (arith, size) in
    rw (long, cut) (ap ok (take-append-length s e))

pub parse-cons :
    (c : ℕ) (s view : Bytes) (tokens : List Bytes) (name : Bytes)
    → remove_suffix 2 (c ∷ s) ≡ ok view
    → split view (codes " ") ≡ ok (name ∷ tokens)
    → parse (c ∷ s) ≡ (lookup_command name >>= λ o. ok (with_command o (name ∷ tokens)))
unfolding parse
parse-cons c s view tokens name e f = rw (e, f)

parse-append :
    (view : Bytes) (tokens : List Bytes) (name : Bytes)
    → split view (codes " ") ≡ ok (name ∷ tokens)
    → parse (view ++ codes "\r\n")
      ≡ (lookup_command name >>= λ o. ok (with_command o (name ∷ tokens)))
parse-append [] tokens name f = cc (split-nil (codes " "))
parse-append (c ∷ s) tokens name f =
    parse-cons c (s ++ codes "\r\n") (c ∷ s) tokens name
      (remove_suffix-append (c ∷ s) (codes "\r\n")) f

-- A line of words without spaces, not empty, joined by single spaces and ended by CRLF.
pub parse-line :
    (name : Bytes) (arguments : List Bytes)
    → join (codes " ") (name ∷ arguments) ≢ []
    → All (Lacks b' ') (name ∷ arguments)
    → parse (join (codes " ") (name ∷ arguments) ++ codes "\r\n")
      ≡ (lookup_command name >>= λ o. ok (with_command o (name ∷ arguments)))
parse-line name arguments ne h =
    parse-append (join (codes " ") (name ∷ arguments)) arguments name
      (split-join-Lacks b' ' [] (name ∷ arguments) ne h)
