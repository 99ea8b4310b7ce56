-- ===== src/Utils/Base64.antt =====
-- `decode_base64`. `char` is signed, as on the platforms of README.md: a byte from 128 on is a
-- negative index into the table.
pub mod Encoding
pub mod RoundTrip
use in_memory_object_storage.Common.{
  ℕ, ◌+◌, ◌-◌, ◌*◌, ◌/◌, ◌%◌, ◌^◌, List, [], ◌∷◌, ◌++◌, Option, none, some, ltb, ◌==◌,
  if◌then◌else◌, length, get_elem?, replicate, Outcome, ok, undefined, ◌>>=◌, or_undefined,
}
use in_memory_object_storage.Common.Text.{Bytes}

abbrev decoding_table : List ℕ
decoding_table =
    64 ∷ 64 ∷ 64 ∷ 64 ∷ 64 ∷ 64 ∷ 64 ∷ 64 ∷ 64 ∷ 64 ∷ 64 ∷ 64 ∷ 64 ∷ 64 ∷ 64 ∷ 64 ∷ 64 ∷ 64 ∷ 64
    ∷ 64 ∷ 64 ∷ 64 ∷ 64 ∷ 64 ∷ 64 ∷ 64 ∷ 64 ∷ 64 ∷ 64 ∷ 64 ∷ 64 ∷ 64 ∷ 64 ∷ 64 ∷ 64 ∷ 64 ∷ 64 ∷ 64
    ∷ 64 ∷ 64 ∷ 64 ∷ 64 ∷ 64 ∷ 62 ∷ 64 ∷ 64 ∷ 64 ∷ 63 ∷ 52 ∷ 53 ∷ 54 ∷ 55 ∷ 56 ∷ 57 ∷ 58 ∷ 59 ∷ 60
    ∷ 61 ∷ 64 ∷ 64 ∷ 64 ∷ 64 ∷ 64 ∷ 64 ∷ 64 ∷ 0 ∷ 1 ∷ 2 ∷ 3 ∷ 4 ∷ 5 ∷ 6 ∷ 7 ∷ 8 ∷ 9 ∷ 10 ∷ 11 ∷ 12
    ∷ 13 ∷ 14 ∷ 15 ∷ 16 ∷ 17 ∷ 18 ∷ 19 ∷ 20 ∷ 21 ∷ 22 ∷ 23 ∷ 24 ∷ 25 ∷ 64 ∷ 64 ∷ 64 ∷ 64 ∷ 64 ∷ 64
    ∷ 26 ∷ 27 ∷ 28 ∷ 29 ∷ 30 ∷ 31 ∷ 32 ∷ 33 ∷ 34 ∷ 35 ∷ 36 ∷ 37 ∷ 38 ∷ 39 ∷ 40 ∷ 41 ∷ 42 ∷ 43 ∷ 44
    ∷ 45 ∷ 46 ∷ 47 ∷ 48 ∷ 49 ∷ 50 ∷ 51 ∷ 64 ∷ 64 ∷ 64 ∷ 64 ∷ 64 ∷ 64 ∷ 64 ∷ 64 ∷ 64 ∷ 64 ∷ 64 ∷ 64
    ∷ 64 ∷ 64 ∷ 64 ∷ 64 ∷ 64 ∷ 64 ∷ 64 ∷ 64 ∷ 64 ∷ 64 ∷ 64 ∷ 64 ∷ 64 ∷ 64 ∷ 64 ∷ 64 ∷ 64 ∷ 64 ∷ 64
    ∷ 64 ∷ 64 ∷ 64 ∷ 64 ∷ 64 ∷ 64 ∷ 64 ∷ 64 ∷ 64 ∷ 64 ∷ 64 ∷ 64 ∷ 64 ∷ 64 ∷ 64 ∷ 64 ∷ 64 ∷ 64 ∷ 64
    ∷ 64 ∷ 64 ∷ 64 ∷ 64 ∷ 64 ∷ 64 ∷ 64 ∷ 64 ∷ 64 ∷ 64 ∷ 64 ∷ 64 ∷ 64 ∷ 64 ∷ 64 ∷ 64 ∷ 64 ∷ 64 ∷ 64
    ∷ 64 ∷ 64 ∷ 64 ∷ 64 ∷ 64 ∷ 64 ∷ 64 ∷ 64 ∷ 64 ∷ 64 ∷ 64 ∷ 64 ∷ 64 ∷ 64 ∷ 64 ∷ 64 ∷ 64 ∷ 64 ∷ 64
    ∷ 64 ∷ 64 ∷ 64 ∷ 64 ∷ 64 ∷ 64 ∷ 64 ∷ 64 ∷ 64 ∷ 64 ∷ 64 ∷ 64 ∷ 64 ∷ 64 ∷ 64 ∷ 64 ∷ 64 ∷ 64 ∷ 64
    ∷ 64 ∷ 64 ∷ 64 ∷ 64 ∷ 64 ∷ 64 ∷ 64 ∷ 64 ∷ 64 ∷ 64 ∷ 64 ∷ 64 ∷ 64 ∷ 64 ∷ 64 ∷ 64 ∷ 64 ∷ 64 ∷ 64
    ∷ 64 ∷ 64 ∷ 64 ∷ 64 ∷ 64 ∷ 64 ∷ 64 ∷ []

-- `input[i] == '=' ? 0 : kDecodingTable[input[i]]`
unfoldable pub sextet : ℕ → Outcome ℕ
sextet c =
    if c == b'='
    then ok 0
    else if ltb c 128
    then or_undefined (get_elem? decoding_table c)
    else undefined

-- `if (j < output_length) output[j++] = value`, where `j` is the number of bytes written.
unfoldable pub store : ℕ → ℕ → Bytes → Bytes
store output_length value output =
    if ltb (length output) output_length then output ++ value ∷ [] else output

unfoldable pub triple : ℕ → ℕ → ℕ → ℕ → ℕ
triple a b c d = (a * 2 ^ 18 + b * 2 ^ 12 + c * 2 ^ 6 + d) % 2 ^ 32

-- A round writes three bytes of `t`, as long as there is room.
unfoldable pub store_triple : ℕ → ℕ → Bytes → Bytes
unfolding store
store_triple output_length t output =
    store output_length (t % 256)
      (store output_length (t / 2 ^ 8 % 256) (store output_length (t / 2 ^ 16 % 256) output))

-- The loop. Its input is a multiple of four long, so a rest of one to three bytes never occurs.
unfoldable pub decode_loop : ℕ → Bytes → Bytes → Outcome Bytes
unfolding sextet triple store_triple
decode_loop output_length [] output = ok output
decode_loop output_length (p ∷ q ∷ r ∷ s ∷ rest) output = do
  a ← sextet p
  b ← sextet q
  c ← sextet r
  d ← sextet s
  decode_loop output_length rest (store_triple output_length (triple a b c d) output)
decode_loop output_length _ output = undefined

abbrev padding : ℕ → ℕ
padding c = if c == b'=' then 1 else 0

-- `input[input_length - 1]` of an empty string is past its end.
unfoldable pub output_length_of : Bytes → Outcome ℕ
output_length_of input = do
  last ← or_undefined (get_elem? input (length input - 1))
  before ← or_undefined (get_elem? input (length input - 2))
  ok (length input / 4 * 3 - padding last - padding before)

-- `output.resize` fills with zeros what the loop does not write.
unfoldable pub decode_base64 : Bytes → Outcome (Option Bytes)
unfolding decode_loop output_length_of
decode_base64 input =
    if length input % 4 == 0
    then (do
      output_length ← output_length_of input
      output ← decode_loop output_length input []
      ok (some (output ++ replicate (output_length - length output) 0)))
    else ok none
