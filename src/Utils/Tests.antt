-- ===== src/Utils/Tests.antt =====
-- Splitting, letter case and Base64 at concrete texts.
use in_memory_object_storage.Common.{◌≡◌, ◌≢◌, List, [], ◌∷◌, none, some, ok, All, arith}
use in_memory_object_storage.Common.Text.{Bytes, codes, IsBytes}
use in_memory_object_storage.Utils.Split.{split, find}
use in_memory_object_storage.Utils.Split.Tokens.{join, split-join}
use in_memory_object_storage.Utils.Base64.{decode_base64}
use in_memory_object_storage.Utils.Base64.Encoding.{encode_base64}
use in_memory_object_storage.Utils.Base64.RoundTrip.{decode_base64-encode}

abbrev two_words : List Bytes
two_words = codes "USER" ∷ codes "ann" ∷ []

split-join_example :
    (ts : List Bytes) × (split (codes "a  b ") (codes " ") ≡ ok ts)
    × (join (codes " ") ts ≡ codes "a  b ")
    × All (λ t. find (codes " ") t ≡ none) ts
split-join_example = split-join (codes "a  b ") (codes " ") (λ z. cc)

join-two_words : join (codes " ") two_words ≢ []
unfolding join
join-two_words z = cc

IsBytes-ann : IsBytes (codes "ann:x")
IsBytes-ann = omega arith

decode_base64-encode_example :
    decode_base64 (encode_base64 (codes "ann:x")) ≡ ok (some (codes "ann:x"))
decode_base64-encode_example = decode_base64-encode (codes "ann:x") (λ z. cc) IsBytes-ann
