-- ===== src/Utils/Case.antt =====
-- `toUpperCase` and `toLowerCase`: std::transform by the C library's toupper and tolower, which
-- change the ASCII letters only (the "C" locale, which the program never leaves). They take an int
-- that is an unsigned char or EOF. `char` is signed, so a byte from 128 on is passed as a negative
-- number, which is undefined, but for 255, which is EOF.
use in_memory_object_storage.Common.{
  ℕ, ◌+◌, ◌-◌, ◌<◌, ◌≡◌, Bool, false, ◌&&◌, ◌||◌, [], ◌∷◌, map, leb, if◌then◌else◌, arith, refl,
  All, Outcome, ok, undefined,
}
use in_memory_object_storage.Common.Text.{Bytes}

is_lower : ℕ → Bool
is_lower c = leb b'a' c && leb c b'z'

is_upper : ℕ → Bool
is_upper c = leb b'A' c && leb c b'Z'

unfoldable pub to_upper : ℕ → ℕ
unfolding is_lower
to_upper c = if is_lower c then c - 32 else c

unfoldable pub to_lower : ℕ → ℕ
unfolding is_upper
to_lower c = if is_upper c then c + 32 else c

-- A negative `char` other than EOF.
unfoldable pub is_negative : ℕ → Bool
is_negative c = leb 128 c && leb c 254

unfoldable pub some_negative : Bytes → Bool
unfolding is_negative
some_negative [] = false
some_negative (c ∷ text) = is_negative c || some_negative text

unfoldable pub to_upper_case : Bytes → Outcome Bytes
unfolding to_upper some_negative
to_upper_case text = if some_negative text then undefined else ok (map to_upper text)

unfoldable pub to_lower_case : Bytes → Outcome Bytes
unfolding to_lower some_negative
to_lower_case text = if some_negative text then undefined else ok (map to_lower text)

abbrev pub IsAscii : Bytes → Type 0
IsAscii text = All (λ c. c < 128) text

some_negative-IsAscii : (text : Bytes) → IsAscii text → some_negative text ≡ false
unfolding some_negative
some_negative-IsAscii [] h = refl
some_negative-IsAscii (c ∷ text) h = ground (arith, h.0, some_negative-IsAscii text h.1)

pub to_upper_case-IsAscii :
    (text : Bytes) → IsAscii text → to_upper_case text ≡ ok (map to_upper text)
unfolding to_upper_case
to_upper_case-IsAscii text h = rw (some_negative-IsAscii text h) refl

pub to_lower_case-IsAscii :
    (text : Bytes) → IsAscii text → to_lower_case text ≡ ok (map to_lower text)
unfolding to_lower_case
to_lower_case-IsAscii text h = rw (some_negative-IsAscii text h) refl
