-- ===== src/Utils/Split.antt =====
-- `utils::split`, and what it uses of std::string_view.
pub mod Tokens
pub mod Lacking
pub mod Growing
pub mod BlankLine
use in_memory_object_storage.Common.{
  ℕ, zero, suc, ◌+◌, ◌-◌, Bool, true, false, ◌&&◌, List, [], ◌∷◌, ◌++◌, Option, none, some, ltb,
  ◌==◌, if◌then◌else◌, length, take, drop, Outcome, ok, throws, diverges, ◌>>=◌,
}
use in_memory_object_storage.Common.Text.{Bytes}

-- Whether the text begins with the pattern.
unfoldable pub starts_with : Bytes → Bytes → Bool
starts_with [] s = true
starts_with (p ∷ ps) [] = false
starts_with (p ∷ ps) (c ∷ s) = p == c && starts_with ps s

abbrev pub shift : ℕ → Option ℕ → Option ℕ
shift n none = none
shift n (some i) = some (i + n)

-- text.find(pattern): the first position at which the pattern stands; `none` is npos.
unfoldable pub find : Bytes → Bytes → Option ℕ
unfolding starts_with
find pattern [] = if starts_with pattern [] then some 0 else none
find pattern (c ∷ s) = if starts_with pattern (c ∷ s) then some 0 else shift 1 (find pattern s)

-- text.find(pattern, start)
unfoldable pub find_from : Bytes → Bytes → ℕ → Option ℕ
unfolding find
find_from text pattern start =
    if ltb (length text) start then none else shift start (find pattern (drop start text))

-- text.substr(start, count); a count of `none` is npos, which takes all that is left.
unfoldable pub substr : Bytes → ℕ → Option ℕ → Outcome Bytes
substr text start none = if ltb (length text) start then throws else ok (drop start text)
substr text start (some count) =
    if ltb (length text) start then throws else ok (take count (drop start text))

-- The loop of `split`, over its variables `start`, `end` and `tokens`.
split_loop : ℕ → Bytes → Bytes → ℕ → Option ℕ → List Bytes → Outcome (List Bytes)
split_loop zero text delimeter start end tokens = diverges
split_loop (suc fuel) text delimeter start none tokens = do
  token ← substr text start none
  ok (tokens ++ token ∷ [])
split_loop (suc fuel) text delimeter start (some end) tokens = do
  token ← substr text start (some (end - start))
  let next = end + length delimeter
  split_loop fuel text delimeter next (find_from text delimeter next) (tokens ++ token ∷ [])

-- The fuel is enough for every delimiter that is not empty (`split-Splits`); with an empty one
-- the code does not end.
unfoldable pub split : Bytes → Bytes → Outcome (List Bytes)
unfolding split_loop find_from substr
split [] delimeter = ok []
split (c ∷ s) delimeter =
    split_loop (suc (length (c ∷ s))) (c ∷ s) delimeter 0 (find_from (c ∷ s) delimeter 0) []
