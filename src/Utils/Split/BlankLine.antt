-- ===== src/Utils/Split/BlankLine.antt =====
-- Where a blank line is found: the end of the head of a request or a response.
use in_memory_object_storage.Common.{
  false, ◌≡◌, ◌≢◌, refl, ap, ◌∙◌, List, [], ◌∷◌, ◌++◌, append_assoc, some, arith, length,
  length-append, All,
}
use in_memory_object_storage.Common.Text.{Bytes, codes, Lacks}
use in_memory_object_storage.Utils.Split.{starts_with, shift, find}
use in_memory_object_storage.Utils.Split.Tokens.{join}

abbrev crlf : Bytes
crlf = codes "\r\n"

-- A line that is not empty and holds no carriage return.
abbrev pub IsLine : Bytes → Type 0
IsLine line = (line ≢ []) × Lacks b'\r' line

abbrev pub blank : Bytes
blank = codes "\r\n\r\n"

find-skip :
    (line s : Bytes)
    → Lacks b'\r' line
    → find blank (line ++ s) ≡ shift (length line) (find blank s)
unfolding find starts_with
find-skip [] s h = ground arith
find-skip (c ∷ line) s h = ground (arith, find-skip line s h.1)

-- One line end alone is no blank line.
find-crlf :
    (s : Bytes)
    → starts_with (codes "\r") s ≡ false
    → find blank (crlf ++ s) ≡ shift 2 (find blank s)
unfolding find starts_with
find-crlf [] h = refl
find-crlf (c ∷ s) h = ground arith

find-here : (body : Bytes) → find blank (blank ++ body) ≡ some 0
unfolding find starts_with
find-here body = refl

starts_with-lines :
    (line : Bytes) (lines : List Bytes) (s : Bytes)
    → IsLine line
    → starts_with (codes "\r") (join crlf (line ∷ lines) ++ s) ≡ false
unfolding join starts_with
starts_with-lines [] lines s h = absurd (h.0 refl)
starts_with-lines (c ∷ line) [] s h = ground arith
starts_with-lines (c ∷ line) (u ∷ lines) s h = ground arith

-- Before the blank line no two line ends stand together.
pub find-blank :
    (line : Bytes) (lines : List Bytes) (body : Bytes)
    → All IsLine (line ∷ lines)
    → find blank (join crlf (line ∷ lines) ++ (blank ++ body))
      ≡ some (length (join crlf (line ∷ lines)))
unfolding join
find-blank line [] body h =
    find-skip line (blank ++ body) h.0.1
    ∙ ap (shift (length line)) (find-here body)
    ∙ ap some (omega arith)
find-blank line (u ∷ lines) body h =
    let tail : Bytes = join crlf (u ∷ lines) in
    ap (find blank) (
      append_assoc line (crlf ++ tail) (blank ++ body)
      ∙ ap (◌++◌ line) (append_assoc crlf tail (blank ++ body)))
    ∙ find-skip line (crlf ++ (tail ++ (blank ++ body))) h.0.1
    ∙ ap (shift (length line)) (
        find-crlf (tail ++ (blank ++ body)) (starts_with-lines u lines (blank ++ body) h.1.0)
        ∙ ap (shift 2) (find-blank u lines body h.1))
    ∙ ap some (omega (arith, length-append line (crlf ++ tail)))
