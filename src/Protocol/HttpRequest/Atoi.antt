-- ===== src/Protocol/HttpRequest/Atoi.antt =====
-- std::atoi: blanks, a sign, digits. What does not fit an int is undefined.
pub mod RoundTrip
use in_memory_object_storage.Common.{
  ℕ, ◌-◌, ◌^◌, Bool, ◌&&◌, ◌||◌, [], ◌∷◌, ltb, leb, ◌==◌, if◌then◌else◌, Outcome, ok, undefined,
}
use in_memory_object_storage.Common.Text.{Bytes}
use in_memory_object_storage.Common.Decimal.{read_digits}

pub data ℤ : Type 0 where
  pos : ℕ → ℤ
  negsuc : ℕ → ℤ

abbrev int_limit : ℕ
int_limit = 2 ^ 31

is_blank : ℕ → Bool
is_blank c = c == b' ' || (leb 9 c && leb c 13)

unsigned : ℕ → Outcome ℤ
unsigned n = if ltb n int_limit then ok (pos n) else undefined

negated : ℕ → Outcome ℤ
negated n =
    if n == 0 then ok (pos 0) else if leb n int_limit then ok (negsuc (n - 1)) else undefined

unfoldable pub atoi : Bytes → Outcome ℤ
unfolding is_blank unsigned negated
atoi [] = ok (pos 0)
atoi (c ∷ s) =
    let skipped = atoi s in
    if is_blank c
    then skipped
    else if c == b'-'
    then negated (read_digits 0 s)
    else if c == b'+'
    then unsigned (read_digits 0 s)
    else unsigned (read_digits 0 (c ∷ s))
