-- ===== src/Utils/Split/Growing.antt =====
-- `find` on a text that grows.
use in_memory_object_storage.Common.{
  ℕ, zero, suc, ◌≤◌, ◌≡◌, ◌∙◌, refl, ap, true, [], ◌∷◌, ◌++◌, some, arith, length,
}
use in_memory_object_storage.Common.Text.{Bytes}
use in_memory_object_storage.Utils.Split.{starts_with, find}
use in_memory_object_storage.Utils.Split.Tokens.{find-le, find-zero, find-suc, find-nil}

starts_with-append_le :
    (p s t : Bytes) → length p ≤ length s → starts_with p (s ++ t) ≡ starts_with p s
unfolding starts_with
starts_with-append_le [] s t h = refl
starts_with-append_le (a ∷ p) [] t h = absurd (omega arith)
starts_with-append_le (a ∷ p) (b ∷ s) t h = ground (arith, starts_with-append_le p s t)

find-zero_of_starts : (p s : Bytes) → starts_with p s ≡ true → find p s ≡ some 0
unfolding find
find-zero_of_starts p [] h = rw h refl
find-zero_of_starts p (c ∷ s) h = rw h refl

-- What is found stays found when more comes.
pub find-append : (p s t : Bytes) (i : ℕ) → find p s ≡ some i → find p (s ++ t) ≡ some i
unfolding find
find-append p s t zero h =
    find-zero_of_starts p (s ++ t)
      (starts_with-append_le p s t (omega (arith, find-le p s 0 h)) ∙ find-zero p s h)
find-append p [] t (suc j) h = absurd (find-nil p j h)
find-append p (c ∷ s) t (suc j) h =
    let (not_here, there) = find-suc p c s j h in
    let later = find-append p s t j there in
    let still =
      starts_with-append_le p (c ∷ s) t (omega (arith, find-le p (c ∷ s) (suc j) h)) ∙ not_here in
    rw (still, later) (ap some (omega arith))
