-- ===== src/Utils/Split/Lacking.antt =====
-- `split` after a join: tokens that do not hold the delimiter's first byte come back.
use in_memory_object_storage.Common.{
  ℕ, suc, ◌≤◌, ◌≡◌, ◌≢◌, refl, ap, subst, sym, ◌∙◌, true, List, [], ◌∷◌, ◌++◌, none, some, arith,
  length, drop, take-append-length, drop-append-length, All, ok,
}
use in_memory_object_storage.Common.Text.{Bytes, Lacks}
use in_memory_object_storage.Utils.Split.{starts_with, find, split}
use in_memory_object_storage.Utils.Split.Tokens.{Splits, last, cut, join, drop-lt, split-Splits}

Splits-length :
    (d s : Bytes) (ts : List Bytes) → d ≢ [] → Splits d s ts → length ts ≤ suc (length s)
Splits-length d s ts ne (last _ e) = omega arith
Splits-length d s ts ne (cut _ i us e more) =
    omega (arith, drop-lt d s i ne e, Splits-length d _ us ne more)

pub starts_with-append : (p s : Bytes) → starts_with p (p ++ s) ≡ true
unfolding starts_with
starts_with-append [] s = refl
starts_with-append (x ∷ p) s = ground (arith, starts_with-append p s)

module _ (c : ℕ) (d : Bytes) where
  find-Lacks : (t : Bytes) → Lacks c t → find (c ∷ d) t ≡ none
  unfolding find starts_with
  find-Lacks [] h = refl
  find-Lacks (x ∷ t) h = ground (arith, find-Lacks t h.1)

  pub find-Lacks_append :
      (t s : Bytes) → Lacks c t → find (c ∷ d) (t ++ ((c ∷ d) ++ s)) ≡ some (length t)
  unfolding find starts_with
  find-Lacks_append [] s h = ground (arith, starts_with-append d s)
  find-Lacks_append (x ∷ t) s h = ground (arith, find-Lacks_append t s h.1)

  Splits-Lacks :
      (t : Bytes) (ts : List Bytes)
      → All (Lacks c) (t ∷ ts)
      → Splits (c ∷ d) (join (c ∷ d) (t ∷ ts)) (t ∷ ts)
  unfolding join
  Splits-Lacks t [] h = last t (find-Lacks t h.0)
  Splits-Lacks t (u ∷ ts) h =
      subst (λ x. Splits (c ∷ d) (t ++ ((c ∷ d) ++ rest)) (x ∷ u ∷ ts)) (take-append-length t _)
        (cut _ (length t) (u ∷ ts) (find-Lacks_append t rest h.0)
          (subst (λ r. Splits (c ∷ d) r (u ∷ ts)) (sym left) (Splits-Lacks u ts h.1)))
    where
      rest : Bytes
      rest = join (c ∷ d) (u ∷ ts)

      left : drop (length (c ∷ d)) (drop (length t) (t ++ ((c ∷ d) ++ rest))) ≡ rest
      left =
          ap (drop (length (c ∷ d))) (drop-append-length t ((c ∷ d) ++ rest))
          ∙ drop-append-length (c ∷ d) rest

  -- Tokens that do not hold the first byte of the delimiter are what split returns from their
  -- join, when the join is not empty.
  pub split-join-Lacks :
      (ts : List Bytes)
      → join (c ∷ d) ts ≢ []
      → All (Lacks c) ts
      → split (join (c ∷ d) ts) (c ∷ d) ≡ ok ts
  unfolding join
  split-join-Lacks [] ne h = absurd (ne refl)
  split-join-Lacks (t ∷ ts) ne h =
      let cuts = Splits-Lacks t ts h in
      split-Splits _ (c ∷ d) (t ∷ ts) ne (Splits-length (c ∷ d) _ (t ∷ ts) (λ z. cc) cuts) cuts
