-- ===== src/Utils/Split/Tokens.antt =====
-- The tokens of a text: `split` returns them, they spell the text again, and no token holds the
-- delimiter.
use in_memory_object_storage.Common.{
  ℕ, zero, suc, ◌+◌, ◌-◌, ◌≤◌, ◌<◌, ◌≡◌, ◌≢◌, refl, sym, ap, subst, ◌∙◌, inl, inr, true, false,
  List, [], ◌∷◌, ◌++◌, append_assoc, none, some, arith, Option-cases, length, take, drop,
  length-drop, drop-drop, All, ok,
}
use in_memory_object_storage.Common.Text.{Bytes}
use in_memory_object_storage.Utils.Split.{
  starts_with, shift, find, find_from, substr, split_loop, split,
}

-- The text cut at each first occurrence of the delimiter.
pub data Splits (d : Bytes) : Bytes → List Bytes → Type 0 where
  last : (s : Bytes) → find d s ≡ none → Splits d s (s ∷ [])
  cut :
      (s : Bytes) (i : ℕ) (ts : List Bytes)
      → find d s ≡ some i
      → Splits d (drop (length d) (drop i s)) ts
      → Splits d s (take i s ∷ ts)

unfoldable pub join : Bytes → List Bytes → Bytes
join d [] = []
join d (t ∷ []) = t
join d (t ∷ u ∷ ts) = t ++ (d ++ join d (u ∷ ts))

pub starts_with-drop : (d s : Bytes) → starts_with d s ≡ true → s ≡ d ++ drop (length d) s
unfolding starts_with
starts_with-drop [] s h = refl
starts_with-drop (p ∷ ps) [] h = cc
starts_with-drop (p ∷ ps) (c ∷ s) h = ground (arith, starts_with-drop ps s)

starts_with-take : (d s : Bytes) (n : ℕ) → starts_with d (take n s) ≡ true → starts_with d s ≡ true
unfolding starts_with
starts_with-take [] s n h = refl
starts_with-take (p ∷ ps) s zero h = cc
starts_with-take (p ∷ ps) [] (suc n) h = cc
starts_with-take (p ∷ ps) (c ∷ s) (suc n) h = ground (arith, starts_with-take ps s n)

-- How `find` came to its position.
pub find-zero : (d s : Bytes) → find d s ≡ some 0 → starts_with d s ≡ true
unfolding find
find-zero d [] h = ground arith
find-zero d (c ∷ s) h = ground arith

pub find-suc :
    (d : Bytes) (c : ℕ) (s : Bytes) (j : ℕ)
    → find d (c ∷ s) ≡ some (suc j)
    → (starts_with d (c ∷ s) ≡ false) × (find d s ≡ some j)
unfolding find
find-suc d c s j h = ground arith

pub find-nil : (d : Bytes) (j : ℕ) → find d [] ≢ some (suc j)
unfolding find
find-nil d j h = ground arith

-- At the position that `find` returns the delimiter stands.
pub find-occurs :
    (d s : Bytes) (i : ℕ) → find d s ≡ some i → s ≡ take i s ++ (d ++ drop (length d) (drop i s))
find-occurs d s zero h = starts_with-drop d s (find-zero d s h)
find-occurs d [] (suc j) h = absurd (find-nil d j h)
find-occurs d (c ∷ s) (suc j) h = ap (◌∷◌ c) (find-occurs d s j (find-suc d c s j h).1)

-- It is the first such position: the text before it does not hold the delimiter.
find-first : (d s : Bytes) (i : ℕ) → d ≢ [] → find d s ≡ some i → find d (take i s) ≡ none
unfolding find starts_with
find-first [] s i ne h = absurd (ne refl)
find-first (p ∷ ps) s zero ne h = refl
find-first (p ∷ ps) [] (suc j) ne h = refl
find-first (p ∷ ps) (c ∷ s) (suc j) ne h =
    let (miss, rest) = find-suc (p ∷ ps) c s j h in
    ground (arith, find-first (p ∷ ps) s j ne rest, starts_with-take (p ∷ ps) (c ∷ s) (suc j), miss)

starts_with-le : (d s : Bytes) → starts_with d s ≡ true → length d ≤ length s
unfolding starts_with
starts_with-le [] s h = omega arith
starts_with-le (p ∷ ps) [] h = cc
starts_with-le (p ∷ ps) (c ∷ s) h = ground (arith, starts_with-le ps s)

pub find-le : (d s : Bytes) (i : ℕ) → find d s ≡ some i → i + length d ≤ length s
find-le d s zero h = omega (arith, starts_with-le d s (find-zero d s h))
find-le d [] (suc j) h = absurd (find-nil d j h)
find-le d (c ∷ s) (suc j) h = omega (arith, find-le d s j (find-suc d c s j h).1)

module _ (text d : Bytes) (start : ℕ) (within : start ≤ length text) where
  find_from-drop : find_from text d start ≡ shift start (find d (drop start text))
  unfolding find_from
  find_from-drop = ground arith

  -- A round of the loop.
  split_loop-cut :
      (f i : ℕ) (acc : List Bytes)
      → split_loop (suc f) text d start (some (i + start)) acc
        ≡ split_loop f text d
            (i + start + length d)
            (find_from text d (i + start + length d))
            (acc ++ take i (drop start text) ∷ [])
  unfolding split_loop substr
  split_loop-cut f i acc = let e : i + start - start ≡ i = omega arith in rw e (ground arith)

  split_loop-last :
      (f : ℕ) (acc : List Bytes)
      → split_loop (suc f) text d start none acc ≡ ok (acc ++ drop start text ∷ [])
  unfolding split_loop substr
  split_loop-last f acc = ground arith

-- `split` returns the cut of the text, in as many rounds as there are tokens.
split_loop-Splits :
    (f : ℕ) (text d : Bytes) (start : ℕ) (acc ts : List Bytes)
    → start ≤ length text
    → length ts ≤ f
    → Splits d (drop start text) ts
    → split_loop f text d start (find_from text d start) acc ≡ ok (acc ++ ts)
split_loop-Splits zero text d start acc ts le few (last _ miss) = absurd (omega arith)
split_loop-Splits zero text d start acc ts le few (cut _ i us hit more) = absurd (omega arith)
split_loop-Splits (suc f) text d start acc ts le few (last _ miss) =
    rw (find_from-drop text d start le, miss) (split_loop-last text d start le f acc)
split_loop-Splits (suc f) text d start acc ts le few (cut _ i us hit more) =
    rw (find_from-drop text d start le, hit)
      (split_loop-cut text d start le f i acc
        ∙ split_loop-Splits f text d (i + start + length d) (acc ++ token ∷ []) us next_le
            (omega arith) (subst (λ r. Splits d r us) regroup more)
        ∙ ap ok (append_assoc acc (token ∷ []) us))
  where
    token : Bytes
    token = take i (drop start text)

    next_le : i + start + length d ≤ length text
    next_le = omega (arith, find-le d (drop start text) i hit, length-drop start text)

    regroup : drop (length d) (drop i (drop start text)) ≡ drop (i + start + length d) text
    regroup =
        ap (drop (length d)) (drop-drop start i text)
        ∙ drop-drop (start + i) (length d) text
        ∙ ap (λ (k : ℕ). drop k text) (omega arith)

-- What a cut leaves is shorter.
pub drop-lt :
    (d s : Bytes) (i : ℕ)
    → d ≢ []
    → find d s ≡ some i
    → length (drop (length d) (drop i s)) < length s
drop-lt [] s i ne e = absurd (ne refl)
drop-lt (p ∷ ps) s i ne e =
    omega (arith, find-le (p ∷ ps) s i e, length-drop (length (p ∷ ps)) (drop i s), length-drop i s)

-- Every text has a cut, with at most one token more than it has bytes.
Splits-exists :
    (n : ℕ) (d s : Bytes)
    → d ≢ []
    → length s < n
    → (ts : List Bytes) × Splits d s ts × (length ts ≤ suc (length s))
Splits-exists zero d s ne h = absurd (omega arith)
Splits-exists (suc n) d s ne h = elim (Option-cases (find d s)) [
  | inl e ↦ (s ∷ [], last s e, omega arith)
  | inr (i, e) ↦
      let shorter = drop-lt d s i ne e in
      let (ts, cuts, few) = Splits-exists n d (drop (length d) (drop i s)) ne (omega arith) in
      (take i s ∷ ts, cut s i ts e cuts, omega arith)
]

-- The tokens spell the text.
join-cons : (d t : Bytes) (ts : List Bytes) → ts ≢ [] → join d (t ∷ ts) ≡ t ++ (d ++ join d ts)
unfolding join
join-cons d t [] ne = absurd (ne refl)
join-cons d t (u ∷ ts) ne = refl

Splits-ne : (d s : Bytes) (ts : List Bytes) → Splits d s ts → ts ≢ []
Splits-ne d s ts (last _ e) = λ z. cc
Splits-ne d s ts (cut _ i us e more) = λ z. cc

pub Splits-join : (d s : Bytes) (ts : List Bytes) → Splits d s ts → join d ts ≡ s
unfolding join
Splits-join d s ts (last _ e) = refl
Splits-join d s ts (cut _ i us e more) =
    join-cons d (take i s) us (Splits-ne d _ us more)
    ∙ ap (λ (r : Bytes). take i s ++ (d ++ r)) (Splits-join d _ us more)
    ∙ sym (find-occurs d s i e)

-- No token holds the delimiter.
Splits-free :
    (d s : Bytes) (ts : List Bytes) → d ≢ [] → Splits d s ts → All (λ t. find d t ≡ none) ts
Splits-free d s ts ne (last _ e) = (e, tt)
Splits-free d s ts ne (cut _ i us e more) = (find-first d s i ne e, Splits-free d _ us ne more)

pub split-Splits :
    (s d : Bytes) (ts : List Bytes)
    → s ≢ []
    → length ts ≤ suc (length s)
    → Splits d s ts
    → split s d ≡ ok ts
unfolding split
split-Splits [] d ts ne few cuts = absurd (ne refl)
split-Splits (c ∷ s) d ts ne few cuts =
    split_loop-Splits (suc (length (c ∷ s))) (c ∷ s) d 0 [] ts (omega arith) few cuts

pub split-nil : (d : Bytes) → split [] d ≡ ok []
unfolding split
split-nil d = refl

pub join-nil : (d : Bytes) → join d [] ≡ []
unfolding join
join-nil d = refl

-- With a delimiter that is not empty, split ends and returns tokens which, joined by the
-- delimiter, are the text, and none of which holds the delimiter.
pub split-join :
    (s d : Bytes)
    → d ≢ []
    → (ts : List Bytes) × (split s d ≡ ok ts) × (join d ts ≡ s) × All (λ t. find d t ≡ none) ts
split-join [] d ne = ([], unfold split in refl, unfold join in refl, tt)
split-join (c ∷ s) d ne =
    let (ts, cuts, few) = Splits-exists (suc (length (c ∷ s))) d (c ∷ s) ne (omega arith) in
    (
      ts,
      split-Splits (c ∷ s) d ts (λ z. cc) few cuts,
      Splits-join d _ ts cuts,
      Splits-free d _ ts ne cuts,
    )
