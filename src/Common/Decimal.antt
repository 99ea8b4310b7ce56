-- ===== src/Common/Decimal.antt =====
-- `std::to_string` of an unsigned number, and reading it back.
use in_memory_object_storage.Common.Text.{Bytes, Lacks}
use Prim.Native.Nat.{ℕ, zero, suc, ◌+◌, ◌-◌, ◌*◌, ◌/◌, ◌%◌, ◌≤◌, ◌<◌}
use mathlib.Core.Path.{◌≡◌, refl, sym, ap, ◌∙◌}
use mathlib.Core.Bool.{Bool, false, ◌&&◌}
use mathlib.Core.Logic.{inl, inr}
use mathlib.Core.List.{[], ◌∷◌, ◌++◌}
use native.Mathlib.Omega.{arith}
use in_memory_object_storage.Common.Tests.{ltb, leb, if◌then◌else◌, Bool-cases}
use in_memory_object_storage.Common.Lists.{All}

-- Digits from the last one, in front of `out`; there are fewer of them than the number has units.
emit : ℕ → ℕ → Bytes → Bytes
emit zero n out = out
emit (suc fuel) n out =
    let rest = emit fuel (n / 10) ((b'0' + n % 10) ∷ out) in
    if ltb n 10 then (b'0' + n) ∷ out else rest

unfoldable pub to_string : ℕ → Bytes
unfolding emit
to_string n = emit (suc n) n []

unfoldable pub is_digit : ℕ → Bool
is_digit c = leb b'0' c && leb c b'9'

-- The number that the leading digits spell, after `n`.
unfoldable pub read_digits : ℕ → Bytes → ℕ
read_digits n [] = n
read_digits n (c ∷ s) =
    let rest = read_digits (n * 10 + (c - b'0')) s in if is_digit c then rest else n

read_digits-digit :
    (m d : ℕ) (out : Bytes)
    → d < 10
    → read_digits m ((b'0' + d) ∷ out) ≡ read_digits (m * 10 + d) out
unfolding read_digits is_digit
read_digits-digit m d out h =
    let e : m * 10 + (b'0' + d - b'0') ≡ m * 10 + d = omega arith in rw e (ground arith)

read_digits-emit :
    (fuel n : ℕ) (out : Bytes) → n < fuel → read_digits 0 (emit fuel n out) ≡ read_digits n out
unfolding emit
read_digits-emit zero n out h = absurd (omega arith)
read_digits-emit (suc fuel) n out h = elim (Bool-cases (ltb n 10)) [
  | inl e ↦
      rw e
        (read_digits-digit 0 n out (ground arith) ∙ ap (λ (k : ℕ). read_digits k out) (omega arith))
  | inr e ↦ rw e (
      read_digits-emit fuel (n / 10) ((b'0' + n % 10) ∷ out) (ground arith)
      ∙ read_digits-digit (n / 10) (n % 10) out (omega arith)
      ∙ ap (λ (k : ℕ). read_digits k out) (omega arith))
]

emit-append : (fuel n : ℕ) (out rest : Bytes) → emit fuel n (out ++ rest) ≡ emit fuel n out ++ rest
unfolding emit
emit-append zero n out rest = refl
emit-append (suc fuel) n out rest = elim (Bool-cases (ltb n 10)) [
  | inl e ↦ rw e
  | inr e ↦ rw e (emit-append fuel (n / 10) ((b'0' + n % 10) ∷ out) rest)
]

-- The printed number is read back, whatever stands behind it.
pub read_digits-to_string :
    (n : ℕ) (rest : Bytes) → read_digits 0 (to_string n ++ rest) ≡ read_digits n rest
unfolding to_string
read_digits-to_string n rest =
    ap (read_digits 0) (sym (emit-append (suc n) n [] rest))
    ∙ read_digits-emit (suc n) n rest (omega arith)

pub read_digits-stop : (n c : ℕ) (s : Bytes) → is_digit c ≡ false → read_digits n (c ∷ s) ≡ n
unfolding read_digits
read_digits-stop n c s h = rw h

emit-digits :
    (fuel n : ℕ) (out : Bytes) → All (λ c. b'0' ≤ c) out → All (λ c. b'0' ≤ c) (emit fuel n out)
unfolding emit
emit-digits zero n out h = h
emit-digits (suc fuel) n out h = elim (Bool-cases (ltb n 10)) [
  | inl e ↦ rw e (omega arith, h)
  | inr e ↦ rw e (emit-digits fuel (n / 10) ((b'0' + n % 10) ∷ out) (omega arith, h))
]

Lacks-above : (b : ℕ) (s : Bytes) → b < b'0' → All (λ c. b'0' ≤ c) s → Lacks b s
Lacks-above b [] lt h = tt
Lacks-above b (c ∷ s) lt h = (omega (arith, h.0), Lacks-above b s lt h.1)

-- A printed number holds no byte below the digits, such as a space or an end of line.
pub to_string-Lacks : (b n : ℕ) → b < b'0' → Lacks b (to_string n)
unfolding to_string
to_string-Lacks b n lt = Lacks-above b _ lt (emit-digits (suc n) n [] tt)

emit-head :
    (fuel n : ℕ) (out : Bytes)
    → n < fuel
    → (d : ℕ) × (s : Bytes) × (d < 10) × (emit fuel n out ≡ (b'0' + d) ∷ s)
unfolding emit
emit-head zero n out h = absurd (omega arith)
emit-head (suc fuel) n out h = elim (Bool-cases (ltb n 10)) [
  | inl e ↦ (n, out, ground arith, rw e refl)
  | inr e ↦ rw e (emit-head fuel (n / 10) ((b'0' + n % 10) ∷ out) (ground arith))
]

-- A printed number begins with a digit.
pub to_string-head : (n : ℕ) → (d : ℕ) × (s : Bytes) × (d < 10) × (to_string n ≡ (b'0' + d) ∷ s)
unfolding to_string
to_string-head n = emit-head (suc n) n [] (omega arith)
