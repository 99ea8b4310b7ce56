-- ===== src/Common/Outcomes.antt =====
-- What a run of C++ code comes to. `throws` is an exception that leaves the call, `undefined` is
-- undefined behaviour (an index past the end of a container), and `diverges` a loop that was still
-- running when its fuel was gone.
use mathlib.Core.Path.{◌≡◌, refl, ap, subst}
use mathlib.Core.Bool.{Bool, true, false}
use in_memory_object_storage.Common.Tests.{if◌then◌else◌}
use mathlib.Core.Option.{Option, none, some}

pub data Outcome {ℓ} (A : Type ℓ) : Type ℓ where
  ok : A → Outcome A
  throws undefined diverges : Outcome A

infixl 5 ◌>>=◌
abbrev pub ◌>>=◌ {ℓ κ} : {A : Type ℓ} {B : Type κ} → Outcome A → (A → Outcome B) → Outcome B
ok a >>= f = f a
throws >>= f = throws
undefined >>= f = undefined
diverges >>= f = diverges

-- `v[i]` on a vector or a string: past the end it is undefined.
abbrev pub or_undefined {ℓ} : {A : Type ℓ} → Option A → Outcome A
or_undefined none = undefined
or_undefined (some a) = ok a

-- `m.at(k)`: a missing key is `std::out_of_range`.
abbrev pub or_throw {ℓ} : {A : Type ℓ} → Option A → Outcome A
or_throw none = throws
or_throw (some a) = ok a

-- A chain that ends with a value went through a value of its first part.
pub >>=-eq-ok {ℓ κ} :
    {X : Type ℓ} {Y : Type κ} (run : Outcome X) (next : X → Outcome Y) {y : Y}
    → (run >>= next) ≡ ok y
    → (x : X) × (run ≡ ok x) × (next x ≡ ok y)
>>=-eq-ok throws next e = cc
>>=-eq-ok undefined next e = cc
>>=-eq-ok diverges next e = cc
>>=-eq-ok (ok x) next e = (x, refl, e)

abbrev pub value_or {ℓ} : {A : Type ℓ} → A → Outcome A → A
value_or d (ok a) = a
value_or d throws = d
value_or d undefined = d
value_or d diverges = d

pub ok-injective {ℓ} : {A : Type ℓ} {a b : A} → ok a ≡ ok b → a ≡ b
ok-injective {a} e = ap (value_or a) e

-- What holds of the value, if the run ends with one.
pub data Ensures {ℓ κ} {A : Type ℓ} (P : A → Type κ) : Outcome A → Type (ℓ ⊔ κ) where
  ends : {a : A} → P a → Ensures P (ok a)
  by_throw : Ensures P throws
  by_undefined : Ensures P undefined
  by_divergence : Ensures P diverges

module _ {ℓ κ} {A : Type ℓ} (P : A → Type κ) where
  pub Ensures-if :
      (b : Bool) (m n : Outcome A) → Ensures P m → Ensures P n → Ensures P (if b then m else n)
  Ensures-if true m n h k = h
  Ensures-if false m n h k = k

  pub Ensures->>= {μ} :
      {B : Type μ} (m : Outcome B) (f : B → Outcome A)
      → ((b : B) → m ≡ ok b → Ensures P (f b))
      → Ensures P (m >>= f)
  Ensures->>= (ok b) f h = h b refl
  Ensures->>= throws f h = by_throw
  Ensures->>= undefined f h = by_undefined
  Ensures->>= diverges f h = by_divergence

  pub Ensures-ok : {a : A} {o : Outcome A} → Ensures P o → o ≡ ok a → P a
  Ensures-ok (ends h) e = subst P (ok-injective e) h
  Ensures-ok by_throw e = cc
  Ensures-ok by_undefined e = cc
  Ensures-ok by_divergence e = cc
