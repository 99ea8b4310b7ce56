-- ===== src/Common/Dict.antt =====
-- `std::unordered_map` with string keys, as an association list. Its iteration order is not
-- specified, so no statement depends on the order of the entries.
use mathlib.Core.List.{mem-cons, mem-cons_of_mem, not-mem-nil, mem-cons_self, Nodup-cons, Nodup-nil}
use mathlib.Core.Logic.Or
use mathlib.Core.Logic.{inl, inr}
use Prim.Native.Nat.{ℕ, suc}
use mathlib.Core.Path.{◌≡◌, refl}
use mathlib.Core.Bool.{Bool, true, false, Bool-set}
use mathlib.Core.Option.{Option, none, some}
use mathlib.Core.List.{List, [], ◌∷◌, map, Mem, Nodup}
use native.Mathlib.Omega.{arith}
use in_memory_object_storage.Common.Tests.{if◌then◌else◌, is_some, Bool-cases}
use in_memory_object_storage.Common.Text.{Bytes, text_eq, text_eq_iff}

abbrev pub Dict {ℓ} : Type ℓ → Type ℓ
Dict V = List (Bytes × V)

module _ {ℓ} {V : Type ℓ} where
  -- m.find(k)
  unfoldable pub lookup : Bytes → Dict V → Option V
  lookup k [] = none
  lookup k ((j, v) ∷ m) = if text_eq j k then some v else lookup k m

  -- m.find(k) != m.end()
  unfoldable pub contains : Bytes → Dict V → Bool
  contains k m = is_some (lookup k m)

  -- m[k] = v
  unfoldable pub assign : Bytes → V → Dict V → Dict V
  assign k v [] = (k, v) ∷ []
  assign k v ((j, w) ∷ m) = if text_eq j k then (j, v) ∷ m else (j, w) ∷ assign k v m

  -- m.erase(k): what is left, and the number of entries that went.
  unfoldable pub erase : Bytes → Dict V → Dict V
  erase k [] = []
  erase k ((j, w) ∷ m) = let rest = erase k m in if text_eq j k then rest else (j, w) ∷ rest

  unfoldable pub count : Bytes → Dict V → ℕ
  count k [] = 0
  count k ((j, w) ∷ m) = let rest = count k m in if text_eq j k then suc rest else rest

  abbrev pub keys : Dict V → List Bytes
  keys m = map (λ e. e.0) m

  pub lookup-assign :
      (k j : Bytes) (v : V) (m : Dict V)
      → lookup j (assign k v m) ≡ (if text_eq k j then some v else lookup j m)
  unfolding lookup assign
  lookup-assign k j v [] = refl
  lookup-assign k j v ((i, w) ∷ m) =
      ground (arith, text_eq_iff k j, text_eq_iff i k, text_eq_iff i j, lookup-assign k j v m)

  pub lookup-erase :
      (k j : Bytes) (m : Dict V) → lookup j (erase k m) ≡ (if text_eq k j then none else lookup j m)
  unfolding lookup erase
  lookup-erase k j [] = ground arith
  lookup-erase k j ((i, w) ∷ m) =
      ground (arith, text_eq_iff k j, text_eq_iff i k, text_eq_iff i j, lookup-erase k j m)

  -- The keys are those that `find` finds.
  pub mem-keys_of_contains : (k : Bytes) (m : Dict V) → contains k m ≡ true → Mem k (keys m)
  unfolding contains lookup
  mem-keys_of_contains k [] h = cc
  mem-keys_of_contains k ((j, v) ∷ m) h = elim (Bool-cases (text_eq j k)) [
    | inl e ↦ rw (← (text_eq_iff j k).0 e) mem-cons_self
    | inr e ↦ mem-cons_of_mem j (mem-keys_of_contains k m (ground arith))
  ]

  pub contains_of_mem-keys : (k : Bytes) (m : Dict V) → Mem k (keys m) → contains k m ≡ true
  unfolding contains lookup
  contains_of_mem-keys k [] h = absurd (not-mem-nil h)
  contains_of_mem-keys k ((j, v) ∷ m) h =
      Or.elim (Bool-set _ _) (mem-cons.0 h) (λ e. ground (arith, text_eq_iff j k))
        (λ t. ground (arith, contains_of_mem-keys k m t))

  mem-keys-assign_ne :
      (k : Bytes) (v : V) (j : Bytes) (m : Dict V)
      → text_eq j k ≡ false
      → Mem j (keys (assign k v m))
      → Mem j (keys m)
  unfolding contains
  mem-keys-assign_ne k v j m e h =
      let found = contains_of_mem-keys j (assign k v m) h in
      mem-keys_of_contains j m
        (ground (arith, found, lookup-assign k j v m, text_eq_iff j k, text_eq_iff k j))

  -- The keys of a map are distinct, and every operation keeps them so.
  pub Nodup-assign : (k : Bytes) (v : V) (m : Dict V) → Nodup (keys m) → Nodup (keys (assign k v m))
  unfolding assign
  Nodup-assign k v [] h = Nodup-cons.1 (not-mem-nil, Nodup-nil)
  Nodup-assign k v ((j, w) ∷ m) h = elim (Bool-cases (text_eq j k)) [
    | inl e ↦ rw e h
    | inr e ↦ rw e (
        Nodup-cons.1 (
          (λ t. (Nodup-cons.0 h).0 (mem-keys-assign_ne k v j m e t)),
          Nodup-assign k v m (Nodup-cons.0 h).1,
        ))
  ]

  mem-keys-erase : (k j : Bytes) (m : Dict V) → Mem j (keys (erase k m)) → Mem j (keys m)
  unfolding contains
  mem-keys-erase k j m h =
      let found = contains_of_mem-keys j (erase k m) h in
      mem-keys_of_contains j m (ground (arith, found, lookup-erase k j m))

  pub Nodup-erase : (k : Bytes) (m : Dict V) → Nodup (keys m) → Nodup (keys (erase k m))
  unfolding erase
  Nodup-erase k [] h = h
  Nodup-erase k ((j, w) ∷ m) h =
      let rest = Nodup-erase k m (Nodup-cons.0 h).1 in
      elim (Bool-cases (text_eq j k)) [
        | inl e ↦ rw e rest
        | inr e ↦ rw e (Nodup-cons.1 ((λ t. (Nodup-cons.0 h).0 (mem-keys-erase k j m t)), rest))
      ]

  -- With distinct keys `erase` removes one entry, or none.
  pub count-contains :
      (k : Bytes) (m : Dict V) → Nodup (keys m) → count k m ≡ (if contains k m then 1 else 0)
  unfolding count contains lookup
  count-contains k [] h = refl
  count-contains k ((j, w) ∷ m) h =
      let rest = count-contains k m (Nodup-cons.0 h).1 in
      elim (Bool-cases (text_eq j k)) [
        | inl e ↦ elim (Bool-cases (contains k m)) [
          | inl t ↦
              absurd ((Nodup-cons.0 h).0 (rw ((text_eq_iff j k).0 e) (mem-keys_of_contains k m t)))
          | inr t ↦ ground (arith, rest, t, e)
        ]
        | inr e ↦ ground (arith, rest, e)
      ]
