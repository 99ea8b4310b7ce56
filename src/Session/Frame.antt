-- ===== src/Session/Frame.antt =====
-- What the handling of a request leaves alone, and how it changes the rest.
use in_memory_object_storage.Common.{
  ◌+◌, ◌≤◌, ◌≡◌, ◌⊎◌, inl, inr, List, [], ◌++◌, append-nil, append_assoc, sym, ◌∙◌, ap, length,
}
use in_memory_object_storage.Common.Text.{Bytes}
use in_memory_object_storage.MemoryFs.{File, MemoryFs, add, remove}
use in_memory_object_storage.Session.{Session}

-- More elements stand behind the same ones.
abbrev pub Prefix {ℓ} : {A : Type ℓ} → List A → List A → Type ℓ
Prefix {A} xs ys = (more : List A) × (ys ≡ xs ++ more)

pub Prefix-refl {ℓ} : {A : Type ℓ} (xs : List A) → Prefix xs xs
Prefix-refl xs = ([], sym (append-nil xs))

pub Prefix-trans {ℓ} : {A : Type ℓ} (xs ys zs : List A) → Prefix xs ys → Prefix ys zs → Prefix xs zs
Prefix-trans xs ys zs (a, e) (b, f) = (a ++ b, f ∙ ap (λ l. l ++ b) e ∙ append_assoc xs a b)

-- A request removes a file at most.
abbrev pub Removes : MemoryFs → MemoryFs → Type 0
Removes m m' = (m' ≡ m) ⊎ ((path : Bytes) × (m' ≡ (remove m path).1))

-- What an event may do to the files: nothing, a removal, or an addition.
abbrev pub Changes : MemoryFs → MemoryFs → Type 0
Changes m m' =
    (m' ≡ m)
    ⊎ ((path : Bytes) × (m' ≡ (remove m path).1))
    ⊎ ((path : Bytes) × (file : File) × (m' ≡ (add m path file).1))

pub Removes-Changes : (m m' : MemoryFs) → Removes m m' → Changes m m'
Removes-Changes m m' (inl e) = inl e
Removes-Changes m m' (inr h) = inr (inl h)

-- From `s`, at which a request was received, to the state that its handler leaves.
pub record IsFrame (s s' : Session) : Type 0 where
  pub users : s'.users ≡ s.users
  pub authenticate : s'.authenticate ≡ s.authenticate
  pub output : s'.output ≡ s.output
  pub ftp_data : s'.ftp_data ≡ s.ftp_data
  pub posted : Prefix s.posted s'.posted
  pub reading : s'.reads + length s'.uploads ≤ s.reads + length s.uploads + 1
  pub filesystem : Removes s.filesystem s'.filesystem
