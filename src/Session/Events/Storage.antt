-- ===== src/Session/Events/Storage.antt =====
-- What happens to a stored file.
use in_memory_object_storage.Common.{
  ◌≡◌, ◌≢◌, ◌∙◌, refl, Bool-cases, ◌⊎◌, inl, inr, subst, sym, none, some, arith, ok, Option-cases,
}
use in_memory_object_storage.Common.Text.{Bytes, text_eq, text_eq_iff}
use in_memory_object_storage.Common.Dict.{lookup, lookup-assign, lookup-erase}
use in_memory_object_storage.MemoryFs.{MemoryFs, File, add, remove}
use in_memory_object_storage.MemoryFs.Refinement.{add_new-eq, add_taken-eq}
use in_memory_object_storage.Session.{Session}
use in_memory_object_storage.Session.Frame.{Changes}
use in_memory_object_storage.Session.Events.{Event, step}
use in_memory_object_storage.Session.Events.Invariant.{IsSound}
use in_memory_object_storage.Session.Events.Effects.{step-IsEffect}

abbrev Stays : Bytes → File → MemoryFs → Type 0
Stays path file m = (lookup path m.fs ≡ some file) ⊎ (lookup path m.fs ≡ none)

remove-Stays :
    (m : MemoryFs) (path other : Bytes) (file : File)
    → lookup path m.fs ≡ some file
    → Stays path file (remove m other).1
unfolding remove
remove-Stays m path other file h = ground (arith, lookup-erase other path m.fs)

pub lookup-add_kept :
    (m : MemoryFs) (path other : Bytes) (file new : File)
    → lookup path m.fs ≡ some file
    → lookup path (add m other new).1.fs ≡ some file
lookup-add_kept m path other file new h = elim (Option-cases (lookup other m.fs)) [
  | inl e ↦
      rw (add_new-eq m other new e)
        (ground (arith, lookup-assign other path new m.fs, text_eq_iff other path))
  | inr (there, e) ↦ rw (add_taken-eq m other new there e) h
]

Changes-Stays :
    (m m' : MemoryFs) (path : Bytes) (file : File)
    → lookup path m.fs ≡ some file
    → Changes m m'
    → Stays path file m'
Changes-Stays m m' path file h (inl e) = inl (rw e h)
Changes-Stays m m' path file h (inr (inl (other, e))) =
    subst (Stays path file) (sym e) (remove-Stays m path other file h)
Changes-Stays m m' path file h (inr (inr (other, new, e))) =
    inl (rw e (lookup-add_kept m path other file new h))

-- The same file under a path, or none before and after.
abbrev pub Same : Bytes → MemoryFs → MemoryFs → Type 0
Same path m m' = lookup path m'.fs ≡ lookup path m.fs

remove-Same : (m : MemoryFs) (other path : Bytes) → other ≢ path → Same path m (remove m other).1
unfolding remove
remove-Same m other path n = ground (arith, n, lookup-erase other path m.fs, text_eq_iff other path)

add-Same :
    (m : MemoryFs) (other path : Bytes) (new : File)
    → other ≢ path
    → Same path m (add m other new).1
add-Same m other path new n = elim (Option-cases (lookup other m.fs)) [
  | inl e ↦
      rw (add_new-eq m other new e)
        (ground (arith, n, lookup-assign other path new m.fs, text_eq_iff other path))
  | inr (there, e) ↦ rw (add_taken-eq m other new there e) refl
]

differs : (other p q : Bytes) → p ≢ q → (other ≢ p) ⊎ (other ≢ q)
differs other p q n = elim (Bool-cases (text_eq other p)) [
  | inl e ↦ inr (λ h. n (sym ((text_eq_iff other p).0 e) ∙ h))
  | inr e ↦ inl (λ h. ground (arith, e, h, text_eq_iff other p))
]

-- A change is one of one path.
pub Changes-Same :
    (m m' : MemoryFs) (p q : Bytes) → p ≢ q → Changes m m' → Same p m m' ⊎ Same q m m'
Changes-Same m m' p q n (inl e) = inl (rw e refl)
Changes-Same m m' p q n (inr (inl (other, e))) = elim (differs other p q n) [
  | inl d ↦ inl (rw e (remove-Same m other p d))
  | inr d ↦ inr (rw e (remove-Same m other q d))
]
Changes-Same m m' p q n (inr (inr (other, new, e))) = elim (differs other p q n) [
  | inl d ↦ inl (rw e (add-Same m other p new d))
  | inr d ↦ inr (rw e (add-Same m other q new d))
]

-- When a completion in a sound session ends normally, a stored file has its contents as they
-- were, or it is removed: no request and no upload changes them.
pub step-stored :
    (event : Event) (s s' : Session) (path : Bytes) (file : File)
    → IsSound s
    → step event s ≡ ok s'
    → lookup path s.filesystem.fs ≡ some file
    → (lookup path s'.filesystem.fs ≡ some file) ⊎ (lookup path s'.filesystem.fs ≡ none)
step-stored event s s' path file h e l =
    Changes-Stays s.filesystem s'.filesystem path file l (step-IsEffect event s s' h e).files
