-- ===== src/MemoryFs/Refinement.antt =====
-- MemoryFs implements the interface of Spec.
use mathlib.Core.Path.{fun_ext}
use mathlib.Core.List.{Nodup-nil}
use in_memory_object_storage.Common.{
  ◌≡◌, ◌↔◌, refl, sym, ◌∙◌, inl, inr, true, List, [], ◌∷◌, ◌++◌, append-nil, append_assoc, none,
  some, is_some, Option-cases, Mem, arith,
}
use in_memory_object_storage.Common.Text.{Bytes, text_eq_iff}
use in_memory_object_storage.Common.Dict.{
  Dict, lookup, contains, assign, erase, keys, lookup-assign, lookup-erase, mem-keys_of_contains,
  contains_of_mem-keys, Nodup-assign, Nodup-erase, count-contains,
}
use in_memory_object_storage.MemoryFs.{
  success, file_not_found, already_exists, File, FileList, MemoryFs, empty_fs, get, add, list,
  remove, collect, IsStore,
}
use in_memory_object_storage.MemoryFs.Spec.{
  Call, get_file, add_file, list_files, remove_file, Reply, call, View, update, Allows, get_hit,
  get_miss, add_new, add_taken, list_all, remove_hit, remove_miss, Allowed, stop, then_call,
}

abbrev pub view : MemoryFs → View
view m path = lookup path m.fs

collect-keys : (d : Dict File) (acc : FileList) → collect d acc ≡ acc ++ keys d
unfolding collect
collect-keys [] acc = sym (append-nil acc)
collect-keys ((path, file) ∷ d) acc =
    collect-keys d (acc ++ path ∷ []) ∙ append_assoc acc (path ∷ []) (keys d)

pub list-keys : (m : MemoryFs) → list m ≡ keys m.fs
unfolding list
list-keys m = collect-keys m.fs []

-- The result of each method, from what `find` says of the path.
module _ (m : MemoryFs) (path : Bytes) where
  pub get_hit-eq : (file : File) → lookup path m.fs ≡ some file → get m path ≡ (success, file)
  unfolding get
  get_hit-eq file e = ground arith

  pub get_miss-eq : lookup path m.fs ≡ none → get m path ≡ (file_not_found, [])
  unfolding get
  get_miss-eq e = ground arith

  pub add_new-eq :
      (file : File)
      → lookup path m.fs ≡ none
      → add m path file ≡ (success, record { fs = assign path file m.fs })
  unfolding add
  add_new-eq file e = ground arith

  pub add_taken-eq :
      (file old : File) → lookup path m.fs ≡ some old → add m path file ≡ (already_exists, m)
  unfolding add
  add_taken-eq file old e = ground arith

  pub remove_hit-eq :
      (old : File)
      → IsStore m
      → lookup path m.fs ≡ some old
      → remove m path ≡ (success, record { fs = erase path m.fs })
  unfolding remove contains
  remove_hit-eq old s e = ground (arith, count-contains path m.fs s)

  pub remove_miss-eq :
      IsStore m
      → lookup path m.fs ≡ none
      → remove m path ≡ (file_not_found, record { fs = erase path m.fs })
  unfolding remove contains
  remove_miss-eq s e = ground (arith, count-contains path m.fs s)

add-IsStore : (m : MemoryFs) (path : Bytes) (file : File) → IsStore m → IsStore (add m path file).1
add-IsStore m path file s = elim (Option-cases (lookup path m.fs)) [
  | inl e ↦ rw (add_new-eq m path file e) (Nodup-assign path file m.fs s)
  | inr (old, e) ↦ rw (add_taken-eq m path file old e) s
]

-- Each call of get, add, list and remove keeps the stored paths distinct.
pub call-IsStore : (m : MemoryFs) (c : Call) → IsStore m → IsStore (call m c).1
unfolding call remove
call-IsStore m (get_file path) s = s
call-IsStore m (add_file path file) s = add-IsStore m path file s
call-IsStore m list_files s = s
call-IsStore m (remove_file path) s = Nodup-erase path m.fs s

-- The paths of `keys` are those that the view has a file for.
mem-keys_iff : (m : MemoryFs) (path : Bytes) → Mem path (keys m.fs) ↔ (is_some (view m path) ≡ true)
unfolding contains
mem-keys_iff m path = (contains_of_mem-keys path m.fs, mem-keys_of_contains path m.fs)

view-assign :
    (m : MemoryFs) (path : Bytes) (file : File)
    → view (record { fs = assign path file m.fs }) ≡ update (view m) path (some file)
view-assign m path file = fun_ext λ p. lookup-assign path p file m.fs

view-erase :
    (m : MemoryFs) (path : Bytes)
    → view (record { fs = erase path m.fs }) ≡ update (view m) path none
view-erase m path = fun_ext λ p. lookup-erase path p m.fs

-- Erasing a path that is not there changes no view.
update_absent : (v : View) (path : Bytes) → v path ≡ none → update v path none ≡ v
update_absent v path e = fun_ext λ p. ground (arith, text_eq_iff path p)

-- Each call replies and changes the store as the interface allows.
pub call-Allows :
    (m : MemoryFs) (c : Call) → IsStore m → Allows (view m) (view (call m c).1) c (call m c).0
unfolding call
call-Allows m (get_file path) s = elim (Option-cases (lookup path m.fs)) [
  | inl e ↦ rw (get_miss-eq m path e) (get_miss path e refl)
  | inr (file, e) ↦ rw (get_hit-eq m path file e) (get_hit path file e refl)
]
call-Allows m (add_file path file) s = elim (Option-cases (lookup path m.fs)) [
  | inl e ↦ rw (add_new-eq m path file e) (add_new path file e (view-assign m path file))
  | inr (old, e) ↦ rw (add_taken-eq m path file old e) (add_taken path file old e refl)
]
call-Allows m list_files s = rw list-keys (list_all (keys m.fs) s (mem-keys_iff m) refl)
call-Allows m (remove_file path) s = elim (Option-cases (lookup path m.fs)) [
  | inl e ↦
      rw (remove_miss-eq m path s e)
        (remove_miss path e (view-erase m path ∙ update_absent (view m) path e))
  | inr (old, e) ↦ rw (remove_hit-eq m path old s e) (remove_hit path old e (view-erase m path))
]

unfoldable pub replies : MemoryFs → List Call → List (Call × Reply)
replies m [] = []
replies m (c ∷ cs) = let (r, m') = call m c in (c, r) ∷ replies m' cs

-- Every history.
pub replies-Allowed : (m : MemoryFs) (cs : List Call) → IsStore m → Allowed (view m) (replies m cs)
unfolding replies
replies-Allowed m [] s = stop
replies-Allowed m (c ∷ cs) s =
    then_call (view (call m c).1) (call-Allows m c s)
      (replies-Allowed (call m c).1 cs (call-IsStore m c s))

-- Any sequence of calls of get, add, list and remove from the empty filesystem gets the replies
-- that the interface allows, over an abstract map from paths to files: a stored file is read back
-- unchanged, add never overwrites, list names each stored path exactly once, remove deletes that
-- path alone, and the status of each call says what happened.
pub history-Allowed : (cs : List Call) → Allowed (λ _. none) (replies empty_fs cs)
unfolding lookup
history-Allowed cs = replies-Allowed empty_fs cs Nodup-nil
