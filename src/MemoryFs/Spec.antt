-- ===== src/MemoryFs/Spec.antt =====
-- What the interface of filesystem/ifilesystem.hpp promises, over a map from paths to files that
-- has no order and no representation.
use in_memory_object_storage.Common.{
  ◌≡◌, ◌↔◌, true, List, [], ◌∷◌, Option, none, some, is_some, if◌then◌else◌, Mem, Nodup,
}
use in_memory_object_storage.Common.Text.{Bytes, text_eq}
use in_memory_object_storage.MemoryFs.{
  Status, success, file_not_found, already_exists, File, FileList, MemoryFs, get, add, list, remove,
}

-- A call of the interface, and its result.
pub data Call : Type 0 where
  get_file : Bytes → Call
  add_file : Bytes → File → Call
  list_files : Call
  remove_file : Bytes → Call

pub data Reply : Type 0 where
  file_reply : Status → File → Reply
  status_reply : Status → Reply
  list_reply : FileList → Reply

unfoldable pub call : MemoryFs → Call → Reply × MemoryFs
call m (get_file path) = let (status, file) = get m path in (file_reply status file, m)
call m (add_file path file) = let (status, m') = add m path file in (status_reply status, m')
call m list_files = (list_reply (list m), m)
call m (remove_file path) = let (status, m') = remove m path in (status_reply status, m')

abbrev pub View : Type 0
View = Bytes → Option File

abbrev pub update : View → Bytes → Option File → View
update v path file p = if text_eq path p then file else v p

-- A call at the view `v` may reply so and leave the view `w`.
pub data Allows (v w : View) : Call → Reply → Type 0 where
  get_hit :
      (path : Bytes) (file : File)
      → v path ≡ some file
      → w ≡ v
      → Allows v w (get_file path) (file_reply success file)
  get_miss :
      (path : Bytes)
      → v path ≡ none
      → w ≡ v
      → Allows v w (get_file path) (file_reply file_not_found [])
  add_new :
      (path : Bytes) (file : File)
      → v path ≡ none
      → w ≡ update v path (some file)
      → Allows v w (add_file path file) (status_reply success)
  add_taken :
      (path : Bytes) (file old : File)
      → v path ≡ some old
      → w ≡ v
      → Allows v w (add_file path file) (status_reply already_exists)
  list_all :
      (paths : FileList)
      → Nodup paths
      → ((path : Bytes) → Mem path paths ↔ (is_some (v path) ≡ true))
      → w ≡ v
      → Allows v w list_files (list_reply paths)
  remove_hit :
      (path : Bytes) (old : File)
      → v path ≡ some old
      → w ≡ update v path none
      → Allows v w (remove_file path) (status_reply success)
  remove_miss :
      (path : Bytes)
      → v path ≡ none
      → w ≡ v
      → Allows v w (remove_file path) (status_reply file_not_found)

-- Calls one after the other, each at the view that the last one left.
pub data Allowed : View → List (Call × Reply) → Type 0 where
  stop : {v : View} → Allowed v []
  then_call :
      {v : View} (w : View) {c : Call} {r : Reply} {rest : List (Call × Reply)}
      → Allows v w c r
      → Allowed w rest
      → Allowed v ((c, r) ∷ rest)
