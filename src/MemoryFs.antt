-- ===== src/MemoryFs.antt =====
-- The in-memory filesystem: filesystem/ifilesystem.hpp and filesystem/memory_fs/src/memory_fs.{hpp,cpp}.
-- Each method holds the object's mutex for its whole body, so a method is one step.
pub mod Spec
pub mod Refinement
pub mod Tests
use in_memory_object_storage.Common.{
  ℕ, ◌≡◌, Bool, List, [], ◌++◌, Option, none, some, ◌==◌, if◌then◌else◌, Nodup, ◌∷◌,
}
use in_memory_object_storage.Common.Text.{Bytes}
use in_memory_object_storage.Common.Dict.{Dict, lookup, contains, assign, erase, count, keys}

pub data Status : Type 0 where
  success file_not_found already_exists : Status

abbrev pub File : Type 0
File = Bytes

abbrev pub FileList : Type 0
FileList = List Bytes

pub record MemoryFs : Type 0 where
  pub fs : Dict File

abbrev pub empty_fs : MemoryFs
empty_fs = record { fs = [] }

unfoldable pub exists : MemoryFs → Bytes → Bool
unfolding contains lookup
exists m path = contains path m.fs

-- `fs_.at(path)` on the entry that `exists` found; the reference is taken as the file itself.
abbrev found : Option File → Status × File
found none = (file_not_found, [])
found (some file) = (success, file)

unfoldable pub get : MemoryFs → Bytes → Status × File
unfolding exists
get m path = if exists m path then found (lookup path m.fs) else (file_not_found, [])

unfoldable pub add : MemoryFs → Bytes → File → Status × MemoryFs
unfolding exists assign
add m path file =
    if exists m path then (already_exists, m) else (success, record { fs = assign path file m.fs })

-- The loop over `fs_` with `emplace_back`.
collect : Dict File → FileList → FileList
collect [] list = list
collect ((path, file) ∷ rest) list = collect rest (list ++ path ∷ [])

unfoldable pub list : MemoryFs → FileList
unfolding collect
list m = collect m.fs []

-- `fs_.erase(path) == 1`
unfoldable pub remove : MemoryFs → Bytes → Status × MemoryFs
unfolding erase count
remove m path =
    (if count path m.fs == 1 then success else file_not_found, record { fs = erase path m.fs })

-- What `std::unordered_map` keeps: the paths are distinct.
abbrev pub IsStore : MemoryFs → Type 0
IsStore m = Nodup (keys m.fs)
