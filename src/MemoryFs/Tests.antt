-- ===== src/MemoryFs/Tests.antt =====
-- The filesystem at concrete calls.
use in_memory_object_storage.Common.{List, [], ◌∷◌, none}
use in_memory_object_storage.Common.Text.{codes}
use in_memory_object_storage.MemoryFs.{empty_fs}
use in_memory_object_storage.MemoryFs.Spec.{
  Call, get_file, add_file, list_files, remove_file, Allowed,
}
use in_memory_object_storage.MemoryFs.Refinement.{replies, history-Allowed}

abbrev some_calls : List Call
some_calls =
    add_file (codes "/a") (codes "one")
    ∷ add_file (codes "/a") (codes "two")
    ∷ add_file (codes "/b") []
    ∷ list_files
    ∷ remove_file (codes "/a")
    ∷ remove_file (codes "/a")
    ∷ get_file (codes "/b")
    ∷ []

history-Allowed_example : Allowed (λ _. none) (replies empty_fs some_calls)
history-Allowed_example = history-Allowed some_calls
