-- ===== src/UserDatabase/Tests.antt =====
-- The users at concrete names and passwords.
use in_memory_object_storage.Common.{◌≡◌, [], ◌∷◌}
use in_memory_object_storage.Common.Text.{codes}
use in_memory_object_storage.UserDatabase.{User, no_users, verify}
use in_memory_object_storage.UserDatabase.Credentials.{add_all, accepts, verify-add_all}

abbrev ann : User
ann = record { username = codes "ann"; password = codes "secret" }

abbrev other_ann : User
other_ann = record { username = codes "ann"; password = codes "other" }

verify-add_all_example :
    verify (add_all no_users (ann ∷ other_ann ∷ [])) other_ann
    ≡ accepts (ann ∷ other_ann ∷ []) other_ann
verify-add_all_example = verify-add_all (ann ∷ other_ann ∷ []) other_ann
