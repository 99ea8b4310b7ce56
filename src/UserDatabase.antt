-- ===== src/UserDatabase.antt =====
-- The users: user/iuser_database.hpp and user/database/src/user_database.{hpp,cpp}. Each method
-- holds the object's mutex while it touches the map, so a method is one step.
pub mod Credentials
pub mod Tests
use in_memory_object_storage.Common.{
  Bool, true, false, not, ◌&&◌, List, [], ◌∷◌, Option, none, some, is_some, if◌then◌else◌,
}
use in_memory_object_storage.Common.Text.{Bytes, codes, text_eq}
use in_memory_object_storage.Common.Dict.{Dict, lookup, contains, assign}

pub record User : Type 0 where
  pub username : Bytes
  pub password : Bytes

pub record UserDatabase : Type 0 where
  pub users : Dict Bytes

abbrev pub no_users : UserDatabase
no_users = record { users = [] }

abbrev users_without_password : List Bytes
users_without_password = codes "anonymous" ∷ []

-- Whether a set of names holds a name.
abbrev holds : Bytes → List Bytes → Bool
holds name [] = false
holds name (n ∷ names) = if text_eq n name then true else holds name names

-- `kUsersWithoutPassword.find(name) != kUsersWithoutPassword.end()`
unfoldable pub is_reserved : Bytes → Bool
is_reserved name = holds name users_without_password

unfoldable pub require_password : User → Bool
require_password user = not (is_reserved user.username)

-- `insert` leaves an entry that is there and says so.
unfoldable pub add : UserDatabase → User → Bool × UserDatabase
unfolding require_password contains
add db user =
    if require_password user
    then (if contains user.username db.users
        then (false, db)
        else (true, record { users = assign user.username user.password db.users }))
    else (false, db)

abbrev same_password : Option Bytes → Bytes → Bool
same_password none password = false
same_password (some stored) password = text_eq stored password

unfoldable pub verify : UserDatabase → User → Bool
unfolding require_password contains
verify db user =
    if require_password user
    then contains user.username db.users
      && same_password (lookup user.username db.users) user.password
    else true
