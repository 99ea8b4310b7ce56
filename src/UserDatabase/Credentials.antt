-- ===== src/UserDatabase/Credentials.antt =====
-- Which credentials the database accepts after any additions.
use in_memory_object_storage.Common.{
  ◌≡◌, Bool, true, false, List, [], ◌∷◌, Option, none, some, if◌then◌else◌, ◌∙◌, arith, Bool-cases,
  inl, inr,
}
use in_memory_object_storage.Common.Text.{Bytes, text_eq, text_eq_iff}
use in_memory_object_storage.Common.Dict.{lookup, lookup-assign}
use in_memory_object_storage.UserDatabase.{User, UserDatabase, no_users, is_reserved, add, verify}

unfoldable pub add_all : UserDatabase → List User → UserDatabase
add_all db [] = db
add_all db (u ∷ us) = add_all (add db u).1 us

-- The password of the first addition under a name.
unfoldable pub first_password : Bytes → List User → Option Bytes
first_password name [] = none
first_password name (u ∷ us) =
    if text_eq u.username name then some u.password else first_password name us

abbrev pub or_first : Option Bytes → Option Bytes → Option Bytes
or_first none later = later
or_first (some password) later = some password

-- Nobody can be added under a reserved name, so its entries are not looked at.
module _ (name : Bytes) (open_name : is_reserved name ≡ false) where
  lookup-add :
      (db : UserDatabase) (u : User)
      → lookup name (add db u).1.users
        ≡ or_first
            (lookup name db.users)
            (if text_eq u.username name then some u.password else none)
  unfolding add
  lookup-add db u =
      ground (arith, text_eq_iff u.username name, lookup-assign u.username name u.password db.users)

  lookup-add_all :
      (db : UserDatabase) (us : List User)
      → lookup name (add_all db us).users ≡ or_first (lookup name db.users) (first_password name us)
  unfolding add_all first_password
  lookup-add_all db [] = ground arith
  lookup-add_all db (u ∷ us) = lookup-add_all (add db u).1 us ∙ ground (arith, lookup-add db u)

abbrev is_password : Option Bytes → Bytes → Bool
is_password none password = false
is_password (some first) password = text_eq first password

-- What a server with the additions `us` accepts: a reserved name with any password, and any other
-- name with the password that it was first added with.
unfoldable pub accepts : List User → User → Bool
accepts us user =
    if is_reserved user.username
    then true
    else is_password (first_password user.username us) user.password

-- After any additions to an empty database, a user is accepted exactly if the name is reserved,
-- or the password is that of the first addition under the name.
pub verify-add_all :
    (us : List User) (user : User) → verify (add_all no_users us) user ≡ accepts us user
unfolding verify accepts lookup
verify-add_all us user = elim (Bool-cases (is_reserved user.username)) [
  | inl e ↦ rw e
  | inr e ↦ ground (arith, e, lookup-add_all user.username e no_users us)
]

-- A user that the database accepts is accepted after any further addition.
pub verify-add_mono :
    (db : UserDatabase) (u user : User) → verify db user ≡ true → verify (add db u).1 user ≡ true
unfolding verify
verify-add_mono db u user h = elim (Bool-cases (is_reserved user.username)) [
  | inl e ↦ rw e
  | inr e ↦ ground (arith, e, lookup-add user.username e db u)
]
