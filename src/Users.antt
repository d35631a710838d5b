-- ===== src/Users.antt =====
-- app/auth.py: local accounts behind users.json. bcrypt is not part of the repository: hashing and
-- checking a password are parameters, `none` being the ValueError of a malformed hash.
pub mod Accounts
mod Tests
use Prim.Native.Char.{Char, code}
use Prim.Native.String.{count}
use t_log.Shared.{
  Bool, true, false, not, ◌&&◌, ◌||◌, Option, none, some, List, [], ◌∷◌, String, ◌==◌, ltb,
  if◌then◌else◌, default, is_some, Error, value_error, Result, ok, err, ◌>>=◌, File, contents,
  load_or_raise, ◌≡◌, refl,
}
use t_log.Shared.Text.{any_char, between, Unicode}
use t_log.Shared.Dict.{Dict, get, put, remove, has}

-- One value of users.json; its keys may be missing.
pub record StoredUser : Type 0 where
  pub password_hash : Option String
  pub role : Option String

abbrev pub UsersFile : Type 0
UsersFile = File (Dict StoredUser)

unfoldable pub load_users : UsersFile → Result (Dict StoredUser)
unfolding load_or_raise
load_users f = load_or_raise [] f

pub load_users-contents : (d : Dict StoredUser) → load_users (contents d) ≡ ok d
unfolding load_users load_or_raise
load_users-contents d = refl

-- `string.punctuation`
pub is_punctuation : Char → Bool
is_punctuation c =
    let n = code c in between 33 47 n || between 58 64 n || between 91 96 n || between 123 126 n

-- `if not entry`: an entry with no key at all is falsy.
is_falsy : StoredUser → Bool
is_falsy e = not (is_some e.password_hash) && not (is_some e.role)

module _ (checkpw : String → String → Option Bool) where
  -- `bcrypt.checkpw` on the stored hash, with the handler of ValueError.
  check : String → StoredUser → Option (String × List String)
  check password e = elim (checkpw password (default e.password_hash "")) [
    | none ↦ none
    | some matched ↦ if matched then some (default e.role "viewer", []) else none
  ]

  check_entry : String → Option StoredUser → Option (String × List String)
  unfolding check is_falsy
  check_entry password none = none
  check_entry password (some e) = if is_falsy e then none else check password e

  pub authenticate : UsersFile → String → String → Result (Option (String × List String))
  unfolding check_entry
  authenticate f username password = do
    users ← load_users f
    ok (check_entry password (get username users))

module _ (u : Unicode) where
  pub validate_password_policy : String → Result (Unit {0})
  unfolding is_punctuation
  validate_password_policy password =
      if ltb (count password) 12
      then err (value_error "Password must be at least 12 characters long")
      else if not (any_char u.is_lower password)
      then err (value_error "Password must include at least one lowercase letter")
      else if not (any_char u.is_upper password)
      then err (value_error "Password must include at least one uppercase letter")
      else if not (any_char u.is_digit password)
      then err (value_error "Password must include at least one number")
      else if not (any_char is_punctuation password)
      then err (value_error "Password must include at least one special character")
      else ok tt

  -- `hashpw` includes the salt that was drawn.
  pub add_user : (String → String) → UsersFile → String → String → String → Result UsersFile
  add_user hashpw f username password role = do
    _ ← validate_password_policy password
    users ← load_users f
    let entry : StoredUser = record { password_hash = some (hashpw password); role = some role }
    ok (contents (put username entry users))

pub delete_user : UsersFile → String → Result (UsersFile × Bool)
delete_user f username = do
  users ← load_users f
  if has username users then ok (contents (remove username users), true) else ok (f, false)

listed : Dict StoredUser → List (String × String)
listed [] = []
listed ((u, e) ∷ d) = (u, default e.role "viewer") ∷ listed d

pub list_users : UsersFile → Result (List (String × String))
unfolding listed
list_users f = do users ← load_users f; ok (listed users)

role_of : Option StoredUser → String
role_of none = "viewer"
role_of (some e) = default e.role "viewer"

pub get_user_role : UsersFile → String → Result String
unfolding role_of
get_user_role f username = do users ← load_users f; ok (role_of (get username users))
