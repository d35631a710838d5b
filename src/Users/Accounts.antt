-- ===== src/Users/Accounts.antt =====
-- Accounts of app/auth.py: the password policy, and logging in after adding and deleting users.
use Prim.Native.String.{count}
use t_log.Shared.{
  Bool, true, false, Option, none, some, [], String, eq_iff, eq_refl, ◌≡◌, ◌≢◌, ◌≤◌, ◌↔◌, ◌⊎◌,
  Bool-cases, steps_of_ok, ok, arith, contents, load_or_raise, inl, inr,
}
use t_log.Shared.Text.{any_char, Unicode}
use t_log.Shared.Dict.{Dict, put, remove, has, get-put, get-remove}
use t_log.Users.{
  StoredUser, UsersFile, load_users, load_users-contents, is_punctuation, check_entry, authenticate,
  validate_password_policy, add_user, delete_user,
}

-- A password passes the policy.
pub record IsStrong (u : Unicode) (password : String) : Type 0 where
  pub long : 12 ≤ count password
  pub lower : any_char u.is_lower password ≡ true
  pub upper : any_char u.is_upper password ≡ true
  pub digit : any_char u.is_digit password ≡ true
  pub special : any_char is_punctuation password ≡ true

module _ (u : Unicode) where
  policy_accepts :
      (password : String) → IsStrong u password → validate_password_policy u password ≡ ok tt
  unfolding validate_password_policy
  policy_accepts password h = ground arith

  policy_sound :
      (password : String) → validate_password_policy u password ≡ ok tt → IsStrong u password
  unfolding validate_password_policy
  policy_sound password h = record {
    long = ground arith;
    lower = ground arith;
    upper = ground arith;
    digit = ground arith;
    special = ground arith;
  }

  -- A password passes the policy exactly when it has twelve characters or more, among them a
  -- lowercase letter, an uppercase letter, a digit and a punctuation character.
  pub validate_password_policy_iff :
      (password : String) → (validate_password_policy u password ≡ ok tt) ↔ IsStrong u password
  validate_password_policy_iff password = (policy_sound password, policy_accepts password)

module _ (u : Unicode) (hashpw : String → String) (checkpw : String → String → Option Bool)
    (f f' : UsersFile) (username password role : String)
    (added : add_user u hashpw f username password role ≡ ok f') where
  abbrev entry : StoredUser
  entry = record { password_hash = some (hashpw password); role = some role }

  added-content :
      (d : Dict StoredUser) × (load_users f ≡ ok d)
      × (load_users f' ≡ ok (put username entry d))
      × (validate_password_policy u password ≡ ok tt)
  unfolding add_user load_users load_or_raise
  added-content =
      let (_, rest, good) = steps_of_ok (validate_password_policy u password) _ added in
      let (d, e, loaded) = steps_of_ok (load_or_raise [] f) _ rest in
      let same : contents (put username entry d) ≡ f' = cc e in (d, loaded, rw (← same), good)

  -- A user who was added has a password that passes the policy, and logs in with the password and
  -- gets the role, if bcrypt accepts a password against its own hash.
  pub authenticate-add_user :
      checkpw password (hashpw password) ≡ some true
      → IsStrong u password × (authenticate checkpw f' username password ≡ ok (some (role, [])))
  unfolding authenticate check_entry
  authenticate-add_user accepts =
      let (d, loaded, stored, good) = added-content in
      (
        policy_sound u password good,
        rw (stored, get-put) (ground (arith, eq_refl username, accepts)),
      )

  -- Adding a user leaves the logins of every other name as they were, with any password.
  pub authenticate-add_user_ne :
      (other attempt : String)
      → username ≢ other
      → authenticate checkpw f' other attempt ≡ authenticate checkpw f other attempt
  unfolding authenticate
  authenticate-add_user_ne other attempt ne =
      let (d, loaded, stored, _) = added-content in
      rw (stored, loaded, get-put) (ground (arith, eq_iff username other))

-- Deleting a user answers False and changes nothing where there is none; otherwise the name logs in
-- with no password, and the logins of every other name are as they were.
pub authenticate-delete_user :
    (checkpw : String → String → Option Bool) (f : UsersFile) (username : String)
    (d : Dict StoredUser)
    → load_users f ≡ ok d
    → ((has username d ≡ false) × (delete_user f username ≡ ok (f, false)))
      ⊎ ((f' : UsersFile) × (delete_user f username ≡ ok (f', true))
          × ((attempt : String) → authenticate checkpw f' username attempt ≡ ok none)
          × ((other attempt : String)
              → username ≢ other
              → authenticate checkpw f' other attempt ≡ authenticate checkpw f other attempt))
unfolding delete_user authenticate check_entry
authenticate-delete_user checkpw f username d loaded = elim (Bool-cases (has username d)) [
  | inl old ↦ inr (
    contents (remove username d),
    rw (loaded, old),
    λ attempt. rw (load_users-contents, get-remove) (ground (arith, eq_refl username)),
    λ other attempt ne.
        rw (load_users-contents, get-remove, loaded) (ground (arith, eq_iff username other)),
  )
  | inr new ↦ inl (new, rw (loaded, new))
]
