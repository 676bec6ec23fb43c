-- ===== src/Remote/Accounts.antt =====
-- internal/control/remote/auth.go: accounts and passwords. The key derivation and the hexadecimal decoder are
-- parameters.
use faultline.Common.{
  ℕ, zero, suc, Bool, not, ◌&&◌, ◌||◌, Option, none, some, List, [], ◌∷◌, Text, ◌==◌, text_eq,
  nat_eq, length, ltb, is_nil, if◌then◌else◌,
}
use faultline.Common.Strings.{codes}
use faultline.Config.Names.{identifier_byte, all_bytes}

pub record User : Type 0 where
  pub role : Text
  pub salt : Text
  pub hash : Text

abbrev pub Users : Type 0
Users = List (Text × User)

-- The zero value, which a missing name yields.
abbrev pub no_user : User
no_user = record { role = []; salt = []; hash = [] }

abbrev pub find_user : Text → Users → Option User
find_user name [] = none
find_user name ((n, u) ∷ rest) = if n == name then some u else find_user name rest

abbrev pub user_or_none : Option User → User
user_or_none none = no_user
user_or_none (some u) = u

-- `^[a-zA-Z0-9_.-]{1,64}$`
unfoldable pub valid_name : Text → Bool
valid_name name = not (is_nil name) && not (ltb 64 (length name)) && all_bytes identifier_byte name

unfoldable pub known_role : Text → Bool
known_role role = role == codes "viewer" || role == codes "editor"

abbrev pub zeros : ℕ → Text
zeros zero = []
zeros (suc n) = 0 ∷ zeros n

abbrev pub salt_of : Option Text → Text
salt_of none = zeros 16
salt_of (some salt) = if length salt == 16 then salt else zeros 16

-- A file that is not there holds no users.
abbrev pub users_or_none : Option Users → Users
users_or_none none = []
users_or_none (some users) = users

-- `users[name] = user`
unfoldable pub put_user : Text → User → Users → Users
put_user name u [] = (name, u) ∷ []
put_user name u ((n, old) ∷ rest) =
    if n == name then (n, u) ∷ rest else (n, old) ∷ put_user name u rest

-- `delete(users, name)`
unfoldable pub remove_user : Text → Users → Users
remove_user name [] = []
remove_user name ((n, u) ∷ rest) =
    let others = remove_user name rest in if n == name then others else (n, u) ∷ others

module _ (decode_hex : Text → Option Text) (encode_hex : Text → Text)
    (password_hash : Text → Text → Text) where
  unfoldable pub verify_password : User → Text → Bool
  verify_password u password =
      password_hash password (salt_of (decode_hex u.salt)) == u.hash && known_role u.role

  -- `SetUser` behind the directory and its lock: `users` is what the file holds, none for a file that is not
  -- there, and `salt` is what the random source gives. `none` is the error for what is refused.
  unfoldable pub set_user : Text → Text → Text → Bool → Option Users → Text → Option Users
  set_user name role password remove users salt =
      if not (valid_name name)
      then none
      else if not remove
          && (not (known_role role) || ltb (length password) 12 || ltb 1024 (length password))
      then none
      else some (
          if remove
          then remove_user name (users_or_none users)
          else put_user name
              (record { role = role; salt = encode_hex salt; hash = password_hash password salt })
              (users_or_none users))
