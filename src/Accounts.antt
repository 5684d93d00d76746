-- ===== src/Accounts.antt =====
-- ui-v2/src/modules/auth/server: password.ts, repository.ts and service.ts, over the rows of `users` and
-- of the projects. The calls of node:crypto and Buffer are an argument, as are the random ids and salts.
-- Letters are those of ASCII. For either database an insert that meets a unique column throws.
pub mod Passwords
pub mod Logins
mod Tests
use tokyo_tester.Base.{
  Bool, true, false, not, ◌&&◌, ◌||◌, Option, none, some, ◌⊎◌, inl, inr, List, [], ◌∷◌, ◌++◌, map,
  any, length, ℕ, ◌==◌, if◌then◌else◌,
}
use tokyo_tester.Names.{Text, to_lower}
use tokyo_tester.Graph.Texts.{text_eq, has}
use tokyo_tester.Bundle.{codes, trim, is_empty}
use tokyo_tester.Projects.Membership.{Rows, ProjectMembership}
use tokyo_tester.Projects.Workspaces.{ensure_personal_project}

-- `scrypt` with a key of 64 bytes, `toString("hex")` and `Buffer.from(…, "hex")`, `timingSafeEqual`.
pub record Crypto : Type 0 where
  pub scrypt : Text → Text → List ℕ
  pub to_hex : List ℕ → Text
  pub from_hex : Text → List ℕ
  pub timing_safe_equal : List ℕ → List ℕ → Bool

abbrev pub colon : ℕ
colon = b':'

abbrev pub onto_first : ℕ → List Text → List Text
onto_first c [] = (c ∷ []) ∷ []
onto_first c (w ∷ ws) = (c ∷ w) ∷ ws

-- `.split(":")`
unfoldable pub split_parts : Text → List Text
split_parts [] = [] ∷ []
split_parts (c ∷ t) =
    let rest = split_parts t in if c == colon then [] ∷ rest else onto_first c rest

unfoldable pub hash_password : Crypto → List ℕ → Text → Text
hash_password k salt_bytes password =
    let salt = k.to_hex salt_bytes in
    codes "scrypt" ++ colon ∷ (salt ++ colon ∷ k.to_hex (k.scrypt password salt))

-- `[algorithm, salt, expectedHash]`
unfoldable pub verify_parts : Crypto → Text → List Text → Bool
verify_parts k password (algorithm ∷ salt ∷ expected ∷ _) =
    if not (text_eq algorithm (codes "scrypt")) || (is_empty salt || is_empty expected)
    then false
    else if not (length (k.scrypt password salt) == length (k.from_hex expected))
    then false
    else k.timing_safe_equal (k.scrypt password salt) (k.from_hex expected)
verify_parts k password _ = false

unfoldable pub verify_password : Crypto → Text → Option Text → Bool
verify_password k password none = false
verify_password k password (some stored) =
    if is_empty stored then false else verify_parts k password (split_parts stored)

-- A row of `users`, with the columns that the code here reads.
pub record UserRow : Type 0 where
  pub id : Text
  pub email : Text
  pub name : Text
  pub password_hash : Option Text
  pub role : Text
  pub is_active : Bool

pub record AuthUser : Type 0 where
  pub id : Text
  pub email : Text
  pub name : Option Text
  pub role : Text
  pub is_active : Bool
  pub password_hash : Option Text

abbrev pub unless_empty : Option Text → Option Text
unless_empty none = none
unless_empty (some t) = if is_empty t then none else some t

unfoldable pub map_user : UserRow → AuthUser
map_user r = record {
  id = r.id;
  email = r.email;
  name = unless_empty (some r.name);
  role = r.role;
  is_active = r.is_active;
  password_hash = unless_empty r.password_hash;
}

-- What a call that creates a user returns, with PostgreSQL; with MySQL `createUser` returns the mapped
-- row, which differs where the name is empty.
abbrev pub inserted : UserRow → AuthUser
inserted r = record {
  id = r.id;
  email = r.email;
  name = some r.name;
  role = r.role;
  is_active = r.is_active;
  password_hash = r.password_hash;
}

pub record Database : Type 0 where
  pub users : List UserRow
  pub rows : Rows

unfoldable pub find_by_email : Text → List UserRow → Option UserRow
find_by_email e [] = none
find_by_email e (r ∷ rs) = if text_eq r.email e then some r else find_by_email e rs

abbrev pub map_found : Option UserRow → Option AuthUser
map_found none = none
map_found (some r) = some (map_user r)

unfoldable pub get_user_by_email : Text → Database → Option AuthUser
get_user_by_email e db = map_found (find_by_email e db.users)

unfoldable pub normalize_email : Text → Text
normalize_email e = map to_lower (trim e)

abbrev pub is_nil : List UserRow → Bool
is_nil [] = true
is_nil (_ ∷ _) = false

unfoldable pub is_setup_complete : Database → Bool
is_setup_complete db = not (is_nil db.users)

unfoldable pub login_as : Crypto → Text → Option AuthUser → Option AuthUser
login_as k password none = none
login_as k password (some u) =
    if not u.is_active
    then none
    else if not (verify_password k password u.password_hash)
    then none
    else some u

unfoldable pub verify_password_login : Crypto → Text → Text → Database → Option AuthUser
verify_password_login k email password db =
    login_as k password (get_user_by_email (normalize_email email) db)

pub data AuthError : Type 0 where
  already_complete email_exists unsupported_role insert_failed no_project : AuthError

-- What is random in a call: the id of the user, that of a project, and the salt.
pub record Fresh : Type 0 where
  pub user_id : Text
  pub project_id : Text
  pub salt : List ℕ

pub record CreateUserInput : Type 0 where
  pub email : Text
  pub name : Text
  pub password : Text
  pub role : Text
  pub is_active : Option Bool

abbrev pub or_true : Option Bool → Bool
or_true none = true
or_true (some b) = b

abbrev pub meets : UserRow → UserRow → Bool
meets r s = text_eq s.id r.id || text_eq s.email r.email

abbrev pub with_project :
    UserRow
    → List UserRow
    → Option (Rows × ProjectMembership)
    → Database
    → Database × (AuthError ⊎ AuthUser)
with_project r users none db = (record { users = users; rows = db.rows }, inl no_project)
with_project r users (some (rows, membership)) db =
    (record { users = users; rows = rows }, inr (inserted r))

-- The insert, then `ensurePersonalProject`.
unfoldable pub insert_user : Text → UserRow → Database → Database × (AuthError ⊎ AuthUser)
insert_user project r db =
    if any (meets r) db.users
    then (db, inl insert_failed)
    else with_project r (db.users ++ r ∷ []) (ensure_personal_project project r.id db.rows) db

abbrev pub known_roles : List Text
known_roles = codes "admin" ∷ codes "normal" ∷ []

-- The row of a new user; a role that is known is not empty.
unfoldable pub new_row : Crypto → Fresh → CreateUserInput → UserRow
new_row k f input = record {
  id = f.user_id;
  email = normalize_email input.email;
  name = trim input.name;
  password_hash = some (hash_password k f.salt input.password);
  role = input.role;
  is_active = or_true input.is_active;
}

unfoldable pub create_initial_admin :
    Crypto → Fresh → Text → Text → Text → Database → Database × (AuthError ⊎ AuthUser)
create_initial_admin k f email name password db =
    if is_setup_complete db
    then (db, inl already_complete)
    else insert_user f.project_id
        (new_row k f (record {
          email = email;
          name = name;
          password = password;
          role = codes "admin";
          is_active = none;
        }))
        db

abbrev pub unless_found :
    Option AuthUser
    → Database × (AuthError ⊎ AuthUser)
    → Database
    → Database × (AuthError ⊎ AuthUser)
unless_found none created db = created
unless_found (some u) created db = (db, inl email_exists)

unfoldable pub create_user :
    Crypto → Fresh → CreateUserInput → Database → Database × (AuthError ⊎ AuthUser)
create_user k f input db =
    unless_found (get_user_by_email (normalize_email input.email) db)
      (if not (has input.role known_roles)
        then (db, inl unsupported_role)
        else insert_user f.project_id (new_row k f input) db)
      db

unfoldable pub set_user_active_state : Text → Bool → Database → Database
set_user_active_state i active db = record db {
  users = map (λ r. if text_eq r.id i then record r { is_active = active } else r) db.users;
}
