-- ===== src/Accounts/Logins.antt =====
-- Who can log in: service.ts of ui-v2/src/modules/auth/server.
use mathlib.Core.Path.{subst}
use mathlib.Core.Option.{some-injective}
use tokyo_tester.Base.{
  ◌≡◌, ◌≢◌, refl, ap, ◌∙◌, Bool, Bool-cases, inl, inr, true, false, not, ◌&&◌, Option, none, some,
  ◌⊎◌, List, [], ◌∷◌, ◌++◌, any, all, map, arith, if◌then◌else◌,
}
use tokyo_tester.Names.{Text}
use tokyo_tester.Graph.Texts.{text_eq, text_eq_iff, text_eq_refl, has}
use tokyo_tester.Bundle.{codes, is_empty}
use tokyo_tester.Projects.Membership.{Rows, ProjectMembership}
use tokyo_tester.Projects.Workspaces.{ensure_personal_project}
use tokyo_tester.Accounts.{
  Crypto, hash_password, UserRow, AuthUser, map_user, Database, find_by_email, map_found,
  get_user_by_email, normalize_email, is_setup_complete, login_as, verify_password_login, AuthError,
  already_complete, email_exists, unsupported_role, insert_failed, Fresh, CreateUserInput, or_true,
  meets, with_project, insert_user, known_roles, new_row, create_initial_admin, unless_found,
  create_user, set_user_active_state,
}
use tokyo_tester.Accounts.Passwords.{IsCrypto, verify_password-hash_password}

-- A call of the service, with what is random in it.
pub data Request : Type 0 where
  setup : Fresh → Text → Text → Text → Request
  add : Fresh → CreateUserInput → Request
  switch : Text → Bool → Request

abbrev pub serve : Crypto → Request → Database → Database
serve k (setup f email name password) db = (create_initial_admin k f email name password db).0
serve k (add f input) db = (create_user k f input db).0
serve k (switch i active) db = set_user_active_state i active db

abbrev pub serve_all : Crypto → List Request → Database → Database
serve_all k [] db = db
serve_all k (r ∷ requests) db = serve_all k requests (serve k r db)

-- Whether a request does not switch this user.
abbrev pub spares : Text → Request → Bool
spares i (switch j active) = not (text_eq j i)
spares i _ = true

none_ne : (r : UserRow) → none ≢ some r
none_ne r h = cc

find_by_email-append :
    (e : Text) (us vs : List UserRow) (r : UserRow)
    → find_by_email e us ≡ some r
    → find_by_email e (us ++ vs) ≡ some r
unfolding find_by_email
find_by_email-append e [] vs r h = cc
find_by_email-append e (u ∷ us) vs r h = ground (arith, find_by_email-append e us vs r)

find_by_email-last :
    (us : List UserRow) (r : UserRow)
    → find_by_email r.email us ≡ none
    → find_by_email r.email (us ++ r ∷ []) ≡ some r
unfolding find_by_email
find_by_email-last [] r h = rw (text_eq_refl r.email) refl
find_by_email-last (u ∷ us) r h = ground (arith, find_by_email-last us r)

-- The insert keeps the rows, whether it succeeds or not.
abbrev Kept : Text → UserRow → Database × (AuthError ⊎ AuthUser) → Type 0
Kept e r result = find_by_email e result.0.users ≡ some r

with_project-Kept :
    (e : Text) (r s : UserRow) (us : List UserRow) (o : Option (Rows × ProjectMembership))
    (db : Database)
    → find_by_email e us ≡ some r
    → Kept e r (with_project s us o db)
with_project-Kept e r s us none db h = h
with_project-Kept e r s us (some (rows, membership)) db h = h

module _ (k : Crypto) (e : Text) (r : UserRow) where
  insert_user-Kept :
      (p : Text) (s : UserRow) (db : Database)
      → find_by_email e db.users ≡ some r
      → Kept e r (insert_user p s db)
  unfolding insert_user
  insert_user-Kept p s db h = elim (Bool-cases (any (meets s) db.users)) [
    | inl met ↦ rw met h
    | inr free ↦ rw free (
        with_project-Kept e r s (db.users ++ s ∷ []) (ensure_personal_project p s.id db.rows) db
          (find_by_email-append e db.users (s ∷ []) r h))
  ]

  unless_found-Kept :
      (o : Option AuthUser) (x : Database × (AuthError ⊎ AuthUser)) (db : Database)
      → Kept e r x
      → find_by_email e db.users ≡ some r
      → Kept e r (unless_found o x db)
  unless_found-Kept none x db h g = h
  unless_found-Kept (some u) x db h g = g

  either-Kept :
      (b : Bool) (x y : Database × (AuthError ⊎ AuthUser))
      → Kept e r x
      → Kept e r y
      → Kept e r (if b then x else y)
  either-Kept true x y h g = h
  either-Kept false x y h g = g

  create_user-Kept :
      (f : Fresh) (input : CreateUserInput) (db : Database)
      → find_by_email e db.users ≡ some r
      → Kept e r (create_user k f input db)
  unfolding create_user
  create_user-Kept f input db h =
      let added = insert_user f.project_id (new_row k f input) db in
      unless_found-Kept (get_user_by_email (normalize_email input.email) db)
        (if not (has input.role known_roles) then (db, inl unsupported_role) else added) db
        (either-Kept (not (has input.role known_roles)) (db, inl unsupported_role) added h
          (insert_user-Kept f.project_id (new_row k f input) db h))
        h

  create_initial_admin-Kept :
      (f : Fresh) (email name password : Text) (db : Database)
      → find_by_email e db.users ≡ some r
      → Kept e r (create_initial_admin k f email name password db)
  unfolding create_initial_admin
  create_initial_admin-Kept f email name password db h =
      let row = new_row k f (record {
        email = email;
        name = name;
        password = password;
        role = codes "admin";
        is_active = none;
      }) in
      either-Kept (is_setup_complete db) (db, inl already_complete)
        (insert_user f.project_id row db) h (insert_user-Kept f.project_id row db h)

abbrev switched : Text → Bool → UserRow → UserRow
switched i active s = if text_eq s.id i then record s { is_active = active } else s

module _ (e i : Text) (active : Bool) where
  switched_here :
      (u : UserRow) (us : List UserRow)
      → text_eq u.email e ≡ true
      → find_by_email e (switched i active u ∷ us) ≡ some (switched i active u)
  unfolding find_by_email
  switched_here u us here = elim (Bool-cases (text_eq u.id i)) [
    | inl hit ↦ rw (hit, here) refl
    | inr miss ↦ rw (miss, here) refl
  ]

  switched_later :
      (u : UserRow) (us : List UserRow)
      → text_eq u.email e ≡ false
      → find_by_email e (switched i active u ∷ us) ≡ find_by_email e us
  unfolding find_by_email
  switched_later u us there = elim (Bool-cases (text_eq u.id i)) [
    | inl hit ↦ rw (hit, there) refl
    | inr miss ↦ rw (miss, there) refl
  ]

  find_by_email-switched :
      (us : List UserRow) (r : UserRow)
      → find_by_email e us ≡ some r
      → find_by_email e (map (switched i active) us) ≡ some (switched i active r)
  unfolding find_by_email
  find_by_email-switched [] r h = absurd (none_ne r h)
  find_by_email-switched (u ∷ us) r h = elim (Bool-cases (text_eq u.email e)) [
    | inl here ↦
        let same : u ≡ r =
          some-injective u r
            (subst (λ b. (if b then some u else find_by_email e us) ≡ some r) here h) in
        switched_here u (map (switched i active) us) here
        ∙ ap (λ s. some (switched i active s)) same
    | inr there ↦
        let rest = subst (λ b. (if b then some u else find_by_email e us) ≡ some r) there h in
        switched_later u (map (switched i active) us) there ∙ find_by_email-switched us r rest
  ]

module _ (k : Crypto) (e : Text) (r : UserRow) where
  serve-Kept :
      (request : Request) (db : Database)
      → spares r.id request ≡ true
      → find_by_email e db.users ≡ some r
      → find_by_email e (serve k request db).users ≡ some r
  unfolding set_user_active_state
  serve-Kept (setup f email name password) db s h =
      create_initial_admin-Kept k e r f email name password db h
  serve-Kept (add f input) db s h = create_user-Kept k e r f input db h
  serve-Kept (switch i active) db s h =
      let other : text_eq r.id i ≡ false = ground (arith, text_eq_iff r.id i, text_eq_iff i r.id) in
      find_by_email-switched e i active db.users r h ∙ rw other refl

  serve_all-Kept :
      (requests : List Request) (db : Database)
      → all (spares r.id) requests ≡ true
      → find_by_email e db.users ≡ some r
      → find_by_email e (serve_all k requests db).users ≡ some r
  serve_all-Kept [] db s h = h
  serve_all-Kept (q ∷ requests) db s h =
      serve_all-Kept requests (serve k q db) (ground arith) (serve-Kept q db (ground arith) h)

-- A call that succeeds leaves this row as the one with its address.
abbrev IsAdded : UserRow → Database × (AuthError ⊎ AuthUser) → Type 0
IsAdded r result = (u : AuthUser) → result.1 ≡ inr u → find_by_email r.email result.0.users ≡ some r

module _ (r : UserRow) where
  failed-IsAdded : (db : Database) (error : AuthError) → IsAdded r (db, inl error)
  failed-IsAdded db error u h = cc

  with_project-IsAdded :
      (us : List UserRow) (o : Option (Rows × ProjectMembership)) (db : Database)
      → find_by_email r.email us ≡ some r
      → IsAdded r (with_project r us o db)
  with_project-IsAdded us none db h u e = cc
  with_project-IsAdded us (some (rows, membership)) db h u e = h

  either-IsAdded :
      (b : Bool) (x y : Database × (AuthError ⊎ AuthUser))
      → IsAdded r x
      → IsAdded r y
      → IsAdded r (if b then x else y)
  either-IsAdded true x y h g = h
  either-IsAdded false x y h g = g

  insert_user-IsAdded :
      (p : Text) (db : Database)
      → find_by_email r.email db.users ≡ none
      → IsAdded r (insert_user p r db)
  unfolding insert_user
  insert_user-IsAdded p db h =
      let us = db.users ++ r ∷ [] in
      let o = ensure_personal_project p r.id db.rows in
      either-IsAdded (any (meets r) db.users) (db, inl insert_failed) (with_project r us o db)
        (failed-IsAdded db insert_failed)
        (with_project-IsAdded us o db (find_by_email-last db.users r h))

  unless_found-IsAdded :
      (o : Option UserRow) (x : Database × (AuthError ⊎ AuthUser)) (db : Database)
      → (o ≡ none → IsAdded r x)
      → IsAdded r (unless_found (map_found o) x db)
  unless_found-IsAdded none x db h = h refl
  unless_found-IsAdded (some s) x db h = failed-IsAdded db email_exists

create_user-IsAdded :
    (k : Crypto) (f : Fresh) (input : CreateUserInput) (db : Database)
    → IsAdded (new_row k f input) (create_user k f input db)
unfolding create_user get_user_by_email new_row
create_user-IsAdded k f input db =
    let r = new_row k f input in
    let added = insert_user f.project_id r db in
    let checked = if not (has input.role known_roles) then (db, inl unsupported_role) else added in
    unless_found-IsAdded r (find_by_email (normalize_email input.email) db.users) checked db
      (λ free.
        either-IsAdded r (not (has input.role known_roles)) (db, inl unsupported_role) added
          (failed-IsAdded r db unsupported_role) (insert_user-IsAdded r f.project_id db free))

both_gates :
    (a b : Bool) (u : AuthUser)
    → (if not a then none else if not b then none else some u) ≡ (if a && b then some u else none)
both_gates true true u = refl
both_gates true false u = refl
both_gates false b u = refl

module _ (k : Crypto) (law : IsCrypto k) (f : Fresh) (input : CreateUserInput) where
  -- Whether the entered password has the key of the one that was set.
  abbrev pub same_key : Text → Bool
  same_key q = text_eq (k.scrypt q (k.to_hex f.salt)) (k.scrypt input.password (k.to_hex f.salt))

  login_as-new_row :
      (q : Text)
      → is_empty (k.to_hex f.salt) ≡ false
      → login_as k q (some (map_user (new_row k f input))) ≡ (
          if or_true input.is_active && same_key q
          then some (map_user (new_row k f input))
          else none)
  unfolding login_as map_user new_row hash_password
  login_as-new_row q h =
      let checked = (verify_password-hash_password k law f.salt input.password q h).0 in
      let u = map_user (new_row k f input) in
      ap (λ b. if not (or_true input.is_active) then none else if not b then none else some u)
        checked
      ∙ both_gates (or_true input.is_active) (same_key q) u

  login_as-switched :
      (q : Text)
      → login_as k q (some (map_user (switched f.user_id false (new_row k f input)))) ≡ none
  unfolding login_as map_user new_row
  login_as-switched q = rw (text_eq_refl f.user_id) refl

  login-found :
      (email q : Text) (r : UserRow) (db : Database)
      → find_by_email (normalize_email email) db.users ≡ some r
      → verify_password_login k email q db ≡ login_as k q (some (map_user r))
  unfolding verify_password_login get_user_by_email
  login-found email q r db h = ap (λ o. login_as k q (map_found o)) h

  -- A user is created, and any requests follow that do not switch this user. A log-in with the address
  -- that was given, up to letter case and surrounding space, succeeds exactly if the user was created as
  -- an active one and the key of the password is that of the one that was set, and it returns this user;
  -- once the user is switched off, it fails with any password.
  pub create_user-login :
      (db : Database) (u : AuthUser) (requests : List Request) (email q : Text)
      → (create_user k f input db).1 ≡ inr u
      → is_empty (k.to_hex f.salt) ≡ false
      → all (spares f.user_id) requests ≡ true
      → normalize_email email ≡ normalize_email input.email
      → (verify_password_login k email q (serve_all k requests (create_user k f input db).0) ≡ (
          if or_true input.is_active && same_key q
          then some (map_user (new_row k f input))
          else none))
        × (verify_password_login k email q (
              set_user_active_state f.user_id false
                (serve_all k requests (create_user k f input db).0))
            ≡ none)
  unfolding new_row set_user_active_state
  create_user-login db u requests email q created salted spared same =
      let r = new_row k f input in
      let later = serve_all k requests (create_user k f input db).0 in
      let kept : find_by_email (normalize_email input.email) later.users ≡ some r =
        serve_all-Kept k r.email r requests (create_user k f input db).0 spared
          (create_user-IsAdded k f input db u created) in
      let found : find_by_email (normalize_email email) later.users ≡ some r =
        ap (λ e. find_by_email e later.users) same ∙ kept in
      let off =
        find_by_email-switched (normalize_email email) f.user_id false later.users r found in
      (
        login-found email q r later found ∙ login_as-new_row q salted,
        login-found email q (switched f.user_id false r)
              (set_user_active_state f.user_id false later) off
            ∙ login_as-switched q,
      )
