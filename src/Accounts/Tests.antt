-- ===== src/Accounts/Tests.antt =====
-- A user who is created, renamed in other letters, and switched off, with a model of the calls of
-- node:crypto that has their laws.
use tokyo_tester.Base.{
  ℕ, ◌+◌, ◌-◌, ◌≡◌, refl, true, false, ◌&&◌, none, some, inr, List, [], ◌∷◌, map, any, ◌==◌, arith,
  if◌then◌else◌,
}
use tokyo_tester.Names.{Text, to_lower}
use tokyo_tester.Scenario.{is_space}
use tokyo_tester.Graph.Texts.{text_eq, has}
use tokyo_tester.Bundle.{codes, trim, trim_start, trim_end}
use tokyo_tester.Projects.Workspaces.{
  ensure_personal_project, with_personal, insert_personal, find_existing, own_personal,
}
use tokyo_tester.Accounts.{
  Crypto, verify_password, hash_password, map_user, find_by_email, get_user_by_email,
  normalize_email, verify_password_login, Database, Fresh, CreateUserInput, or_true, new_row,
  inserted, create_user, insert_user, set_user_active_state,
}
use tokyo_tester.Accounts.Passwords.{IsCrypto, verify_password-hash_password}
use tokyo_tester.Accounts.Logins.{Request, add, switch, serve_all, same_key, create_user-login}

abbrev sum : Text → ℕ
sum [] = 0
sum (c ∷ t) = c + sum t

abbrev shifted_back : Text → List ℕ
shifted_back [] = []
shifted_back (c ∷ t) = map (λ d. d - 59) t

abbrev simple : Crypto
simple = record {
  scrypt = λ p s. (sum p + sum s) ∷ [];
  to_hex = λ b. b'x' ∷ map (λ c. c + 59) b;
  from_hex = shifted_back;
  timing_safe_equal = text_eq;
}

back_and_forth : (b : List ℕ) → map (λ d. d - 59) (map (λ c. c + 59) b) ≡ b
back_and_forth [] = refl
back_and_forth (c ∷ b) = ground (arith, back_and_forth b)

plain : (b : List ℕ) → any (λ c. c == b':') (map (λ c. c + 59) b) ≡ false
plain [] = refl
plain (c ∷ b) = ground (arith, plain b)

simple-IsCrypto : IsCrypto simple
simple-IsCrypto = record {
  key_length = λ p q s. refl;
  key_IsSome = λ p s. refl;
  from_to_hex = back_and_forth;
  hex_plain = λ b. plain b;
  compares = λ b c. refl;
}

abbrev fresh : Fresh
fresh = record { user_id = codes "u1"; project_id = codes "p1"; salt = 7 ∷ [] }

abbrev ann : CreateUserInput
ann = record {
  email = codes " Ann@Example.org";
  name = codes "Ann";
  password = codes "secret";
  role = codes "normal";
  is_active = none;
}

abbrev start : Database
start = record { users = []; rows = record { projects = []; project_members = [] } }

abbrev later : List Request
later = switch (codes "u2") false ∷ add (record fresh { user_id = codes "u3" }) ann ∷ []

created : (create_user simple fresh ann start).1 ≡ inr (inserted (new_row simple fresh ann))
unfolding create_user insert_user get_user_by_email find_by_email ensure_personal_project
    with_personal insert_personal find_existing own_personal has text_eq new_row
created = refl

same_address : normalize_email (codes "ANN@example.org ") ≡ normalize_email ann.email
unfolding normalize_email trim trim_start trim_end to_lower is_space
same_address = refl

verify_password-hash_password_example :
    (verify_password simple (codes "other") (some (hash_password simple (7 ∷ []) (codes "secret")))
      ≡ text_eq
          (simple.scrypt (codes "other") (simple.to_hex (7 ∷ [])))
          (simple.scrypt (codes "secret") (simple.to_hex (7 ∷ []))))
    × (verify_password simple
          (codes "secret")
          (some (hash_password simple (7 ∷ []) (codes "secret")))
        ≡ true)
verify_password-hash_password_example =
    verify_password-hash_password simple simple-IsCrypto (7 ∷ []) (codes "secret") (codes "other")
      refl

create_user-login_example :
    (verify_password_login simple
        (codes "ANN@example.org ")
        (codes "secret")
        (serve_all simple later (create_user simple fresh ann start).0)
      ≡ (if or_true ann.is_active && same_key simple simple-IsCrypto fresh ann (codes "secret")
          then some (map_user (new_row simple fresh ann))
          else none))
    × (verify_password_login simple (codes "ANN@example.org ") (codes "secret") (
          set_user_active_state
            (codes "u1")
            false
            (serve_all simple later (create_user simple fresh ann start).0))
        ≡ none)
unfolding text_eq
create_user-login_example =
    create_user-login simple simple-IsCrypto fresh ann start (inserted (new_row simple fresh ann))
      later (codes "ANN@example.org ") (codes "secret") created refl refl same_address
