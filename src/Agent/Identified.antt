-- ===== src/Agent/Identified.antt =====
-- The identity that a token or an assertion gives in agent/server/auth.ts.
use tokyo_tester.Base.{
  ℕ, ◌≡◌, refl, ap, ◌∙◌, ◌⊎◌, inl, inr, Bool-cases, true, Option, none, some, List, [], ◌∷◌, map,
  arith, OnSome,
}
use tokyo_tester.Names.{Text, to_lower}
use tokyo_tester.Graph.Texts.{text_eq_iff}
use tokyo_tester.Projects.Membership.{ProjectMembership, get_project_membership}
use tokyo_tester.Bundle.{codes, trim}
use tokyo_tester.Agent.{
  AgentScope, scopes_of, User, TokenRow, Database, AgentIdentity, Calls, get_user_by_id,
  get_user_by_email, find_token, after_start,
}
use tokyo_tester.Agent.Request.{
  is_nil, effective, claimed_user, identify, for_user, for_scopes, for_token, for_prefixed,
  authenticate_personal_agent_token,
}

pub get_user_by_id-id :
    (i : Text) (us : List User) (u : User) → get_user_by_id i us ≡ some u → u.id ≡ i
unfolding get_user_by_id
get_user_by_id-id i [] u h = cc
get_user_by_id-id i (v ∷ us) u h = ground (arith, text_eq_iff v.id i, get_user_by_id-id i us u)

-- The user was found by this id or by an address.
abbrev pub WasFound : Database → Text → User → Type 0
WasFound db i u =
    (get_user_by_id i db.users ≡ some u) ⊎ ((e : Text) × (get_user_by_email e db.users ≡ some u))

pub found_by :
    (a b : Option Text) (db : Database) (u : User)
    → claimed_user a b db.users ≡ some u
    → WasFound db u.id u
unfolding claimed_user
found_by (some i) b db u h =
    inl (ap (λ j. get_user_by_id j db.users) (get_user_by_id-id i db.users u h) ∙ h)
found_by none (some e) db u h = inr (map to_lower (trim e), h)
found_by none none db u h = cc

module _ (calls : Calls) where
  -- The identity is of an active user, with the membership that the rows give.
  pub record Identified (db : Database) (i : AgentIdentity) : Type 0 where
    pub user : User
    pub found : WasFound db i.user_id user
    pub same : user.id ≡ i.user_id
    pub active : user.is_active ≡ true
    pub member :
        get_project_membership calls.name_before i.user_id i.project_id user.is_admin db.rows
        ≡ some i.membership

  identify-Identified :
      (now : ℕ) (t : TokenRow) (scopes : List AgentScope) (u : User) (m : Option ProjectMembership)
      (db : Database)
      → get_user_by_id t.user_id db.users ≡ some u
      → u.is_active ≡ true
      → get_project_membership calls.name_before t.user_id t.project_id u.is_admin db.rows ≡ m
      → OnSome (Identified db) (identify calls now t scopes m db).1
  unfolding identify
  identify-Identified now t scopes u none db e k f = tt
  identify-Identified now t scopes u (some m) db e k f =
      elim (Bool-cases (is_nil (effective m scopes))) [
        | inl empty ↦ rw empty tt
        | inr full ↦ rw full (record {
          user = u;
          found = inl e;
          same = get_user_by_id-id t.user_id db.users u e;
          active = k;
          member = f;
        })
      ]

  for_user-Identified :
      (now : ℕ) (t : TokenRow) (scopes : List AgentScope) (o : Option User) (db : Database)
      → get_user_by_id t.user_id db.users ≡ o
      → OnSome (Identified db) (for_user calls now t scopes o db).1
  unfolding for_user
  for_user-Identified now t scopes none db e = tt
  for_user-Identified now t scopes (some u) db e = elim (Bool-cases u.is_active) [
    | inl active ↦ rw active (
        identify-Identified now t scopes u
          (get_project_membership calls.name_before t.user_id t.project_id u.is_admin db.rows) db e
          active refl)
    | inr inactive ↦ rw inactive tt
  ]

  for_scopes-Identified :
      (now : ℕ) (t : TokenRow) (l : Option (List Text)) (db : Database)
      → OnSome (Identified db) (for_scopes calls now t l db).1
  unfolding for_scopes
  for_scopes-Identified now t none db = tt
  for_scopes-Identified now t (some ts) db =
      for_user-Identified now t (scopes_of ts) (get_user_by_id t.user_id db.users) db refl

  for_token-Identified :
      (now : ℕ) (o : Option TokenRow) (db : Database)
      → OnSome (Identified db) (for_token calls now o db).1
  unfolding for_token
  for_token-Identified now none db = tt
  for_token-Identified now (some t) db = for_scopes-Identified now t (calls.parse_list t.scopes) db

  for_prefixed-Identified :
      (now : ℕ) (token : Text) (o : Option Text) (db : Database)
      → OnSome (Identified db) (for_prefixed calls now token o db).1
  unfolding for_prefixed
  for_prefixed-Identified now token none db = tt
  for_prefixed-Identified now token (some rest) db =
      for_token-Identified now (find_token now (calls.token_hash token) db.agent_tokens) db

  pub personal-Identified :
      (now : ℕ) (token : Text) (db : Database)
      → OnSome (Identified db) (authenticate_personal_agent_token calls now token db).1
  unfolding authenticate_personal_agent_token
  personal-Identified now token db =
      for_prefixed-Identified now token (after_start (codes "tt_pat_") token) db
