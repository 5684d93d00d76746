-- ===== src/Agent/Revoked.antt =====
-- The row that a token of agent/server/auth.ts is accepted by, and tokens that `revokeAgentToken` ends.
use mathlib.Core.Path.{subst}
use tokyo_tester.Base.{
  ℕ, ◌<◌, ◌≡◌, refl, ap, ◌∙◌, Bool, Bool-cases, inl, inr, true, false, ◌&&◌, Option, none, some,
  List, [], ◌∷◌, filter, ltb, arith, OnSome,
}
use tokyo_tester.Names.{Text}
use tokyo_tester.Graph.Texts.{text_eq, text_eq_iff}
use tokyo_tester.Projects.Membership.{ProjectMembership, includes, get_project_membership}
use tokyo_tester.Bundle.{codes}
use tokyo_tester.Agent.{
  AgentScope, scope_action, has_scope, scopes_of, User, TokenRow, Database, AgentIdentity, Calls,
  is_unset, revoke_rows, revoke_agent_token, find_token, get_user_by_id, after_start,
}
use tokyo_tester.Agent.Request.{
  is_nil, effective, identify, for_user, for_scopes, for_token, for_prefixed,
  authenticate_personal_agent_token,
}

has_scope-filter :
    (p : AgentScope → Bool) (s : AgentScope) (ss : List AgentScope)
    → has_scope s (filter p ss) ≡ true
    → has_scope s ss ≡ true
has_scope-filter p s [] h = h
has_scope-filter p s (t ∷ ts) h = ground (arith, has_scope-filter p s ts)

module _ (calls : Calls) (now : ℕ) where
  -- The identity is that of this row, with no scope that the row does not give.
  pub record IsOf (t : TokenRow) (i : AgentIdentity) : Type 0 where
    pub same_token : i.token_id ≡ t.id
    pub same_user : i.user_id ≡ t.user_id
    pub same_project : i.project_id ≡ t.project_id
    pub given :
        (s : AgentScope)
        → has_scope s i.scopes ≡ true
        → (texts : List Text) × ((calls.parse_list t.scopes ≡ some texts)
            × (has_scope s (scopes_of texts) ≡ true))

  identify-IsOf :
      (t : TokenRow) (texts : List Text) (m : Option ProjectMembership) (db : Database)
      → calls.parse_list t.scopes ≡ some texts
      → OnSome (IsOf t) (identify calls now t (scopes_of texts) m db).1
  unfolding identify effective
  identify-IsOf t texts none db e = tt
  identify-IsOf t texts (some m) db e =
      elim (Bool-cases
        (is_nil (filter (λ s. includes (scope_action s) m.allowed_actions) (scopes_of texts)))) [
          | inl empty ↦ rw empty tt
          | inr full ↦ rw full (record {
            same_token = refl;
            same_user = refl;
            same_project = refl;
            given = λ s h. (
              texts,
              (
                e,
                has_scope-filter (λ r. includes (scope_action r) m.allowed_actions) s
                    (scopes_of texts) h,
              ),
            );
          })
        ]

  for_user-IsOf :
      (t : TokenRow) (texts : List Text) (o : Option User) (db : Database)
      → calls.parse_list t.scopes ≡ some texts
      → OnSome (IsOf t) (for_user calls now t (scopes_of texts) o db).1
  unfolding for_user
  for_user-IsOf t texts none db e = tt
  for_user-IsOf t texts (some u) db e = elim (Bool-cases u.is_active) [
    | inl active ↦ rw active (
        identify-IsOf t texts
          (get_project_membership calls.name_before t.user_id t.project_id u.is_admin db.rows) db e)
    | inr inactive ↦ rw inactive tt
  ]

  for_scopes-IsOf :
      (t : TokenRow) (l : Option (List Text)) (db : Database)
      → calls.parse_list t.scopes ≡ l
      → OnSome (IsOf t) (for_scopes calls now t l db).1
  unfolding for_scopes
  for_scopes-IsOf t none db e = tt
  for_scopes-IsOf t (some texts) db e =
      for_user-IsOf t texts (get_user_by_id t.user_id db.users) db e

  -- A row of the database for the token, that has not expired and is not revoked.
  pub record IsLive (token : Text) (ts : List TokenRow) (t : TokenRow) : Type 0 where
    pub stored : find_token now (calls.token_hash token) ts ≡ some t
    pub hashed : t.token_hash ≡ calls.token_hash token
    pub lasts : now < t.expires_at
    pub kept : is_unset t.revoked_at ≡ true

  find_token-IsLive :
      (hash : Text) (ts : List TokenRow) (t : TokenRow)
      → find_token now hash ts ≡ some t
      → (t.token_hash ≡ hash) × ((now < t.expires_at) × (is_unset t.revoked_at ≡ true))
  unfolding find_token
  find_token-IsLive hash [] t h = cc
  find_token-IsLive hash (u ∷ us) t h =
      elim (Bool-cases
        (text_eq u.token_hash hash && (ltb now u.expires_at && is_unset u.revoked_at))) [
          | inl ok ↦
              let same : u ≡ t = ground arith in
              subst
                (λ v.
                  (v.token_hash ≡ hash) × ((now < v.expires_at) × (is_unset v.revoked_at ≡ true)))
                same (ground (arith, text_eq_iff u.token_hash hash), (ground arith, ground arith))
          | inr other ↦ find_token-IsLive hash us t (ground arith)
        ]

  for_token-IsLive :
      (token : Text) (o : Option TokenRow) (db : Database)
      → find_token now (calls.token_hash token) db.agent_tokens ≡ o
      → OnSome
          (λ i. (t : TokenRow) × (IsLive token db.agent_tokens t × IsOf t i))
          (for_token calls now o db).1
  unfolding for_token
  for_token-IsLive token none db e = tt
  for_token-IsLive token (some t) db e =
      let (hashed, (lasts, kept)) =
        find_token-IsLive (calls.token_hash token) db.agent_tokens t e in
      with_row t (record { stored = e; hashed = hashed; lasts = lasts; kept = kept })
        (for_scopes calls now t (calls.parse_list t.scopes) db).1
        (for_scopes-IsOf t (calls.parse_list t.scopes) db refl)
    where
      with_row :
          (t : TokenRow)
          → IsLive token db.agent_tokens t
          → (o : Option AgentIdentity) → OnSome (IsOf t) o
          → OnSome (λ i. (t : TokenRow) × (IsLive token db.agent_tokens t × IsOf t i)) o
      with_row t l none k = tt
      with_row t l (some i) k = (t, (l, k))

  personal-IsLive :
      (token : Text) (db : Database)
      → OnSome
          (λ i. (t : TokenRow) × (IsLive token db.agent_tokens t × IsOf t i))
          (authenticate_personal_agent_token calls now token db).1
  unfolding authenticate_personal_agent_token for_prefixed
  personal-IsLive token db = prefixed (after_start (codes "tt_pat_") token)
    where
      prefixed :
          (o : Option Text)
          → OnSome
              (λ i. (t : TokenRow) × (IsLive token db.agent_tokens t × IsOf t i))
              (for_prefixed calls now token o db).1
      prefixed none = tt
      prefixed (some rest) =
          for_token-IsLive token (find_token now (calls.token_hash token) db.agent_tokens) db refl

  -- A token is accepted only by a row of the database that holds its hash, has not expired and is not
  -- revoked, and the identity is that of the row, with none but scopes that the row gives.
  pub authenticate_personal_agent_token-IsLive :
      (token : Text) (db : Database) (i : AgentIdentity)
      → (authenticate_personal_agent_token calls now token db).1 ≡ some i
      → (t : TokenRow) × (IsLive token db.agent_tokens t × IsOf t i)
  authenticate_personal_agent_token-IsLive token db i e =
      subst (OnSome (λ j. (t : TokenRow) × (IsLive token db.agent_tokens t × IsOf t j))) e
        (personal-IsLive token db)

  -- The next row is only found if it is not revoked.
  find_token-cons :
      (P : TokenRow → Type 0) (hash : Text) (u : TokenRow) (us : List TokenRow)
      → (is_unset u.revoked_at ≡ true → P u)
      → OnSome P (find_token now hash us)
      → OnSome P (find_token now hash (u ∷ us))
  unfolding find_token
  find_token-cons P hash u us f k =
      elim (Bool-cases
        (text_eq u.token_hash hash && (ltb now u.expires_at && is_unset u.revoked_at))) [
          | inl ok ↦ let kept : is_unset u.revoked_at ≡ true = ground arith in rw ok (f kept)
          | inr other ↦ rw other k
        ]

  -- A row of another token or another user.
  abbrev IsOther : Text → Text → TokenRow → Type 0
  IsOther user i t = (text_eq t.id i && text_eq t.user_id user) ≡ false

  find_token-nil : (P : TokenRow → Type 0) (hash : Text) → OnSome P (find_token now hash [])
  unfolding find_token
  find_token-nil P hash = tt

  find_token-revoke_rows :
      (at : ℕ) (user i hash : Text) (ts : List TokenRow)
      → OnSome (IsOther user i) (find_token now hash (revoke_rows at user i ts))
  unfolding revoke_rows
  find_token-revoke_rows at user i hash [] = find_token-nil (IsOther user i) hash
  find_token-revoke_rows at user i hash (u ∷ us) =
      let rest = find_token-revoke_rows at user i hash us in
      elim (Bool-cases (text_eq u.id i && (text_eq u.user_id user && is_unset u.revoked_at))) [
        | inl mine ↦ rw mine (
            find_token-cons (IsOther user i) hash (record u { revoked_at = some at }) _ (λ h. cc)
              rest)
        | inr other ↦ rw other (find_token-cons (IsOther user i) hash u _ (λ h. ground arith) rest)
      ]

  -- Once a user has revoked a token, at whatever time, it is not accepted any more: no identity that
  -- any token gives then has its id and that user.
  pub revoke_agent_token-ends :
      (at : ℕ) (user i token : Text) (db : Database) (j : AgentIdentity)
      → (authenticate_personal_agent_token calls now token (revoke_agent_token at user i db)).1
        ≡ some j
      → (text_eq j.token_id i && text_eq j.user_id user) ≡ false
  unfolding revoke_agent_token
  revoke_agent_token-ends at user i token db j e =
      let (t, (l, o)) =
        authenticate_personal_agent_token-IsLive token (revoke_agent_token at user i db) j e in
      ap (λ k. text_eq k i && text_eq j.user_id user) o.same_token
      ∙ ap (λ k. text_eq t.id i && text_eq k user) o.same_user
      ∙ subst (OnSome (IsOther user i)) l.stored
          (find_token-revoke_rows at user i (calls.token_hash token) db.agent_tokens)
