-- ===== src/Agent/Authorized.antt =====
-- What a request of an agent may do: the answer of `authenticateAgentRequest` of agent/server/auth.ts
-- against the rows of the database.
use mathlib.Core.Path.{subst}
use tokyo_tester.Base.{
  ℕ, ◌/◌, ◌≡◌, refl, ap, ◌∙◌, inl, inr, Bool, Bool-cases, true, not, ◌&&◌, ◌||◌, Option, none, some,
  List, [], ◌∷◌, all, any, arith, OnSome,
}
use tokyo_tester.Graph.Texts.{text_eq}
use tokyo_tester.Projects.Membership.{
  ProjectMembership, includes, allows, get_project_membership, user_has_project_permission,
}
use tokyo_tester.Projects.Permissions.{is_grant, user_has_project_permission-granted}
use tokyo_tester.Bundle.{is_empty}
use tokyo_tester.Agent.{
  AgentScope, scope_action, same_scope, has_scope, scopes_of, User, Database, AgentIdentity, Claims,
  Calls,
}
use tokyo_tester.Agent.Request.{
  Request, claimed_user, claimed_identity, permit, truthy, trimmed, or_empty, bearer,
  authenticate_personal_agent_token, verify_agent_assertion, for_claimed, for_claims,
  authenticate_agent_request,
}
use tokyo_tester.Agent.Identified.{WasFound, Identified, found_by, personal-Identified}

same_scope_eq : (s t : AgentScope) → same_scope s t ≡ true → s ≡ t
same_scope_eq s t h = ground arith

-- What holds of all required scopes holds of one of them.
of_all :
    (p : AgentScope → Bool) (s : AgentScope) (required : List AgentScope)
    → all p required ≡ true
    → has_scope s required ≡ true
    → p s ≡ true
of_all p s [] h k = cc
of_all p s (t ∷ ts) h k = ground (arith, same_scope_eq t s, of_all p s ts)

module _ (calls : Calls) where
  -- What a request of an agent may rely on for one of the scopes that it requires.
  pub record IsAuthorized (db : Database) (i : AgentIdentity) (s : AgentScope) : Type 0 where
    pub user : User
    pub found : WasFound db i.user_id user
    pub same : user.id ≡ i.user_id
    pub active : user.is_active ≡ true
    pub scoped : has_scope s i.scopes ≡ true
    pub exists : any (λ p. text_eq p.id i.project_id) db.rows.projects ≡ true
    pub granted :
        (user.is_admin
          || any (is_grant i.user_id i.project_id (scope_action s)) db.rows.project_members)
        ≡ true

  authorize :
      (db : Database) (i : AgentIdentity) (s : AgentScope)
      → Identified calls db i
      → has_scope s i.scopes ≡ true
      → includes (scope_action s) i.membership.allowed_actions ≡ true
      → IsAuthorized db i s
  unfolding user_has_project_permission
  authorize db i s k scoped allowed =
      let (there, may) =
        user_has_project_permission-granted i.user_id calls.name_before i.project_id
          (scope_action s) k.user.is_admin db.rows
          (ap (allows (scope_action s)) k.member ∙ allowed) in
      record {
        user = k.user;
        found = k.found;
        same = k.same;
        active = k.active;
        scoped = scoped;
        exists = there;
        granted = may;
      }

  -- For each required scope.
  abbrev Permitted : Database → List AgentScope → AgentIdentity → Type 0
  Permitted db required i = (s : AgentScope) → has_scope s required ≡ true → IsAuthorized db i s

  permit-Permitted :
      (db : Database) (required : List AgentScope) (o : Option AgentIdentity)
      → OnSome (Identified calls db) o
      → OnSome (Permitted db required) (permit required o)
  unfolding permit
  permit-Permitted db required none k = tt
  permit-Permitted db required (some i) k =
      let scoped = all (λ s. has_scope s i.scopes) required in
      let allowed = all (λ s. includes (scope_action s) i.membership.allowed_actions) required in
      elim (Bool-cases (scoped && allowed)) [
        | inl both ↦
            let one : scoped ≡ true = ground arith in
            let two : allowed ≡ true = ground arith in
            rw both (λ s h.
              authorize db i s k (of_all (λ r. has_scope r i.scopes) s required one h) (
                of_all (λ r. includes (scope_action r) i.membership.allowed_actions) s required two
                  h))
        | inr missing ↦ rw missing tt
      ]

  claimed_identity-Permitted :
      (required : List AgentScope) (claims : Claims) (u : User) (m : Option ProjectMembership)
      (db : Database)
      → WasFound db u.id u
      → u.is_active ≡ true
      → all (λ s. has_scope s (scopes_of claims.scopes)) required ≡ true
      → get_project_membership calls.name_before u.id claims.project_id u.is_admin db.rows ≡ m
      → OnSome (Permitted db required) (claimed_identity required claims u m)
  unfolding claimed_identity
  claimed_identity-Permitted required claims u none db f k c e = tt
  claimed_identity-Permitted required claims u (some m) db f k c e =
      let allowed = all (λ s. includes (scope_action s) m.allowed_actions) required in
      elim (Bool-cases allowed) [
        | inl yes_all ↦ rw yes_all (λ s h.
            authorize db _ s (record { user = u; found = f; same = refl; active = k; member = e })
              (of_all (λ r. has_scope r (scopes_of claims.scopes)) s required c h)
              (of_all (λ r. includes (scope_action r) m.allowed_actions) s required yes_all h))
        | inr missing ↦ rw missing tt
      ]

  for_claimed-Permitted :
      (required : List AgentScope) (claims : Claims) (o : Option User) (db : Database)
      → claimed_user (truthy claims.user_id) (truthy claims.email) db.users ≡ o
      → OnSome (Permitted db required) (for_claimed calls required claims o db)
  unfolding for_claimed
  for_claimed-Permitted required claims none db e = tt
  for_claimed-Permitted required claims (some u) db e =
      let scoped = all (λ s. has_scope s (scopes_of claims.scopes)) required in
      elim (Bool-cases (u.is_active && scoped)) [
        | inl both ↦
            let one : u.is_active ≡ true = ground arith in
            let two : scoped ≡ true = ground arith in
            rw both (
              claimed_identity-Permitted required claims u
                (get_project_membership calls.name_before u.id claims.project_id u.is_admin db.rows)
                db (found_by (truthy claims.user_id) (truthy claims.email) db u e) one two refl)
        | inr missing ↦ rw missing tt
      ]

  for_claims-Permitted :
      (required : List AgentScope) (o : Option Claims) (db : Database)
      → OnSome (Permitted db required) (for_claims calls required o db)
  unfolding for_claims
  for_claims-Permitted required none db = tt
  for_claims-Permitted required (some claims) db =
      for_claimed-Permitted required claims
        (claimed_user (truthy claims.user_id) (truthy claims.email) db.users) db refl

  request-Permitted :
      (now : ℕ) (request : Request) (required : List AgentScope) (db : Database)
      → OnSome (Permitted db required) (authenticate_agent_request calls now request required db).1
  unfolding authenticate_agent_request
  request-Permitted now request required db =
      let assertion = trimmed request.assertion in
      let claims = verify_agent_assertion calls assertion request.secret (now / 1000) in
      let token = bearer (or_empty request.authorization) in
      elim (Bool-cases (not (is_empty assertion))) [
        | inl asserted ↦ rw asserted (for_claims-Permitted required claims db)
        | inr bare ↦ elim (Bool-cases request.oauth) [
          | inl oauth ↦ rw (bare, oauth) tt
          | inr tokens ↦
              rw (bare, tokens)
                (permit-Permitted db required
                  (authenticate_personal_agent_token calls now token db).1
                  (personal-Identified calls now token db))
        ]
      ]

  -- Whoever a request of an agent is accepted from, by a token or by an assertion: for each scope that
  -- the request requires, the identity has the scope, its user is in the database and active, the
  -- project exists, and the user is an administrator of the platform or has a row in the members of
  -- that project with a role that allows what the scope is for.
  pub authenticate_agent_request-IsAuthorized :
      (now : ℕ) (request : Request) (required : List AgentScope) (db : Database) (i : AgentIdentity)
      (s : AgentScope)
      → (authenticate_agent_request calls now request required db).1 ≡ some i
      → has_scope s required ≡ true
      → IsAuthorized db i s
  authenticate_agent_request-IsAuthorized now request required db i s e h =
      subst (OnSome (Permitted db required)) e (request-Permitted now request required db) s h
