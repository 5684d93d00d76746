-- ===== src/Agent/Request.antt =====
-- `authenticatePersonalAgentToken` and `authenticateAgentRequest` of agent/server/auth.ts, and
-- `verifyAgentAssertion` of agent/server/internal-assertion.ts.
use tokyo_tester.Base.{
  ℕ, ◌+◌, ◌/◌, Bool, true, false, not, ◌&&◌, ◌||◌, Option, none, some, List, [], ◌∷◌, ◌++◌, map,
  filter, all, length, ltb, leb, ◌==◌, if◌then◌else◌,
}
use tokyo_tester.Names.{Text, to_lower}
use tokyo_tester.Graph.Texts.{text_eq}
use tokyo_tester.Projects.Membership.{ProjectMembership, includes, get_project_membership}
use tokyo_tester.Bundle.{codes, is_empty, trim}
use tokyo_tester.Agent.{
  AgentScope, read, workflow_write, run, scope_action, has_scope, scope_of, scopes_of, User,
  TokenRow, Database, AgentIdentity, Claims, Header, Calls, get_user_by_id, get_user_by_email,
  find_token, touch_token, after_start, split_at,
}

abbrev pub is_nil : List AgentScope → Bool
is_nil [] = true
is_nil (_ ∷ _) = false

-- The scopes whose action the membership allows.
unfoldable pub effective : ProjectMembership → List AgentScope → List AgentScope
effective m ss = filter (λ s. includes (scope_action s) m.allowed_actions) ss

-- What the headers of a request and the environment give.
pub record Request : Type 0 where
  pub assertion : Option Text
  pub authorization : Option Text
  pub secret : Text
  pub oauth : Bool

abbrev pub is_scope : Option AgentScope → Bool
is_scope none = false
is_scope (some s) = true

-- The long condition on the header and the claims, turned round.
unfoldable pub is_current : Header → Claims → ℕ → Bool
is_current header claims now =
    (text_eq header.alg (codes "HS256") && text_eq header.typ (codes "JWT"))
    && (text_eq claims.iss (codes "tokyo-mcp")
        && (text_eq claims.aud (codes "tokyo-ui-agent-api")
            && (not (ltb (now + 30) claims.iat)
                && (not (leb claims.exp now)
                    && (not (ltb (claims.iat + 120) claims.exp)
                        && all (λ t. is_scope (scope_of t)) claims.scopes)))))

unfoldable pub check_claims : ℕ → Option Header → Option Claims → Option Claims
check_claims now (some header) (some claims) =
    if is_current header claims now then some claims else none
check_claims now none claims = none
check_claims now (some header) none = none

abbrev pub truthy : Option Text → Option Text
truthy none = none
truthy (some t) = if is_empty t then none else some t

-- The user that the claims name, by id or else by address.
unfoldable pub claimed_user : Option Text → Option Text → List User → Option User
claimed_user (some i) email users = get_user_by_id i users
claimed_user none (some e) users = get_user_by_email (map to_lower (trim e)) users
claimed_user none none users = none

unfoldable pub claimed_identity :
    List AgentScope → Claims → User → Option ProjectMembership → Option AgentIdentity
claimed_identity required claims u none = none
claimed_identity required claims u (some m) =
    if all (λ s. includes (scope_action s) m.allowed_actions) required
    then some (record {
      token_id = codes "assertion:" ++ claims.sub;
      user_id = u.id;
      project_id = claims.project_id;
      scopes = scopes_of claims.scopes;
      membership = m;
    })
    else none

-- The checks after the identity of a token.
unfoldable pub permit : List AgentScope → Option AgentIdentity → Option AgentIdentity
permit required none = none
permit required (some i) =
    if all (λ s. has_scope s i.scopes) required
      && all (λ s. includes (scope_action s) i.membership.allowed_actions) required
    then some i
    else none

abbrev pub or_empty : Option Text → Text
or_empty none = []
or_empty (some t) = t

abbrev pub trimmed : Option Text → Text
trimmed none = []
trimmed (some t) = trim t

unfoldable pub bearer : Text → Text
bearer authorization = trimmed (after_start (codes "Bearer ") authorization)

abbrev pub available : Option ProjectMembership → List AgentScope
available none = []
available (some m) = effective m (read ∷ workflow_write ∷ run ∷ [])

module _ (calls : Calls) where
  -- `availableAgentScopes`
  unfoldable pub available_agent_scopes : Text → Text → Bool → Database → List AgentScope
  available_agent_scopes user project admin db =
      available (get_project_membership calls.name_before user project admin db.rows)

  unfoldable pub identify :
      ℕ
      → TokenRow
      → List AgentScope
      → Option ProjectMembership
      → Database
      → Database × Option AgentIdentity
  identify now t scopes none db = (db, none)
  identify now t scopes (some m) db =
      let kept = effective m scopes in
      if is_nil kept then (db, none) else (
        touch_token now t db,
        some (record {
          token_id = t.id;
          user_id = t.user_id;
          project_id = t.project_id;
          scopes = kept;
          membership = m;
        }),
      )

  unfoldable pub for_user :
      ℕ → TokenRow → List AgentScope → Option User → Database → Database × Option AgentIdentity
  for_user now t scopes none db = (db, none)
  for_user now t scopes (some u) db =
      if u.is_active
      then identify now t scopes
          (get_project_membership calls.name_before t.user_id t.project_id u.is_admin db.rows) db
      else (db, none)

  -- `parseScopes` gives nothing where the text is no list.
  unfoldable pub for_scopes :
      ℕ → TokenRow → Option (List Text) → Database → Database × Option AgentIdentity
  for_scopes now t none db = (db, none)
  for_scopes now t (some ts) db =
      for_user now t (scopes_of ts) (get_user_by_id t.user_id db.users) db

  unfoldable pub for_token : ℕ → Option TokenRow → Database → Database × Option AgentIdentity
  for_token now none db = (db, none)
  for_token now (some t) db = for_scopes now t (calls.parse_list t.scopes) db

  unfoldable pub for_prefixed : ℕ → Text → Option Text → Database → Database × Option AgentIdentity
  for_prefixed now token none db = (db, none)
  for_prefixed now token (some rest) db =
      for_token now (find_token now (calls.token_hash token) db.agent_tokens) db

  unfoldable pub authenticate_personal_agent_token :
      ℕ → Text → Database → Database × Option AgentIdentity
  authenticate_personal_agent_token now token db =
      for_prefixed now token (after_start (codes "tt_pat_") token) db

  abbrev pub parsed_header : Option Text → Option Header
  parsed_header none = none
  parsed_header (some bytes) = calls.parse_header bytes

  abbrev pub parsed_claims : Option Text → Option Claims
  parsed_claims none = none
  parsed_claims (some bytes) = calls.parse_claims bytes

  unfoldable pub verify_signature : Text → ℕ → Text → Text → Option Text → Option Claims
  verify_signature secret now header payload none = none
  verify_signature secret now header payload (some received) =
      let expected = calls.signature secret (header ++ b'.' ∷ payload) in
      if not (length received == length expected) || not (text_eq received expected)
      then none
      else check_claims now (parsed_header (calls.decode_part header))
          (parsed_claims (calls.decode_part payload))

  unfoldable pub verify_parts : Text → ℕ → List Text → Option Claims
  verify_parts secret now (header ∷ payload ∷ signature ∷ []) =
      verify_signature secret now header payload (calls.decode_part signature)
  verify_parts secret now _ = none

  unfoldable pub verify_agent_assertion : Text → Text → ℕ → Option Claims
  verify_agent_assertion assertion secret now =
      if ltb (length secret) 32 then none else verify_parts secret now (split_at b'.' assertion)

  unfoldable pub for_claimed :
      List AgentScope → Claims → Option User → Database → Option AgentIdentity
  for_claimed required claims none db = none
  for_claimed required claims (some u) db =
      if u.is_active && all (λ s. has_scope s (scopes_of claims.scopes)) required
      then claimed_identity required claims u
          (get_project_membership calls.name_before u.id claims.project_id u.is_admin db.rows)
      else none

  unfoldable pub for_claims : List AgentScope → Option Claims → Database → Option AgentIdentity
  for_claims required none db = none
  for_claims required (some claims) db =
      for_claimed required claims
        (claimed_user (truthy claims.user_id) (truthy claims.email) db.users) db

  -- The time is in milliseconds. A list of required scopes that is one scope is a list of one.
  unfoldable pub authenticate_agent_request :
      ℕ → Request → List AgentScope → Database → Database × Option AgentIdentity
  authenticate_agent_request now request required db =
      let assertion = trimmed request.assertion in
      if not (is_empty assertion)
      then (
        db,
        for_claims required (verify_agent_assertion assertion request.secret (now / 1000)) db,
      )
      else if request.oauth
      then (db, none)
      else let (db', i) =
          authenticate_personal_agent_token now (bearer (or_empty request.authorization)) db in
        (db', permit required i)
