-- ===== src/Agent/Tests.antt =====
-- A browser's agent with a token and with an assertion, of agent/server/auth.ts.
use tokyo_tester.Base.{
  ◌≤◌, ◌≡◌, refl, true, false, not, ◌&&◌, none, some, [], ◌∷◌, filter, replicate, ◌==◌,
}
use tokyo_tester.Names.{Text}
use tokyo_tester.Graph.Texts.{text_eq}
use tokyo_tester.Projects.{team, editor, allowed_actions_for_role}
use tokyo_tester.Projects.Membership.{
  user_has_project_permission, get_project_membership, list_projects_for_user, join, join_members,
  map_membership, find_membership, sort_memberships, insert_membership,
}
use tokyo_tester.Scenario.{is_space}
use tokyo_tester.Bundle.{codes, trim, trim_start, trim_end}
use tokyo_tester.Agent.{
  workflow_write, scope_action, User, TokenRow, Database, AgentIdentity, Claims, Calls, scope_of,
  scopes_of, get_user_by_id, find_token, touch_token, after_start, split_at, revoke_agent_token,
  revoke_rows,
}
use tokyo_tester.Agent.Request.{
  Request, effective, permit, bearer, identify, for_user, for_scopes, for_token, for_prefixed,
  authenticate_personal_agent_token, verify_agent_assertion, verify_parts, verify_signature,
  check_claims, is_current, authenticate_agent_request,
}
use tokyo_tester.Agent.Authorized.{IsAuthorized, authenticate_agent_request-IsAuthorized}
use tokyo_tester.Agent.Assertions.{IsSigned, verify_agent_assertion-IsSigned}
use tokyo_tester.Agent.Revoked.{revoke_agent_token-ends}

agent : Unit {0}
unfolding authenticate_agent_request permit authenticate_personal_agent_token for_prefixed
    after_start bearer trim trim_end trim_start is_space for_token find_token text_eq for_scopes
    for_user get_user_by_id identify get_project_membership effective scope_action scope_of
    scopes_of touch_token find_membership insert_membership join join_members list_projects_for_user
    map_membership sort_memberships allowed_actions_for_role verify_agent_assertion verify_parts
    verify_signature check_claims is_current split_at revoke_agent_token revoke_rows
    user_has_project_permission
agent = tt

abbrev claims : Claims
claims = record {
  sub = codes "mcp";
  email = none;
  user_id = some (codes "ann");
  project_id = codes "shop";
  scopes = codes "read" ∷ [];
  iss = codes "tokyo-mcp";
  aud = codes "tokyo-ui-agent-api";
  iat = 1000;
  exp = 1100;
}

-- Libraries that leave a text as it is, but for a signature, which has no dots.
abbrev plain : Calls
plain = record {
  token_hash = λ t. t;
  signature = λ secret t. filter (λ c. not (c == b'.')) t;
  decode_part = λ t. some t;
  parse_header = λ t. some (record { alg = codes "HS256"; typ = codes "JWT" });
  parse_claims = λ t. some claims;
  parse_list = λ t. some (t ∷ codes "admin" ∷ []);
  name_before = λ s t. true;
}

abbrev ann : User
ann = record { id = codes "ann"; email = codes "ann@x"; is_active = true; is_admin = false }

abbrev token_row : TokenRow
token_row = record {
  id = codes "t1";
  token_hash = codes "tt_pat_1";
  user_id = codes "ann";
  project_id = codes "shop";
  scopes = codes "workflow:write";
  expires_at = 5000;
  last_used_at = none;
  revoked_at = none;
}

abbrev database : Database
database = record {
  users = ann ∷ [];
  rows = record {
    projects =
        record { id = codes "shop"; name = codes "Shop"; kind = team; created_by = codes "bob" }
        ∷ [];
    project_members =
        record { project_id = codes "shop"; user_id = codes "ann"; role = some editor } ∷ [];
  };
  agent_tokens =
      token_row ∷ record token_row { id = codes "t2"; token_hash = codes "tt_pat_2" } ∷ [];
}

abbrev request : Request
request = record {
  assertion = none;
  authorization = some (codes "Bearer tt_pat_1 ");
  secret = [];
  oauth = false;
}

abbrev identity : AgentIdentity
identity = record {
  token_id = codes "t1";
  user_id = codes "ann";
  project_id = codes "shop";
  scopes = workflow_write ∷ [];
  membership = record {
    project = record {
      id = codes "shop";
      name = codes "Shop";
      kind = team;
      created_by = codes "bob";
    };
    project_role = editor;
    allowed_actions = allowed_actions_for_role editor;
  };
}

accepted :
    (authenticate_agent_request plain 2000 request (workflow_write ∷ []) database).1 ≡ some identity
unfolding agent
accepted = refl

authenticate_agent_request-IsAuthorized_example :
    IsAuthorized plain database identity workflow_write
unfolding agent
authenticate_agent_request-IsAuthorized_example =
    authenticate_agent_request-IsAuthorized plain 2000 request (workflow_write ∷ []) database
      identity workflow_write accepted refl

accepted_token :
    (authenticate_personal_agent_token plain 2000 (codes "tt_pat_1") database).1 ≡ some identity
unfolding agent
accepted_token = refl

other_token :
    (authenticate_personal_agent_token plain 2000
      (codes "tt_pat_1")
      (revoke_agent_token 1500 (codes "ann") (codes "t2") database)).1
    ≡ some identity
unfolding agent
other_token = refl

revoke_agent_token-ends_example :
    (text_eq identity.token_id (codes "t2") && text_eq identity.user_id (codes "ann")) ≡ false
revoke_agent_token-ends_example =
    revoke_agent_token-ends plain 2000 1500 (codes "ann") (codes "t2") (codes "tt_pat_1") database
      identity other_token

abbrev secret : Text
secret = replicate 32 b's'

verified : verify_agent_assertion plain (codes "h.p.hp") secret 1050 ≡ some claims
unfolding agent
verified = refl

verify_agent_assertion-IsSigned_example :
    (32 ≤ 32) × IsSigned plain secret 1050 (split_at b'.' (codes "h.p.hp")) claims
verify_agent_assertion-IsSigned_example =
    verify_agent_assertion-IsSigned plain secret 1050 (codes "h.p.hp") claims verified
