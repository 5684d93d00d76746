-- ===== src/Agent.antt =====
-- ui-v2/src/modules/agent/server/auth.ts and internal-assertion.ts: who a request of an agent is from.
-- The rows of the database are explicit. The hash of a token, the signature, the decoding of base64 and
-- the parsing of JSON are arguments, as they are calls of libraries. Times are whole numbers.
pub mod Request
pub mod Identified
pub mod Assertions
pub mod Authorized
pub mod Revoked
mod Tests
use tokyo_tester.Base.{
  ℕ, ◌+◌, ◌*◌, ◌≡◌, refl, Bool, true, false, not, ◌&&◌, ◌||◌, Option, none, some, List, [], ◌∷◌,
  ◌++◌, map, filter, any, all, length, ltb, leb, ◌==◌, if◌then◌else◌,
}
use tokyo_tester.Names.{Text, to_lower}
use tokyo_tester.Graph.Texts.{text_eq}
use tokyo_tester.Projects.{ProjectAction, view, edit}
use tokyo_tester.Projects.Membership.{Rows, ProjectMembership, includes, get_project_membership}
use tokyo_tester.Bundle.{codes, is_empty, trim}

pub data AgentScope : Type 0 where
  read workflow_write run : AgentScope

unfoldable pub scope_action : AgentScope → ProjectAction
scope_action read = view
scope_action workflow_write = edit
scope_action run = ProjectAction.run

abbrev pub same_scope : AgentScope → AgentScope → Bool
same_scope read read = true
same_scope workflow_write workflow_write = true
same_scope run run = true
same_scope _ _ = false

-- `scopes.includes(scope)`
abbrev pub has_scope : AgentScope → List AgentScope → Bool
has_scope s ss = any (λ t. same_scope t s) ss

-- Which scope a text is, if it is one.
unfoldable pub scope_of : Text → Option AgentScope
scope_of t =
    if text_eq t (codes "read")
    then some read
    else if text_eq t (codes "workflow:write")
    then some workflow_write
    else if text_eq t (codes "run")
    then some run
    else none

abbrev pub keep_scope : Option AgentScope → List AgentScope → List AgentScope
keep_scope none rest = rest
keep_scope (some s) rest = s ∷ rest

-- Those of the texts that are scopes.
unfoldable pub scopes_of : List Text → List AgentScope
scopes_of [] = []
scopes_of (t ∷ ts) = keep_scope (scope_of t) (scopes_of ts)

pub record User : Type 0 where
  pub id : Text
  pub email : Text
  pub is_active : Bool
  pub is_admin : Bool

-- A row of `agent_tokens`; `scopes` is its text of JSON.
pub record TokenRow : Type 0 where
  pub id : Text
  pub token_hash : Text
  pub user_id : Text
  pub project_id : Text
  pub scopes : Text
  pub expires_at : ℕ
  pub last_used_at : Option ℕ
  pub revoked_at : Option ℕ

pub record Database : Type 0 where
  pub users : List User
  pub rows : Rows
  pub agent_tokens : List TokenRow

pub record AgentIdentity : Type 0 where
  pub token_id : Text
  pub user_id : Text
  pub project_id : Text
  pub scopes : List AgentScope
  pub membership : ProjectMembership

-- What `JSON.parse` gives for the payload, where each field has its type.
pub record Claims : Type 0 where
  pub sub : Text
  pub email : Option Text
  pub user_id : Option Text
  pub project_id : Text
  pub scopes : List Text
  pub iss : Text
  pub aud : Text
  pub iat : ℕ
  pub exp : ℕ

pub record Header : Type 0 where
  pub alg : Text
  pub typ : Text

-- The calls of `node:crypto`, `Buffer` and `JSON`, and `localeCompare`.
pub record Calls : Type 0 where
  pub token_hash : Text → Text
  pub signature : Text → Text → Text
  pub decode_part : Text → Option Text
  pub parse_header : Text → Option Header
  pub parse_claims : Text → Option Claims
  pub parse_list : Text → Option (List Text)
  pub name_before : Text → Text → Bool

-- The rows of `users`.
unfoldable pub get_user_by_id : Text → List User → Option User
get_user_by_id i [] = none
get_user_by_id i (u ∷ us) = if text_eq u.id i then some u else get_user_by_id i us

unfoldable pub get_user_by_email : Text → List User → Option User
get_user_by_email e [] = none
get_user_by_email e (u ∷ us) = if text_eq u.email e then some u else get_user_by_email e us

abbrev pub is_unset : Option ℕ → Bool
is_unset none = true
is_unset (some n) = false

-- `revokedAt` of the tokens of this user with this id that have none.
unfoldable pub revoke_rows : ℕ → Text → Text → List TokenRow → List TokenRow
revoke_rows now user i ts =
    map
      (λ t.
        if text_eq t.id i && (text_eq t.user_id user && is_unset t.revoked_at)
        then record t { revoked_at = some now }
        else t)
      ts

unfoldable pub revoke_agent_token : ℕ → Text → Text → Database → Database
revoke_agent_token now user i db = record db {
  agent_tokens = revoke_rows now user i db.agent_tokens;
}

-- The first row that the query finds.
unfoldable pub find_token : ℕ → Text → List TokenRow → Option TokenRow
find_token now hash [] = none
find_token now hash (t ∷ ts) =
    if text_eq t.token_hash hash && (ltb now t.expires_at && is_unset t.revoked_at)
    then some t
    else find_token now hash ts

-- Five minutes, in the milliseconds that times of the rows count.
abbrev pub is_stale : ℕ → Option ℕ → Bool
is_stale now none = true
is_stale now (some last) = ltb (last + 5 * 60000) now

unfoldable pub touch_token : ℕ → TokenRow → Database → Database
touch_token now t db =
    if is_stale now t.last_used_at
    then record db {
      agent_tokens =
          map (λ u. if text_eq u.id t.id then record u { last_used_at = some now } else u)
            db.agent_tokens;
    }
    else db

-- `text.startsWith(start)`, and the rest of the text.
unfoldable pub after_start : Text → Text → Option Text
after_start [] t = some t
after_start (c ∷ s) [] = none
after_start (c ∷ s) (d ∷ t) = if c == d then after_start s t else none

-- `text.split(separator)`
abbrev pub onto_first : ℕ → List Text → List Text
onto_first c [] = (c ∷ []) ∷ []
onto_first c (t ∷ ts) = (c ∷ t) ∷ ts

unfoldable pub split_at : ℕ → Text → List Text
split_at separator [] = [] ∷ []
split_at separator (c ∷ t) =
    let rest = split_at separator t in if c == separator then [] ∷ rest else onto_first c rest
