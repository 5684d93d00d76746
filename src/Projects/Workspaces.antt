-- ===== src/Projects/Workspaces.antt =====
-- `createProject`, `ensurePersonalProject` and `addUsersToProject` of
-- ui-v2/src/modules/projects/server/service.ts over the rows of the database. A row of a member is of one
-- project and one user, and a user has one personal project: an insert that meets a row there already
-- changes nothing, or the role. The new id is an argument. The users of `createProject` and
-- `ensurePersonalProject` are rows that their callers have read or inserted, so that no foreign key fails
-- there.
use tokyo_tester.Base.{
  Bool, false, not, ◌&&◌, ◌||◌, Option, none, some, List, [], ◌∷◌, ◌++◌, any, if◌then◌else◌,
}
use tokyo_tester.Names.{Text}
use tokyo_tester.Graph.Texts.{text_eq, has}
use tokyo_tester.Bundle.{codes, trim}
use tokyo_tester.Projects.{
  personal, team, ProjectRole, owner, Failure, project_not_found, personal_workspace,
}
use tokyo_tester.Projects.Membership.{
  Project, MemberRow, Rows, ProjectMembership, is_team, map_membership, get_project,
}

abbrev pub is_member : Text → Text → MemberRow → Bool
is_member p u m = text_eq m.project_id p && text_eq m.user_id u

abbrev pub member_row : Text → Text → ProjectRole → MemberRow
member_row p u r = record { project_id = p; user_id = u; role = some r }

-- `connection.type`
pub data DatabaseType : Type 0 where
  postgres mysql : DatabaseType

-- Why no user, or not every user, is added.
pub data JoinError : Type 0 where
  refused : Failure → JoinError
  unknown_user : JoinError

-- An insert of a row that may be there already, and then stays as it is.
unfoldable pub insert_member : Text → ProjectRole → Text → List MemberRow → List MemberRow
insert_member p r u ms = if any (is_member p u) ms then ms else ms ++ member_row p u r ∷ []

-- The ids of the table of users are `known`. A new row must be of one of them, since userId references
-- user(id).
abbrev pub can_join : List Text → Text → List MemberRow → Text → Bool
can_join known p ms u = has u known || any (is_member p u) ms

-- The rows one after the other, up to the first one that cannot be inserted.
unfoldable pub add_members :
    List Text → Text → ProjectRole → List Text → List MemberRow → List MemberRow × Option JoinError
add_members known p r [] ms = (ms, none)
add_members known p r (u ∷ us) ms =
    let rest = add_members known p r us (insert_member p r u ms) in
    if can_join known p ms u then rest else (ms, some unknown_user)

-- Postgres has one statement for all rows, which inserts none of them where it throws.
abbrev pub settle_members :
    DatabaseType
    → List MemberRow
    → List MemberRow × Option JoinError
    → List MemberRow × Option JoinError
settle_members mysql before done = done
settle_members postgres before (ms, none) = (ms, none)
settle_members postgres before (ms, some error) = (before, some error)

unfoldable pub add_to_found :
    DatabaseType
    → List Text
    → Option Project
    → Text
    → List Text
    → ProjectRole
    → Rows
    → Rows × Option JoinError
add_to_found database known none p us r rows = (rows, some (refused project_not_found))
add_to_found database known (some project) p us r rows =
    let before = rows.project_members in
    let done = settle_members database before (add_members known p r us before) in
    if is_team project.kind
    then (record rows { project_members = done.0 }, done.1)
    else (rows, some (refused personal_workspace))

-- The rows afterwards, and the error where it throws.
unfoldable pub add_users_to_project :
    DatabaseType → List Text → Text → List Text → ProjectRole → Rows → Rows × Option JoinError
add_users_to_project database known p [] r rows = (rows, none)
add_users_to_project database known p (u ∷ us) r rows =
    add_to_found database known (get_project p rows.projects) p (u ∷ us) r rows

-- An insert with `onConflictDoUpdate`.
unfoldable pub set_owner : Text → Text → List MemberRow → List MemberRow
set_owner p u [] = member_row p u owner ∷ []
set_owner p u (m ∷ ms) =
    let rest = set_owner p u ms in
    if is_member p u m then record m { role = some owner } ∷ ms else m ∷ rest

abbrev pub is_personal_of : Text → Project → Bool
is_personal_of u p = text_eq p.created_by u && not (is_team p.kind)

-- `findExisting`
unfoldable pub find_existing : Text → List Project → Option Project
find_existing u [] = none
find_existing u (p ∷ ps) = if is_personal_of u p then some p else find_existing u ps

unfoldable pub insert_personal : Text → Text → List Project → List Project
insert_personal i u ps =
    if any (λ p. text_eq p.id i || is_personal_of u p) ps
    then ps
    else ps ++ record { id = i; name = codes "Personal"; kind = personal; created_by = u } ∷ []

-- The project is there or is created.
unfoldable pub with_personal : Text → Text → Option Project → List Project → List Project
with_personal i u (some p) ps = ps
with_personal i u none ps = insert_personal i u ps

unfoldable pub own_personal : Text → Option Project → Rows → Option (Rows × ProjectMembership)
own_personal u none rows = none
own_personal u (some p) rows = some (
  record rows { project_members = set_owner p.id u rows.project_members },
  map_membership p (some owner) false,
)

-- `none` where it throws.
unfoldable pub ensure_personal_project : Text → Text → Rows → Option (Rows × ProjectMembership)
ensure_personal_project i u rows =
    let ps = with_personal i u (find_existing u rows.projects) rows.projects in
    own_personal u (find_existing u ps) (record rows { projects = ps })

unfoldable pub create_project : Text → Text → Text → Rows → Rows × Project
create_project i name admin rows =
    let p : Project = record { id = i; name = trim name; kind = team; created_by = admin } in
    (
      record {
        projects = rows.projects ++ p ∷ [];
        project_members = rows.project_members ++ member_row i admin owner ∷ [];
      },
      p,
    )
