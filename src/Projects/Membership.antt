-- ===== src/Projects/Membership.antt =====
-- ui-v2/src/modules/projects/server/service.ts: which projects a user has and what the user may do in
-- them, over the rows of the database. `localeCompare` is an argument: which of two names comes first.
use tokyo_tester.Base.{
  Bool, true, false, ◌&&◌, ◌||◌, Option, none, some, List, [], ◌∷◌, ◌++◌, map, filter, any,
  if◌then◌else◌,
}
use tokyo_tester.Names.{Text}
use tokyo_tester.Graph.Texts.{text_eq}
use tokyo_tester.Projects.{
  ProjectKind, personal, team, ProjectRole, owner, editor, ProjectAction, view, edit, run, manage,
  allowed_actions_for_role,
}

pub record Project : Type 0 where
  pub id : Text
  pub name : Text
  pub kind : ProjectKind
  pub created_by : Text

-- A row of `project_members`.
pub record MemberRow : Type 0 where
  pub project_id : Text
  pub user_id : Text
  pub role : Option ProjectRole

pub record Rows : Type 0 where
  pub projects : List Project
  pub project_members : List MemberRow

pub record ProjectMembership : Type 0 where
  pub project : Project
  pub project_role : ProjectRole
  pub allowed_actions : List ProjectAction

abbrev pub is_team : ProjectKind → Bool
is_team team = true
is_team personal = false

abbrev pub same_action : ProjectAction → ProjectAction → Bool
same_action view view = true
same_action edit edit = true
same_action run run = true
same_action manage manage = true
same_action _ _ = false

-- `allowedActions.includes(action)`
abbrev pub includes : ProjectAction → List ProjectAction → Bool
includes a allowed = any (λ b. same_action b a) allowed

-- `?? "editor"`
abbrev pub or_editor : Option ProjectRole → ProjectRole
or_editor none = editor
or_editor (some r) = r

unfoldable pub map_membership : Project → Option ProjectRole → Bool → ProjectMembership
map_membership p role admin =
    let r = if admin then owner else or_editor role in
    record { project = p; project_role = r; allowed_actions = allowed_actions_for_role r }

-- The rows of the inner join for one project.
unfoldable pub join_members : Text → Project → List MemberRow → List ProjectMembership
join_members user p [] = []
join_members user p (m ∷ ms) =
    let rest = join_members user p ms in
    if text_eq p.id m.project_id && text_eq m.user_id user
    then map_membership p m.role false ∷ rest
    else rest

unfoldable pub join : Text → List Project → List MemberRow → List ProjectMembership
join user [] ms = []
join user (p ∷ ps) ms = join_members user p ms ++ join user ps ms

unfoldable pub find_membership : Text → List ProjectMembership → Option ProjectMembership
find_membership i [] = none
find_membership i (m ∷ ms) = if text_eq m.project.id i then some m else find_membership i ms

-- The first project with this id.
unfoldable pub get_project : Text → List Project → Option Project
get_project i [] = none
get_project i (p ∷ ps) = if text_eq p.id i then some p else get_project i ps

abbrev pub as_owner : Option Project → Option ProjectMembership
as_owner none = none
as_owner (some p) =
    some (record {
      project = p;
      project_role = owner;
      allowed_actions = allowed_actions_for_role owner;
    })

abbrev pub allows : ProjectAction → Option ProjectMembership → Bool
allows action none = false
allows action (some m) = includes action m.allowed_actions

module _ (name_before : Text → Text → Bool) where
  unfoldable pub comes_before : ProjectMembership → ProjectMembership → Bool
  comes_before l r = elim l.project.kind [
    | personal ↦ if is_team r.project.kind then true else name_before l.project.name r.project.name
    | team ↦ if is_team r.project.kind then name_before l.project.name r.project.name else false
  ]

  unfoldable pub insert_membership :
      ProjectMembership → List ProjectMembership → List ProjectMembership
  insert_membership m [] = m ∷ []
  insert_membership m (n ∷ ns) =
      let rest = insert_membership m ns in if comes_before n m then n ∷ rest else m ∷ n ∷ ns

  unfoldable pub sort_memberships : List ProjectMembership → List ProjectMembership
  sort_memberships [] = []
  sort_memberships (m ∷ ms) = insert_membership m (sort_memberships ms)

  unfoldable pub list_projects_for_user : Text → Bool → Rows → List ProjectMembership
  list_projects_for_user user admin rows = sort_memberships (
      if admin
      then map (λ p. map_membership p none true)
          (filter (λ p. is_team p.kind || text_eq p.created_by user) rows.projects)
      else join user rows.projects rows.project_members)

  -- `admin` tells whether the platform's role of the user is "admin".
  unfoldable pub get_project_membership : Text → Text → Bool → Rows → Option ProjectMembership
  get_project_membership user project admin rows =
      if admin
      then as_owner (get_project project rows.projects)
      else find_membership project (list_projects_for_user user admin rows)

  unfoldable pub user_has_project_permission : Text → Text → ProjectAction → Bool → Rows → Bool
  user_has_project_permission user project action admin rows =
      allows action (get_project_membership user project admin rows)

  unfoldable pub user_has_project_access : Text → Text → Bool → Rows → Bool
  user_has_project_access user project admin rows =
      user_has_project_permission user project view admin rows
