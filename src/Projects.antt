-- ===== src/Projects.antt =====
-- ui-v2/src/modules/projects/server/service.ts: what a role allows, and who may leave a project or
-- change a role. What the database does to the rows of a project is an argument.
pub mod Owners
pub mod Membership
pub mod Permissions
pub mod Workspaces
pub mod Joining
pub mod Personal
mod Tests
use tokyo_tester.Base.{
  ℕ, ◌≡◌, ◌⊎◌, inl, inr, Bool, true, false, not, ◌&&◌, Option, none, some, List, [], ◌∷◌, leb,
  tally, if◌then◌else◌,
}
use tokyo_tester.Names.{Text}
use tokyo_tester.Graph.Texts.{text_eq}

pub data ProjectKind : Type 0 where
  personal team : ProjectKind

pub data ProjectRole : Type 0 where
  owner editor runner : ProjectRole

pub data ProjectAction : Type 0 where
  view edit run manage : ProjectAction

-- What the code here reads of a member of a project.
pub record Member : Type 0 where
  pub id : Text
  pub project_role : ProjectRole

unfoldable pub allowed_actions_for_role : ProjectRole → List ProjectAction
allowed_actions_for_role owner = view ∷ edit ∷ run ∷ manage ∷ []
allowed_actions_for_role editor = view ∷ edit ∷ run ∷ []
allowed_actions_for_role runner = view ∷ run ∷ []

-- The errors that are thrown.
pub data Failure : Type 0 where
  project_not_found personal_workspace final_owner_removed member_not_found final_owner_demoted :
      Failure

abbrev pub is_owner : ProjectRole → Bool
is_owner owner = true
is_owner _ = false

abbrev pub owners : List Member → ℕ
owners ms = tally (λ m. is_owner m.project_role) ms

-- `members.find((member) => member.id === userId)`
unfoldable pub find_member : Text → List Member → Option Member
find_member u [] = none
find_member u (m ∷ ms) = if text_eq m.id u then some m else find_member u ms

abbrev pub owns : Option Member → Bool
owns none = false
owns (some m) = is_owner m.project_role

-- The two statements that the code sends, for the rows of one user in one project.
pub record Table : Type 0 where
  pub delete_member : Text → List Member → List Member
  pub update_role : Text → ProjectRole → List Member → List Member

module _ (table : Table) where
  unfoldable pub remove_user_from_project :
      Option ProjectKind → Text → List Member → Failure ⊎ List Member
  unfolding find_member
  remove_user_from_project none u ms = inl project_not_found
  remove_user_from_project (some personal) u ms = inl personal_workspace
  remove_user_from_project (some team) u ms =
      if owns (find_member u ms) && leb (owners ms) 1
      then inl final_owner_removed
      else inr (table.delete_member u ms)

  -- What is done about the member that is found.
  abbrev pub change_role : Option Member → Text → ProjectRole → List Member → Failure ⊎ List Member
  change_role none u r ms = inl member_not_found
  change_role (some m) u r ms =
      if is_owner m.project_role && (not (is_owner r) && leb (owners ms) 1)
      then inl final_owner_demoted
      else inr (table.update_role u r ms)

  unfoldable pub update_project_member_role :
      Option ProjectKind → Text → ProjectRole → List Member → Failure ⊎ List Member
  unfolding find_member
  update_project_member_role none u r ms = inl project_not_found
  update_project_member_role (some personal) u r ms = inl personal_workspace
  update_project_member_role (some team) u r ms = change_role (find_member u ms) u r ms
