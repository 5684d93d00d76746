-- ===== src/Projects/Permissions.antt =====
-- What a user may do in a project by projects/server/service.ts, against the rows of the database.
use tokyo_tester.Base.{
  ◌≡◌, refl, sym, ◌∙◌, Bool, Bool-cases, inl, inr, true, false, ◌&&◌, ◌||◌, List, [], ◌∷◌, ◌++◌,
  any, arith,
}
use tokyo_tester.Names.{Text}
use tokyo_tester.Graph.Texts.{text_eq, text_eq_iff}
use tokyo_tester.Projects.{owner, ProjectAction, view, edit, run, manage, allowed_actions_for_role}
use tokyo_tester.Projects.Membership.{
  Project, MemberRow, Rows, ProjectMembership, includes, or_editor, map_membership, join_members,
  join, find_membership, get_project, as_owner, allows, insert_membership, sort_memberships,
  list_projects_for_user, get_project_membership, user_has_project_permission,
}

all_owner : (b : ProjectAction) → includes b (allowed_actions_for_role owner) ≡ true
unfolding allowed_actions_for_role
all_owner view = refl
all_owner edit = refl
all_owner run = refl
all_owner manage = refl

module _ (user : Text) where
  -- This row lets the user do this in the project with this id.
  abbrev pub is_grant : Text → ProjectAction → MemberRow → Bool
  is_grant project action m =
      text_eq m.project_id project
      && (text_eq m.user_id user && includes action (allowed_actions_for_role (or_editor m.role)))

  -- A membership of the project with this id that allows this.
  abbrev could : Text → ProjectAction → ProjectMembership → Bool
  could project action x = text_eq x.project.id project && includes action x.allowed_actions

  any-insert_membership :
      (before : Text → Text → Bool) (i : Text) (a : ProjectAction) (x : ProjectMembership)
      (xs : List ProjectMembership)
      → any (could i a) (insert_membership before x xs) ≡ (could i a x || any (could i a) xs)
  unfolding insert_membership
  any-insert_membership before i a x [] = refl
  any-insert_membership before i a x (y ∷ ys) =
      ground (arith, any-insert_membership before i a x ys)

  any-sort_memberships :
      (before : Text → Text → Bool) (i : Text) (a : ProjectAction) (xs : List ProjectMembership)
      → any (could i a) (sort_memberships before xs) ≡ any (could i a) xs
  unfolding sort_memberships
  any-sort_memberships before i a [] = refl
  any-sort_memberships before i a (x ∷ xs) = ground (
    arith,
    any-insert_membership before i a x (sort_memberships before xs),
    any-sort_memberships before i a xs,
  )

  any-append :
      (i : Text) (a : ProjectAction) (xs ys : List ProjectMembership)
      → any (could i a) (xs ++ ys) ≡ (any (could i a) xs || any (could i a) ys)
  any-append i a [] ys = refl
  any-append i a (x ∷ xs) ys = ground (arith, any-append i a xs ys)

  any-join_members :
      (i : Text) (a : ProjectAction) (p : Project) (ms : List MemberRow)
      → any (could i a) (join_members user p ms) ≡ (text_eq p.id i && any (is_grant i a) ms)
  unfolding join_members map_membership
  any-join_members i a p [] = ground arith
  any-join_members i a p (m ∷ ms) = ground (
    arith,
    any-join_members i a p ms,
    text_eq_iff p.id i,
    text_eq_iff p.id m.project_id,
    text_eq_iff m.project_id i,
  )

  any-join :
      (i : Text) (a : ProjectAction) (ps : List Project) (ms : List MemberRow)
      → any (could i a) (join user ps ms) ≡ (any (λ p. text_eq p.id i) ps && any (is_grant i a) ms)
  unfolding join
  any-join i a [] ms = refl
  any-join i a (p ∷ ps) ms = ground (
    arith,
    any-append i a (join_members user p ms) (join user ps ms),
    any-join_members i a p ms,
    any-join i a ps ms,
  )

  any-of_find :
      (i : Text) (a : ProjectAction) (xs : List ProjectMembership)
      → allows a (find_membership i xs) ≡ true
      → any (could i a) xs ≡ true
  unfolding find_membership
  any-of_find i a [] h = h
  any-of_find i a (x ∷ xs) h = ground (arith, any-of_find i a xs)

  allows-get_project :
      (i : Text) (a : ProjectAction) (ps : List Project)
      → allows a (as_owner (get_project i ps)) ≡ any (λ p. text_eq p.id i) ps
  unfolding get_project allowed_actions_for_role
  allows-get_project i a [] = refl
  allows-get_project i a (p ∷ ps) = elim (Bool-cases (text_eq p.id i)) [
    | inl same ↦ rw same (all_owner a)
    | inr other ↦ rw other (allows-get_project i a ps)
  ]

  -- A user may do something in a project only if the project exists and the user is an administrator
  -- of the platform, or has a row in the members of the project with a role that allows it.
  pub user_has_project_permission-granted :
      (before : Text → Text → Bool) (project : Text) (action : ProjectAction) (admin : Bool)
      (rows : Rows)
      → user_has_project_permission before user project action admin rows ≡ true
      → (any (λ p. text_eq p.id project) rows.projects ≡ true)
        × ((admin || any (is_grant project action) rows.project_members) ≡ true)
  unfolding user_has_project_permission get_project_membership list_projects_for_user
  user_has_project_permission-granted before project action true rows h =
      (sym (allows-get_project project action rows.projects) ∙ h, refl)
  user_has_project_permission-granted before project action false rows h =
      let all = join user rows.projects rows.project_members in
      let found = any-of_find project action (sort_memberships before all) h in
      let same = any-sort_memberships before project action all in
      let joined = any-join project action rows.projects rows.project_members in
      (ground (arith, found, same, joined), ground (arith, found, same, joined))
