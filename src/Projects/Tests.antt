-- ===== src/Projects/Tests.antt =====
-- A concrete team of service.ts of the projects.
use tokyo_tester.Bundle.{codes}
use tokyo_tester.Projects.Membership.{Project, Rows, ProjectMembership, get_project}
use tokyo_tester.Projects.Workspaces.{
  postgres, add_users_to_project, ensure_personal_project, is_personal_of,
}
use tokyo_tester.Projects.Joining.{row_of, Joins, row_of-add_users_to_project}
use tokyo_tester.Projects.Personal.{role_in, ensure_personal_project-settles}
use tokyo_tester.Base.{◌≡◌, true, refl, none, some, List, [], ◌∷◌, arith}
use tokyo_tester.Names.{Text}
use tokyo_tester.Projects.{team, owner, editor, runner, Member, Table}
use tokyo_tester.Projects.Owners.{
  rows_after, IsOwned, IsTable, Request, remove_request, role_request, serve_all, serve_all-IsOwned,
}
use tokyo_tester.Graph.Texts.{has, text_eq}

-- A table that is a list.
abbrev rows : Table
rows = record {
  delete_member = λ u ms. rows_after none u ms;
  update_role = λ u r ms. rows_after (some r) u ms;
}

rows-IsTable : IsTable rows
rows-IsTable = record { deletes = λ u ms. refl; updates = λ u r ms. refl }

abbrev members : List Member
members =
    record { id = 1 ∷ []; project_role = owner }
    ∷ record { id = 2 ∷ []; project_role = editor }
    ∷ []

abbrev requests : List Request
requests = remove_request (1 ∷ []) ∷ role_request (2 ∷ []) owner ∷ role_request (1 ∷ []) runner ∷ []

members-IsOwned : IsOwned members
unfolding has text_eq
members-IsOwned = (refl, omega arith)

serve_all-IsOwned_example : IsOwned (serve_all rows (some team) requests members)
serve_all-IsOwned_example =
    serve_all-IsOwned rows rows-IsTable (some team) requests members members-IsOwned

workspaces : Unit {0}
unfolding get_project text_eq
workspaces = tt

abbrev shop : Project
shop = record { id = codes "shop"; name = codes "Shop"; kind = team; created_by = codes "bob" }

abbrev stored : Rows
stored = record {
  projects = shop ∷ [];
  project_members =
      record { project_id = codes "shop"; user_id = codes "bob"; role = some owner } ∷ [];
}

-- There is no user with the second id.
abbrev newcomers : List Text
newcomers = codes "bob" ∷ codes "zoe" ∷ codes "ann" ∷ []

abbrev users : List Text
users = codes "ann" ∷ codes "bob" ∷ []

row_of-add_users_to_project_example :
    (let (after, error) =
        add_users_to_project postgres users (codes "shop") newcomers runner stored in
      Joins users
        (codes "shop")
        newcomers
        runner
        stored.project_members
        postgres
        (after.project_members, error)
      × (after.projects ≡ stored.projects))
unfolding workspaces
row_of-add_users_to_project_example =
    row_of-add_users_to_project postgres users (codes "shop") newcomers runner stored shop refl refl

ensure_personal_project-settles_example :
    (after : Rows) × ((m : ProjectMembership) × ((ensure_personal_project
            (codes "x1")
            (codes "ann")
            stored
          ≡ some (after, m))
        × ((ensure_personal_project (codes "x2") (codes "ann") after ≡ some (after, m))
            × ((is_personal_of (codes "ann") m.project ≡ true)
                × (role_in (row_of m.project.id (codes "ann") after.project_members)
                    ≡ some owner)))))
unfolding workspaces
ensure_personal_project-settles_example =
    ensure_personal_project-settles (codes "x1") (codes "x2") (codes "ann") stored refl
