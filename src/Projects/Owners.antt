-- ===== src/Projects/Owners.antt =====
-- A team keeps an owner, whatever service.ts of the projects is asked to do.
use tokyo_tester.Base.{
  ◌+◌, ◌≤◌, ◌<◌, ◌≡◌, refl, ◌⊎◌, inl, inr, Bool, true, false, not, ◌&&◌, Option, none, some, List,
  [], ◌∷◌, leb, map, arith, Bool-cases, if◌then◌else◌,
}
use tokyo_tester.Names.{Text}
use tokyo_tester.Graph.Texts.{text_eq, text_eq_iff, has}
use tokyo_tester.Projects.{
  ProjectKind, personal, team, change_role, ProjectRole, Member, Failure, is_owner, owners,
  find_member, owns, Table, remove_user_from_project, update_project_member_role,
}

-- The rows of a user deleted, or given another role.
unfoldable pub rows_after : Option ProjectRole → Text → List Member → List Member
rows_after o u [] = []
rows_after o u (m ∷ ms) =
    let rest = rows_after o u ms in
    let changed : List Member = elim o [
      | none ↦ rest
      | some r ↦ record m { project_role = r } ∷ rest
    ] in
    if text_eq m.id u then changed else m ∷ rest

-- A user has one row in a project.
abbrev pub distinct : List Member → Bool
distinct [] = true
distinct (m ∷ ms) = not (has m.id (map (λ n. n.id) ms)) && distinct ms

owners-rows_free :
    (o : Option ProjectRole) (u : Text) (ms : List Member)
    → has u (map (λ n. n.id) ms) ≡ false
    → owners (rows_after o u ms) ≡ owners ms
unfolding rows_after has
owners-rows_free o u [] h = refl
owners-rows_free o u (m ∷ ms) h = ground (arith, owners-rows_free o u ms)

owners-rows_one :
    (o : Option ProjectRole) (u : Text) (ms : List Member)
    → distinct ms ≡ true
    → owners ms ≤ owners (rows_after o u ms) + 1
unfolding rows_after
owners-rows_one o u [] d = omega arith
owners-rows_one o u (m ∷ ms) d =
    ground (arith, owners-rows_one o u ms, owners-rows_free o u ms, text_eq_iff m.id u)

owners-rows_other :
    (o : Option ProjectRole) (u : Text) (ms : List Member)
    → distinct ms ≡ true
    → owns (find_member u ms) ≡ false
    → owners ms ≤ owners (rows_after o u ms)
unfolding rows_after find_member
owners-rows_other o u [] d h = omega arith
owners-rows_other o u (m ∷ ms) d h =
    ground (arith, owners-rows_other o u ms, owners-rows_free o u ms, text_eq_iff m.id u)

owners-rows_promoted :
    (r : ProjectRole) (u : Text) (ms : List Member)
    → is_owner r ≡ true
    → owners ms ≤ owners (rows_after (some r) u ms)
unfolding rows_after
owners-rows_promoted r u [] h = omega arith
owners-rows_promoted r u (m ∷ ms) h = ground (arith, owners-rows_promoted r u ms)

has-rows_after :
    (o : Option ProjectRole) (u j : Text) (ms : List Member)
    → has j (map (λ n. n.id) ms) ≡ false
    → has j (map (λ n. n.id) (rows_after o u ms)) ≡ false
unfolding rows_after has
has-rows_after o u j [] h = refl
has-rows_after o u j (m ∷ ms) h = ground (arith, has-rows_after o u j ms)

distinct-rows_after :
    (o : Option ProjectRole) (u : Text) (ms : List Member)
    → distinct ms ≡ true
    → distinct (rows_after o u ms) ≡ true
unfolding rows_after
distinct-rows_after o u [] d = refl
distinct-rows_after o u (m ∷ ms) d =
    ground (arith, distinct-rows_after o u ms, has-rows_after o u m.id ms)

-- A user has one row, and the project has an owner.
abbrev pub IsOwned : List Member → Type 0
IsOwned ms = (distinct ms ≡ true) × (0 < owners ms)

-- A database that does with the rows what the two statements say.
pub record IsTable (table : Table) : Type 0 where
  pub deletes : (u : Text) (ms : List Member) → table.delete_member u ms ≡ rows_after none u ms
  pub updates :
      (u : Text) (r : ProjectRole) (ms : List Member)
      → table.update_role u r ms ≡ rows_after (some r) u ms

-- A request to the service.
pub data Request : Type 0 where
  remove_request : Text → Request
  role_request : Text → ProjectRole → Request

-- The rows after a request: an error leaves them.
abbrev pub rows_of : Failure ⊎ List Member → List Member → List Member
rows_of (inl _) ms = ms
rows_of (inr rows) ms = rows

module _ (table : Table) where
  pub serve : Option ProjectKind → Request → List Member → List Member
  serve kind (remove_request u) ms = rows_of (remove_user_from_project table kind u ms) ms
  serve kind (role_request u r) ms = rows_of (update_project_member_role table kind u r ms) ms

  pub serve_all : Option ProjectKind → List Request → List Member → List Member
  serve_all kind [] ms = ms
  serve_all kind (r ∷ rs) ms = serve_all kind rs (serve kind r ms)

  owners-remove :
      IsTable table
      → (kind : Option ProjectKind) (u : Text) (ms : List Member) → IsOwned ms
      → IsOwned (rows_of (remove_user_from_project table kind u ms) ms)
  unfolding remove_user_from_project
  owners-remove t none u ms h = h
  owners-remove t (some personal) u ms h = h
  owners-remove t (some team) u ms (d, h) =
      let one = owners-rows_one none u ms d in
      let other = owners-rows_other none u ms d in
      let rows = distinct-rows_after none u ms d in
      elim (Bool-cases (owns (find_member u ms) && leb (owners ms) 1)) [
        | inl e ↦ rw e (d, h)
        | inr e ↦ rw (e, t.deletes u ms) (rows, ground (arith, one, other))
      ]

  owners-change_role :
      IsTable table
      → (o : Option Member) (u : Text) (r : ProjectRole) (ms : List Member) → IsOwned ms
      → (owns o ≡ false → owners ms ≤ owners (rows_after (some r) u ms))
      → IsOwned (rows_of (change_role table o u r ms) ms)
  owners-change_role t none u r ms h other = h
  owners-change_role t (some m) u r ms (d, h) other =
      let one = owners-rows_one (some r) u ms d in
      let promoted = owners-rows_promoted r u ms in
      let rows = distinct-rows_after (some r) u ms d in
      elim (Bool-cases (is_owner m.project_role && (not (is_owner r) && leb (owners ms) 1))) [
        | inl e ↦ rw e (d, h)
        | inr e ↦ rw (e, t.updates u r ms) (rows, ground (arith, one, promoted, other))
      ]

  owners-update :
      IsTable table
      → (kind : Option ProjectKind) (u : Text) (r : ProjectRole) (ms : List Member) → IsOwned ms
      → IsOwned (rows_of (update_project_member_role table kind u r ms) ms)
  unfolding update_project_member_role
  owners-update t none u r ms h = h
  owners-update t (some personal) u r ms h = h
  owners-update t (some team) u r ms h =
      owners-change_role t (find_member u ms) u r ms h (owners-rows_other (some r) u ms h.0)

  serve-IsOwned :
      IsTable table
      → (kind : Option ProjectKind) (r : Request) (ms : List Member) → IsOwned ms
      → IsOwned (serve kind r ms)
  unfolding serve
  serve-IsOwned t kind (remove_request u) ms h = owners-remove t kind u ms h
  serve-IsOwned t kind (role_request u r) ms h = owners-update t kind u r ms h

  -- Where the database does what the two statements say, a project with an owner, in which no user
  -- has two rows, has an owner and no user with two rows after every sequence of removals and
  -- changes of roles, whichever of them fail.
  pub serve_all-IsOwned :
      IsTable table
      → (kind : Option ProjectKind) (rs : List Request) (ms : List Member) → IsOwned ms
      → IsOwned (serve_all kind rs ms)
  unfolding serve_all
  serve_all-IsOwned t kind [] ms h = h
  serve_all-IsOwned t kind (r ∷ rs) ms h =
      serve_all-IsOwned t kind rs (serve kind r ms) (serve-IsOwned t kind r ms h)
