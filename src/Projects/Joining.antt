-- ===== src/Projects/Joining.antt =====
-- Who belongs to a project after `addUsersToProject` of
-- ui-v2/src/modules/projects/server/service.ts.
use tokyo_tester.Base.{
  ◌≡◌, refl, sym, ap, ◌∙◌, Bool, Bool-cases, true, false, ◌&&◌, ◌||◌, inl, inr, Option, none, some,
  List, [], ◌∷◌, ◌++◌, any, all, arith, if◌then◌else◌,
}
use tokyo_tester.Names.{Text}
use tokyo_tester.Graph.Texts.{text_eq, text_eq_iff, has}
use tokyo_tester.Projects.{ProjectRole}
use tokyo_tester.Projects.Membership.{Project, MemberRow, Rows, is_team, get_project}
use tokyo_tester.Projects.Workspaces.{
  is_member, member_row, DatabaseType, postgres, mysql, JoinError, unknown_user, can_join,
  insert_member, add_members, settle_members, add_to_found, add_users_to_project,
}

-- The row of a user in a project.
abbrev pub row_of : Text → Text → List MemberRow → Option MemberRow
row_of p u [] = none
row_of p u (m ∷ ms) = if is_member p u m then some m else row_of p u ms

-- The row that was there, or else this one if the user is among those added.
abbrev pub joined : Option MemberRow → MemberRow → Bool → Option MemberRow
joined (some m) new added = some m
joined none new added = if added then some new else none

row_of-append :
    (p u : Text) (ms : List MemberRow) (n : MemberRow)
    → row_of p u (ms ++ n ∷ []) ≡ joined (row_of p u ms) n (is_member p u n)
row_of-append p u [] n = refl
row_of-append p u (m ∷ ms) n = elim (Bool-cases (is_member p u m)) [
  | inl here ↦ rw here refl
  | inr later ↦ rw later (row_of-append p u ms n)
]

any-row_of :
    (p u : Text) (ms : List MemberRow) → row_of p u ms ≡ none → any (is_member p u) ms ≡ false
any-row_of p u [] e = refl
any-row_of p u (m ∷ ms) e = elim (Bool-cases (is_member p u m)) [
  | inl here ↦ let taken : row_of p u (m ∷ ms) ≡ some m = rw here refl in cc
  | inr later ↦
      let rest : row_of p u (m ∷ ms) ≡ row_of p u ms = rw later refl in
      rw later (any-row_of p u ms (sym rest ∙ e))
]

joined_same :
    (o : Option MemberRow) (m n : MemberRow) (added : Bool)
    → (added ≡ true → m ≡ n)
    → joined o m added ≡ joined o n added
joined_same (some x) m n added f = refl
joined_same none m n true f = ap (λ k. some k) (f refl)
joined_same none m n false f = refl

joined_twice :
    (o : Option MemberRow) (n : MemberRow) (a b : Bool)
    → joined (joined o n a) n b ≡ joined o n (a || b)
joined_twice (some x) n a b = refl
joined_twice none n true b = refl
joined_twice none n false b = refl

joined_present :
    (o : Option MemberRow) (n : MemberRow) (added : Bool)
    → (o ≡ none → added ≡ false)
    → o ≡ joined o n added
joined_present (some x) n added f = refl
joined_present none n added f = rw (f refl) refl

row_of-insert_member :
    (p : Text) (r : ProjectRole) (v q u : Text) (ms : List MemberRow)
    → row_of q u (insert_member p r v ms)
      ≡ joined (row_of q u ms) (member_row p u r) (text_eq p q && text_eq v u)
unfolding insert_member
row_of-insert_member p r v q u ms = elim (Bool-cases (any (is_member p v) ms)) [
  | inl there ↦ rw there (
      joined_present (row_of q u ms) (member_row p u r) (text_eq p q && text_eq v u)
        (λ e. not_both (any-row_of q u ms e) there))
  | inr missing ↦ rw missing (
      row_of-append q u ms (member_row p v r)
      ∙ joined_same (row_of q u ms) (member_row p v r) (member_row p u r)
          (text_eq p q && text_eq v u)
          (λ h. ap (λ k. member_row p k r) (ground (arith, text_eq_iff v u))))
]
  where
    not_both :
        any (is_member q u) ms ≡ false
        → any (is_member p v) ms ≡ true
        → (text_eq p q && text_eq v u) ≡ false
    not_both no_row row = elim (Bool-cases (text_eq p q && text_eq v u)) [
      | inl both ↦
          let one : p ≡ q = ground (arith, text_eq_iff p q) in
          let two : v ≡ u = ground (arith, text_eq_iff v u) in
          let same : any (is_member p v) ms ≡ any (is_member q u) ms =
            ap (λ k. any (is_member k v) ms) one ∙ ap (λ k. any (is_member q k) ms) two in
          cc
      | inr other ↦ other
    ]

-- Those before the first one that fails the test.
abbrev pub until : (Text → Bool) → List Text → List Text
until p [] = []
until p (u ∷ us) = if p u then u ∷ until p us else []

until_same :
    (p q : Text → Bool) (us : List Text) → ((u : Text) → p u ≡ q u) → until p us ≡ until q us
until_same p q [] f = refl
until_same p q (u ∷ us) f = ground (arith, f u, until_same p q us f)

all_same : (p q : Text → Bool) (us : List Text) → ((u : Text) → p u ≡ q u) → all p us ≡ all q us
all_same p q [] f = refl
all_same p q (u ∷ us) f = ground (arith, f u, all_same p q us f)

until-all : (p : Text → Bool) (us : List Text) → all p us ≡ true → until p us ≡ us
until-all p [] h = refl
until-all p (u ∷ us) h = ground (arith, until-all p us)

any-append :
    (p u v : Text) (r : ProjectRole) (ms : List MemberRow)
    → any (is_member p u) (ms ++ member_row p v r ∷ [])
      ≡ (any (is_member p u) ms || (text_eq p p && text_eq v u))
any-append p u v r [] = ground arith
any-append p u v r (m ∷ ms) = ground (arith, any-append p u v r ms)

-- Adding a user who can join changes no other user's case.
can_join-insert_member :
    (known : List Text) (p : Text) (r : ProjectRole) (v u : Text) (ms : List MemberRow)
    → can_join known p ms v ≡ true
    → can_join known p (insert_member p r v ms) u ≡ can_join known p ms u
unfolding insert_member
can_join-insert_member known p r v u ms h = elim (Bool-cases (any (is_member p v) ms)) [
  | inl there ↦ rw there refl
  | inr missing ↦ rw missing (elim (Bool-cases (text_eq v u)) [
    | inl same ↦
        let one : has v known ≡ true = ground arith in
        let two : has v known ≡ has u known = ap (λ k. has k known) ((text_eq_iff v u).0 same) in
        ground (arith, any-append p u v r ms)
    | inr other ↦ ground (arith, any-append p u v r ms)
  ])
]

-- The error of an addition in which not everybody can join.
abbrev pub unless_all : Bool → Option JoinError
unless_all true = none
unless_all false = some unknown_user

module _ (known : List Text) (p : Text) (r : ProjectRole) where
  error-add_members :
      (us : List Text) (ms : List MemberRow)
      → (add_members known p r us ms).1 ≡ unless_all (all (can_join known p ms) us)
  unfolding add_members
  error-add_members [] ms = refl
  error-add_members (v ∷ us) ms = elim (Bool-cases (can_join known p ms v)) [
    | inl joins ↦ rw joins (
        error-add_members us (insert_member p r v ms)
        ∙ ap unless_all (
            all_same (can_join known p (insert_member p r v ms)) (can_join known p ms) us
              (λ u. can_join-insert_member known p r v u ms joins)))
    | inr fails ↦ rw fails refl
  ]

  row_of-add_members :
      (us : List Text) (q u : Text) (ms : List MemberRow)
      → row_of q u (add_members known p r us ms).0
        ≡ joined
            (row_of q u ms)
            (member_row p u r)
            (text_eq p q && has u (until (can_join known p ms) us))
  unfolding add_members has
  row_of-add_members [] q u ms =
      joined_present (row_of q u ms) (member_row p u r) (text_eq p q && false) (λ e. ground arith)
  row_of-add_members (v ∷ us) q u ms = elim (Bool-cases (can_join known p ms v)) [
    | inl joins ↦
        let same =
          until_same (can_join known p (insert_member p r v ms)) (can_join known p ms) us
            (λ w. can_join-insert_member known p r v w ms joins) in
        let later = until (can_join known p ms) us in
        rw joins (
          row_of-add_members us q u (insert_member p r v ms)
          ∙ ap
              (λ l.
                joined (row_of q u (insert_member p r v ms)) (member_row p u r)
                  (text_eq p q && has u l))
              same
          ∙ ap (λ o. joined o (member_row p u r) (text_eq p q && has u later))
              (row_of-insert_member p r v q u ms)
          ∙ joined_twice (row_of q u ms) (member_row p u r) (text_eq p q && text_eq v u)
              (text_eq p q && has u later)
          ∙ ap (joined (row_of q u ms) (member_row p u r)) (ground arith))
    | inr fails ↦ rw fails (
        joined_present (row_of q u ms) (member_row p u r) (text_eq p q && false)
          (λ e. ground arith))
  ]

-- The users who are added: all of them, or else with MySQL those before the first one who cannot be, and
-- with Postgres nobody.
abbrev pub added : DatabaseType → (Text → Bool) → List Text → List Text
added mysql p us = until p us
added postgres p us = if all p us then us else []

settle_members_postgres :
    (before : List MemberRow) (end : List MemberRow × Option JoinError) (b : Bool)
    → end.1 ≡ unless_all b
    → ((settle_members postgres before end).1 ≡ unless_all b)
      × ((settle_members postgres before end).0 ≡ (if b then end.0 else before))
settle_members_postgres before (ms, none) true e = (refl, refl)
settle_members_postgres before (ms, none) false e = cc
settle_members_postgres before (ms, some error) true e = cc
settle_members_postgres before (ms, some error) false e = (e, refl)

module _ (known : List Text) (p : Text) (us : List Text) (r : ProjectRole)
    (ms : List MemberRow) where
  -- An addition that leaves these rows, with this error.
  abbrev pub Joins : DatabaseType → List MemberRow × Option JoinError → Type 0
  Joins database end =
      (end.1 ≡ unless_all (all (can_join known p ms) us))
      × ((q u : Text)
          → row_of q u end.0
            ≡ joined (row_of q u ms) (member_row p u r)
                (text_eq p q && has u (added database (can_join known p ms) us)))

  postgres_rows :
      (b : Bool) (q u : Text)
      → all (can_join known p ms) us ≡ b
      → row_of q u (if b then (add_members known p r us ms).0 else ms)
        ≡ joined (row_of q u ms) (member_row p u r) (text_eq p q && has u (if b then us else []))
  unfolding has
  postgres_rows true q u e =
      row_of-add_members known p r us q u ms
      ∙ ap (λ l. joined (row_of q u ms) (member_row p u r) (text_eq p q && has u l))
          (until-all (can_join known p ms) us e)
  postgres_rows false q u e =
      joined_present (row_of q u ms) (member_row p u r) (text_eq p q && false) (λ n. ground arith)

  settle_members-Joins :
      (database : DatabaseType)
      → Joins database (settle_members database ms (add_members known p r us ms))
  settle_members-Joins mysql =
      (error-add_members known p r us ms, λ q u. row_of-add_members known p r us q u ms)
  settle_members-Joins postgres =
      let b = all (can_join known p ms) us in
      let (error, rows) =
        settle_members_postgres ms (add_members known p r us ms) b
          (error-add_members known p r us ms) in
      (error, λ q u. ap (row_of q u) rows ∙ postgres_rows b q u refl)

-- Adding users to a team throws exactly where somebody among them is neither in the table of users nor in
-- the team. Afterwards each user who is added has a row with the role, in this project only, but for
-- those who had a row in it: their rows, and all others, stay as they are. All of them are added where
-- it does not throw; where it throws, with MySQL those before the first such user, and with Postgres
-- nobody. Projects stay as they are.
pub row_of-add_users_to_project :
    (database : DatabaseType) (known : List Text) (p : Text) (us : List Text) (r : ProjectRole)
    (rows : Rows) (project : Project)
    → get_project p rows.projects ≡ some project
    → is_team project.kind ≡ true
    → (let (after, error) = add_users_to_project database known p us r rows in
        Joins known p us r rows.project_members database (after.project_members, error)
        × (after.projects ≡ rows.projects))
unfolding add_users_to_project add_to_found add_members
row_of-add_users_to_project mysql known p [] r rows project e k =
    (settle_members-Joins known p [] r rows.project_members mysql, refl)
row_of-add_users_to_project postgres known p [] r rows project e k =
    (settle_members-Joins known p [] r rows.project_members postgres, refl)
row_of-add_users_to_project database known p (v ∷ us) r rows project e k =
    rw (e, k) (settle_members-Joins known p (v ∷ us) r rows.project_members database, refl)
