-- ===== src/Projects/Personal.antt =====
-- The personal workspace that `ensurePersonalProject` of ui-v2/src/modules/projects/server/service.ts
-- gives a user.
use mathlib.Core.Path.{subst}
use tokyo_tester.Base.{
  ◌≡◌, refl, sym, ap, ◌∙◌, Bool-cases, true, false, ◌||◌, inl, inr, Option, none, some, List, [],
  ◌∷◌, ◌++◌, any, arith,
}
use tokyo_tester.Names.{Text}
use tokyo_tester.Graph.Texts.{text_eq, text_eq_refl}
use tokyo_tester.Bundle.{codes}
use tokyo_tester.Projects.{personal, ProjectRole, owner}
use tokyo_tester.Projects.Membership.{Project, MemberRow, Rows, ProjectMembership, map_membership}
use tokyo_tester.Projects.Workspaces.{
  is_member, set_owner, is_personal_of, find_existing, insert_personal, with_personal, own_personal,
  ensure_personal_project,
}
use tokyo_tester.Projects.Joining.{row_of}

abbrev pub role_in : Option MemberRow → Option ProjectRole
role_in none = none
role_in (some m) = m.role

set_owner_idem :
    (p u : Text) (ms : List MemberRow) → set_owner p u (set_owner p u ms) ≡ set_owner p u ms
unfolding set_owner
set_owner_idem p u [] = ground (arith, text_eq_refl p, text_eq_refl u)
set_owner_idem p u (m ∷ ms) = elim (Bool-cases (is_member p u m)) [
  | inl here ↦ rw (here, here) refl
  | inr later ↦ rw (later, later) (ap (λ l. m ∷ l) (set_owner_idem p u ms))
]

role_in-set_owner :
    (p u : Text) (ms : List MemberRow) → role_in (row_of p u (set_owner p u ms)) ≡ some owner
unfolding set_owner
role_in-set_owner p u [] = rw (text_eq_refl p, text_eq_refl u) refl
role_in-set_owner p u (m ∷ ms) = elim (Bool-cases (is_member p u m)) [
  | inl here ↦ rw (here, here) refl
  | inr later ↦ rw (later, later) (role_in-set_owner p u ms)
]

abbrev personal_project : Text → Text → Project
personal_project i u = record { id = i; name = codes "Personal"; kind = personal; created_by = u }

find_existing-append :
    (u i : Text) (ps : List Project)
    → find_existing u ps ≡ none
    → find_existing u (ps ++ personal_project i u ∷ []) ≡ some (personal_project i u)
unfolding find_existing
find_existing-append u i [] e = rw (text_eq_refl u) refl
find_existing-append u i (p ∷ ps) e = elim (Bool-cases (is_personal_of u p)) [
  | inl mine ↦ let found : find_existing u (p ∷ ps) ≡ some p = rw mine refl in cc
  | inr other ↦
      let rest : find_existing u (p ∷ ps) ≡ find_existing u ps = rw other refl in
      rw other (find_existing-append u i ps (sym rest ∙ e))
]

no_personal :
    (u i : Text) (ps : List Project)
    → find_existing u ps ≡ none
    → any (λ p. text_eq p.id i) ps ≡ false
    → any (λ p. text_eq p.id i || is_personal_of u p) ps ≡ false
unfolding find_existing
no_personal u i [] e f = refl
no_personal u i (p ∷ ps) e f = elim (Bool-cases (is_personal_of u p)) [
  | inl mine ↦ let found : find_existing u (p ∷ ps) ≡ some p = rw mine refl in cc
  | inr other ↦
      let rest : find_existing u (p ∷ ps) ≡ find_existing u ps = rw other refl in
      let later : any (λ q. text_eq q.id i) ps ≡ false = ground arith in
      let ih = no_personal u i ps (sym rest ∙ e) later in ground (arith, ih)
]

-- After the first step the user has a personal project.
with_personal-found :
    (i u : Text) (o : Option Project) (ps : List Project)
    → find_existing u ps ≡ o
    → any (λ p. text_eq p.id i) ps ≡ false
    → (p : Project) × (find_existing u (with_personal i u o ps) ≡ some p)
unfolding with_personal insert_personal
with_personal-found i u (some p) ps e f = (p, e)
with_personal-found i u none ps e f =
    (personal_project i u, rw (no_personal u i ps e f) (find_existing-append u i ps e))

find_existing-mine :
    (u : Text) (ps : List Project) (p : Project)
    → find_existing u ps ≡ some p
    → is_personal_of u p ≡ true
unfolding find_existing
find_existing-mine u [] p e = cc
find_existing-mine u (q ∷ ps) p e = elim (Bool-cases (is_personal_of u q)) [
  | inl mine ↦
      let same : find_existing u (q ∷ ps) ≡ some q = rw mine refl in
      let eq : q ≡ p = cc in subst (λ r. is_personal_of u r ≡ true) eq mine
  | inr other ↦
      let rest : find_existing u (q ∷ ps) ≡ find_existing u ps = rw other refl in
      find_existing-mine u ps p (sym rest ∙ e)
]

own_personal_lem :
    (u : Text) (o : Option Project) (p : Project) (rows : Rows)
    → o ≡ some p
    → own_personal u o rows
      ≡ some (
        record rows { project_members = set_owner p.id u rows.project_members },
        map_membership p (some owner) false,
      )
unfolding own_personal
own_personal_lem u o p rows e = rw e refl

-- A personal project that is there is used as it is.
again :
    (j u : Text) (p : Project) (rows : Rows)
    → find_existing u rows.projects ≡ some p
    → ensure_personal_project j u rows ≡ own_personal u (some p) rows
unfolding ensure_personal_project with_personal
again j u p rows e = rw (e, e) refl

-- For a new id, `ensurePersonalProject` always gives the user a personal workspace that the user has
-- created and owns, and calling it again, with whatever id, changes no row and gives the same.
pub ensure_personal_project-settles :
    (i j u : Text) (rows : Rows)
    → any (λ p. text_eq p.id i) rows.projects ≡ false
    → (after : Rows) × ((m : ProjectMembership) × ((ensure_personal_project i u rows
            ≡ some (after, m))
          × ((ensure_personal_project j u after ≡ some (after, m))
              × ((is_personal_of u m.project ≡ true)
                  × (role_in (row_of m.project.id u after.project_members) ≡ some owner)))))
unfolding ensure_personal_project own_personal map_membership
ensure_personal_project-settles i j u rows new =
    let ps = with_personal i u (find_existing u rows.projects) rows.projects in
    let (p, found) =
      with_personal-found i u (find_existing u rows.projects) rows.projects refl new in
    let members = set_owner p.id u rows.project_members in
    let after : Rows = record { projects = ps; project_members = members } in
    let m = map_membership p (some owner) false in
    (
      after,
      (
        m,
        (
          own_personal_lem u (find_existing u ps) p (record rows { projects = ps }) found,
          (
            again j u p after found
                ∙ own_personal_lem u (some p) p after refl
                ∙ ap (λ l. some (record after { project_members = l }, m))
                    (set_owner_idem p.id u rows.project_members),
            (find_existing-mine u ps p found, role_in-set_owner p.id u rows.project_members),
          ),
        ),
      ),
    )
