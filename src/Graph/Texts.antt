-- ===== src/Graph/Texts.antt =====
-- Equality of texts, and lists of texts as sets.
use tokyo_tester.Base.{
  ℕ, ◌≤◌, ◌<◌, ◌≡◌, ◌≢◌, refl, ◌↔◌, Bool, true, false, not, ◌&&◌, ◌||◌, List, [], ◌∷◌, arith, All,
  tally, ◌==◌, if◌then◌else◌,
}
use tokyo_tester.Names.{Text}

unfoldable pub text_eq : Text → Text → Bool
text_eq [] [] = true
text_eq [] (d ∷ u) = false
text_eq (c ∷ t) [] = false
text_eq (c ∷ t) (d ∷ u) = c == d && text_eq t u

eq_of_text_eq : (t u : Text) → text_eq t u ≡ true → t ≡ u
unfolding text_eq
eq_of_text_eq [] [] h = refl
eq_of_text_eq [] (d ∷ u) h = cc
eq_of_text_eq (c ∷ t) [] h = cc
eq_of_text_eq (c ∷ t) (d ∷ u) h = ground (arith, eq_of_text_eq t u)

pub text_eq_refl : (t : Text) → text_eq t t ≡ true
unfolding text_eq
text_eq_refl [] = refl
text_eq_refl (c ∷ t) = ground (arith, text_eq_refl t)

pub text_eq_iff : (t u : Text) → (text_eq t u ≡ true) ↔ (t ≡ u)
text_eq_iff t u = (eq_of_text_eq t u, λ e. rw e (text_eq_refl u))

unfoldable pub has : Text → List Text → Bool
has t [] = false
has t (u ∷ us) = text_eq u t || has t us

unfoldable pub remove : Text → List Text → List Text
remove t [] = []
remove t (u ∷ us) = let rest = remove t us in if text_eq u t then rest else u ∷ rest

pub has_self : (t : Text) (us : List Text) → has t (t ∷ us) ≡ true
unfolding has
has_self t us = rw (text_eq_refl t)

pub has-cons : (t u : Text) (us : List Text) → has t us ≡ true → has t (u ∷ us) ≡ true
unfolding has
has-cons t u us h = ground arith

pub has-nil : (t : Text) → has t [] ≢ true
unfolding has
has-nil t h = cc

pub has-later :
    (t u : Text) (us : List Text) → has t (u ∷ us) ≡ true → text_eq u t ≡ false → has t us ≡ true
unfolding has
has-later t u us h e = ground arith

pub head_of :
    (t u : Text) (us : List Text) → has t (u ∷ us) ≡ true → has t us ≡ false → text_eq u t ≡ true
unfolding has
head_of t u us h e = ground arith

-- A predicate on all texts of a list, from the membership test and back.
pub All-of_has :
    (P : Text → Type 0) (us : List Text) → ((t : Text) → has t us ≡ true → P t) → All P us
All-of_has P [] f = tt
All-of_has P (u ∷ us) f = (f u (has_self u us), All-of_has P us (λ t h. f t (has-cons t u us h)))

-- Taking a text out of a list that has it not changes nothing.
pub remove_free : (t : Text) (us : List Text) → has t us ≡ false → remove t us ≡ us
unfolding has remove
remove_free t [] h = refl
remove_free t (u ∷ us) h = ground (arith, remove_free t us)

pub remove-cons : (t : Text) (us : List Text) → has t us ≡ false → remove t (t ∷ us) ≡ us
unfolding remove
remove-cons t us h = rw (text_eq_refl t) (remove_free t us h)

-- How many of these names are not in the list: what a search may still mark.
abbrev pub unmarked : List Text → List Text → ℕ
unmarked marks names = tally (λ k. not (has k marks)) names

-- Marking never leaves more.
pub unmarked-cons_le :
    (t : Text) (marks names : List Text) → unmarked (t ∷ marks) names ≤ unmarked marks names
unfolding has
unmarked-cons_le t marks [] = omega arith
unmarked-cons_le t marks (k ∷ names) = ground (arith, unmarked-cons_le t marks names)

-- Marking a name of the list that has no mark leaves fewer.
pub unmarked-cons_lt :
    (t : Text) (marks names : List Text)
    → has t names ≡ true
    → has t marks ≡ false
    → unmarked (t ∷ marks) names < unmarked marks names
unfolding has
unmarked-cons_lt t marks [] h f = cc
unmarked-cons_lt t marks (k ∷ names) h f = ground (
  arith,
  text_eq_iff k t,
  text_eq_refl t,
  text_eq_iff t k,
  unmarked-cons_le t marks names,
  unmarked-cons_lt t marks names,
)
