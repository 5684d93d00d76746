-- ===== src/Graph/Sets.antt =====
-- Lists of texts as finite sets: how many there can be of one in another.
use tokyo_tester.Base.{
  ◌≤◌, ◌<◌, ◌≡◌, refl, Bool, Bool-cases, inl, inr, true, false, not, ◌&&◌, List, [], ◌∷◌, map, all,
  length, arith,
}
use tokyo_tester.Names.{Text}
use tokyo_tester.Graph.Texts.{text_eq, text_eq_iff, text_eq_refl, has, has_self, has-cons, remove}

-- No text stands twice.
abbrev pub distinct : List Text → Bool
distinct [] = true
distinct (i ∷ is) = not (has i is) && distinct is

abbrev pub all_in : List Text → List Text → Bool
all_in us ts = all (λ t. has t us) ts

pub length-remove_le : (t : Text) (us : List Text) → length (remove t us) ≤ length us
unfolding remove
length-remove_le t [] = omega arith
length-remove_le t (u ∷ us) = ground (arith, length-remove_le t us)

pub length-remove_lt :
    (t : Text) (us : List Text) → has t us ≡ true → length (remove t us) < length us
unfolding remove has
length-remove_lt t [] h = cc
length-remove_lt t (u ∷ us) h = ground (arith, length-remove_le t us, length-remove_lt t us)

pub has-remove_ne :
    (t i : Text) (us : List Text)
    → text_eq i t ≡ false
    → has t us ≡ true
    → has t (remove i us) ≡ true
unfolding remove has
has-remove_ne t i [] n h = cc
has-remove_ne t i (u ∷ us) n h =
    ground (arith, has-remove_ne t i us, text_eq_iff u i, text_eq_iff u t, text_eq_iff i t)

pub has-of_remove : (t i : Text) (us : List Text) → has t (remove i us) ≡ true → has t us ≡ true
unfolding remove has
has-of_remove t i [] h = h
has-of_remove t i (u ∷ us) h = ground (arith, has-of_remove t i us)

-- What is not in a list is none of its texts.
pub text_eq-absent :
    (t i : Text) (us : List Text) → has i us ≡ false → has t us ≡ true → text_eq i t ≡ false
text_eq-absent t i us n h = ground (arith, text_eq_iff i t)

pub all_in-remove :
    (i : Text) (bs xs : List Text)
    → has i xs ≡ false
    → all_in bs xs ≡ true
    → all_in (remove i bs) xs ≡ true
unfolding has
all_in-remove i bs [] n h = refl
all_in-remove i bs (a ∷ xs) n h =
    ground (arith, all_in-remove i bs xs, has-remove_ne a i bs, text_eq_iff i a, text_eq_iff a i)

-- A list without repetitions whose texts are all in another is not longer.
pub length-distinct :
    (xs bs : List Text) → distinct xs ≡ true → all_in bs xs ≡ true → length xs ≤ length bs
length-distinct [] bs d h = omega arith
length-distinct (a ∷ xs) bs d h =
    ground (arith, length-distinct xs (remove a bs), all_in-remove a bs xs, length-remove_lt a bs)

-- If it is as long as the other, it has all the texts of the other.
pub has-of_length :
    (xs bs : List Text) (t : Text)
    → distinct xs ≡ true
    → all_in bs xs ≡ true
    → length bs ≤ length xs
    → has t bs ≡ true
    → has t xs ≡ true
has-of_length [] [] t d h l m = m
has-of_length [] (b ∷ bs) t d h l m = absurd (omega (arith, l))
has-of_length (a ∷ xs) bs t d h l m = elim (Bool-cases (text_eq a t)) [
  | inl same ↦ ground (arith, text_eq_iff a t, has_self t xs)
  | inr other ↦
      let shorter = length-remove_lt a bs in
      ground (
        arith,
        shorter,
        all_in-remove a bs xs,
        has-cons t a xs,
        has-remove_ne t a bs,
        has-of_length xs (remove a bs) t,
      )
]

pub all_in-of :
    (bs xs : List Text) → ((i : Text) → has i xs ≡ true → has i bs ≡ true) → all_in bs xs ≡ true
unfolding has
all_in-of bs [] f = refl
all_in-of bs (x ∷ xs) f =
    ground (arith, f x, text_eq_refl x, all_in-of bs xs (λ i h. f i (has-cons i x xs h)))

pub has-of_all_in :
    (bs xs : List Text) (i : Text) → all_in bs xs ≡ true → has i xs ≡ true → has i bs ≡ true
unfolding has
has-of_all_in bs [] i h k = cc
has-of_all_in bs (x ∷ xs) i h k = ground (arith, text_eq_iff x i, has-of_all_in bs xs i)

module _ (f : Text → Text) where
  pub has-map : (i : Text) (xs : List Text) → has i xs ≡ true → has (f i) (map f xs) ≡ true
  unfolding has
  has-map i [] h = cc
  has-map i (x ∷ xs) h =
      ground (arith, text_eq_iff x i, text_eq_iff (f x) (f i), text_eq_refl (f i), has-map i xs)

  pub all_in-map : (bs xs : List Text) → all_in bs xs ≡ true → all_in (map f bs) (map f xs) ≡ true
  unfolding has
  all_in-map bs [] h = refl
  all_in-map bs (x ∷ xs) h = ground (arith, has-map x bs, all_in-map bs xs)

  pub length-map : (xs : List Text) → length (map f xs) ≡ length xs
  length-map [] = refl
  length-map (x ∷ xs) = omega (arith, length-map xs)

  -- `f` gives different texts of `known` different texts.
  abbrev pub IsOneToOne : List Text → Type 0
  IsOneToOne known = (i j : Text) → has i known ≡ true → has j known ≡ true → f i ≡ f j → i ≡ j

  pub has-of_map :
      (known : List Text) (i : Text) (xs : List Text)
      → IsOneToOne known
      → has i known ≡ true
      → all_in known xs ≡ true
      → has i xs ≡ false
      → has (f i) (map f xs) ≡ false
  unfolding has
  has-of_map known i [] one k h n = refl
  has-of_map known i (x ∷ xs) one k h n =
      ground (arith, text_eq_iff x i, text_eq_iff (f x) (f i), one x i, has-of_map known i xs one)

  pub distinct-map :
      (known xs : List Text)
      → IsOneToOne known
      → all_in known xs ≡ true
      → distinct xs ≡ true
      → distinct (map f xs) ≡ true
  distinct-map known [] one h d = refl
  distinct-map known (x ∷ xs) one h d =
      ground (arith, has-of_map known x xs one, distinct-map known xs one)
