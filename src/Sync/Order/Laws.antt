-- ===== src/Sync/Order/Laws.antt =====
-- What `orderSyncChanges` of sync-service.ts makes of a batch.
use tokyo_tester.Base.{
  ℕ, ◌+◌, ◌≤◌, ◌<◌, ◌≡◌, refl, ◌∙◌, inl, inr, true, false, List, [], ◌∷◌, ◌++◌, map, arith, All,
  Bool-cases, if◌then◌else◌,
}
use tokyo_tester.Sync.{
  EntityType, workflow, scenario, workflow_run, scenario_run, test_result, SyncChange, same_type,
}
use tokyo_tester.Sync.Order.{rank, Indexed, not_after, place, sort, number_from, order_sync_changes}

-- The changes about entities of one type, in their order.
abbrev pub of_type : EntityType → List SyncChange → List SyncChange
of_type t [] = []
of_type t (c ∷ cs) = if same_type c.entity_type t then c ∷ of_type t cs else of_type t cs

-- Every change is followed by changes of the same or a higher rank only.
abbrev pub Ordered : List SyncChange → Type 0
Ordered [] = Unit
Ordered (c ∷ cs) = All (λ d. rank c.entity_type ≤ rank d.entity_type) cs × Ordered cs

abbrev changes : List Indexed → List SyncChange
changes l = map (λ a. a.change) l

abbrev From : ℕ → List Indexed → Type 0
From i bs = All (λ b. i ≤ b.index) bs

same_type-rank : (t u : EntityType) → same_type t u ≡ true → rank t ≡ rank u
unfolding rank
same_type-rank t u e = ground arith

place-From :
    (i : ℕ) (a : Indexed) (bs : List Indexed) → i ≤ a.index → From i bs → From i (place a bs)
unfolding place
place-From i a [] h f = (h, tt)
place-From i a (b ∷ bs) h (k, f) = elim (Bool-cases (not_after a b)) [
  | inl e ↦ rw e (h, (k, f))
  | inr e ↦ rw e (k, place-From i a bs h f)
]

sort-From : (i : ℕ) (l : List Indexed) → From i l → From i (sort l)
unfolding sort
sort-From i [] f = tt
sort-From i (a ∷ l) (h, f) = place-From i a (sort l) h (sort-From i l f)

-- Where the comparator puts `b` before an `a` of smaller index, its rank is smaller.
before_by_rank :
    (a b : Indexed)
    → a.index ≤ b.index
    → not_after a b ≡ false
    → rank b.change.entity_type < rank a.change.entity_type
unfolding not_after
before_by_rank a b h e = ground arith

after_by_rank :
    (a b : Indexed) → not_after a b ≡ true → rank a.change.entity_type ≤ rank b.change.entity_type
unfolding not_after
after_by_rank a b e = ground arith

place-of_type :
    (t : EntityType) (a : Indexed) (bs : List Indexed)
    → From a.index bs
    → of_type t (changes (place a bs)) ≡ of_type t (a.change ∷ changes bs)
unfolding place
place-of_type t a [] f = refl
place-of_type t a (b ∷ bs) (h, f) = elim (Bool-cases (not_after a b)) [
  | inl e ↦ rw e
  | inr e ↦ ground (
    arith,
    e,
    place-of_type t a bs f,
    before_by_rank a b h e,
    same_type-rank a.change.entity_type t,
    same_type-rank b.change.entity_type t,
  )
]

number_from-From : (i j : ℕ) (cs : List SyncChange) → i ≤ j → From i (number_from j cs)
unfolding number_from
number_from-From i j [] h = tt
number_from-From i j (c ∷ cs) h = (h, number_from-From i (j + 1) cs (omega arith))

sort-number_from-From : (i : ℕ) (cs : List SyncChange) → From i (sort (number_from (i + 1) cs))
sort-number_from-From i cs =
    sort-From i (number_from (i + 1) cs) (number_from-From i (i + 1) cs (omega arith))

sort-of_type :
    (t : EntityType) (i : ℕ) (cs : List SyncChange)
    → of_type t (changes (sort (number_from i cs))) ≡ of_type t cs
unfolding sort number_from
sort-of_type t i [] = refl
sort-of_type t i (c ∷ cs) =
    place-of_type t (record { change = c; index = i }) (sort (number_from (i + 1) cs))
      (sort-number_from-From i cs)
    ∙ ground (arith, sort-of_type t (i + 1) cs)

-- What a list of changes has of ranks, put in one place: `a` is placed among ordered changes.
above-place :
    (k : ℕ) (a : Indexed) (bs : List Indexed)
    → k ≤ rank a.change.entity_type
    → All (λ d. k ≤ rank d.entity_type) (changes bs)
    → All (λ d. k ≤ rank d.entity_type) (changes (place a bs))
unfolding place
above-place k a [] h f = (h, tt)
above-place k a (b ∷ bs) h (g, f) = elim (Bool-cases (not_after a b)) [
  | inl e ↦ rw e (h, (g, f))
  | inr e ↦ rw e (g, above-place k a bs h f)
]

lower :
    (k m : ℕ) (cs : List SyncChange)
    → k ≤ m
    → All (λ d. m ≤ rank d.entity_type) cs
    → All (λ d. k ≤ rank d.entity_type) cs
lower k m [] h f = tt
lower k m (c ∷ cs) h (g, f) = (omega arith, lower k m cs h f)

place-Ordered :
    (a : Indexed) (bs : List Indexed)
    → From a.index bs
    → Ordered (changes bs)
    → Ordered (changes (place a bs))
unfolding place
place-Ordered a [] f o = (tt, tt)
place-Ordered a (b ∷ bs) (h, f) (low, o) = elim (Bool-cases (not_after a b)) [
  | inl e ↦
      let a-le-b = after_by_rank a b e in
      rw e ((a-le-b, lower (rank a.change.entity_type) _ (changes bs) a-le-b low), (low, o))
  | inr e ↦ rw e (
    above-place (rank b.change.entity_type) a bs (omega (arith, before_by_rank a b h e)) low,
    place-Ordered a bs f o,
  )
]

sort-Ordered : (i : ℕ) (cs : List SyncChange) → Ordered (changes (sort (number_from i cs)))
unfolding sort number_from
sort-Ordered i [] = tt
sort-Ordered i (c ∷ cs) =
    place-Ordered (record { change = c; index = i }) (sort (number_from (i + 1) cs))
      (sort-number_from-From i cs) (sort-Ordered (i + 1) cs)

-- The ranks only grow.
pub order_sync_changes-Ordered : (cs : List SyncChange) → Ordered (order_sync_changes cs)
unfolding order_sync_changes
order_sync_changes-Ordered cs = sort-Ordered 0 cs

-- The changes of one entity type go out as they were queued: none is lost, added or overtaken.
pub order_sync_changes-of_type :
    (t : EntityType) (cs : List SyncChange) → of_type t (order_sync_changes cs) ≡ of_type t cs
unfolding order_sync_changes
order_sync_changes-of_type t cs = sort-of_type t 0 cs

-- A list of the five types in turn.
by_type : List SyncChange → List SyncChange
by_type cs =
    of_type workflow cs
    ++ (of_type scenario cs
        ++ (of_type workflow_run cs ++ (of_type scenario_run cs ++ of_type test_result cs)))

in_turn :
    List SyncChange
    → List SyncChange
    → List SyncChange
    → List SyncChange
    → List SyncChange
    → List SyncChange
in_turn v w x y z = v ++ (w ++ (x ++ (y ++ z)))
