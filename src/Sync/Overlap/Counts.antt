-- ===== src/Sync/Overlap/Counts.antt =====
-- How many changes of an entity the queue, the calls that wait and the delivered changes of
-- sync-service.ts hold together, whatever overlaps.
use tokyo_tester.Base.{
  ℕ, suc, zero, ◌+◌, ◌≡◌, refl, sym, ap, ◌∙◌, inl, inr, String, Bool, true, false, not, ◌&&◌,
  Option, none, some, List, [], ◌∷◌, ◌++◌, map, get_elem?, take, drop, tally, arith, Bool-cases,
  Option-cases, eq_iff, ◌===◌, if◌then◌else◌,
}
use tokyo_tester.Sync.Repair.{is_insert, is_update}
use tokyo_tester.Sync.{EntityType, ChangeType, SyncChange, same_type, same_entity}
use tokyo_tester.Sync.Service.{Env, coalesce}
use tokyo_tester.Queue.{to_array}
use tokyo_tester.Sync.Service.Flushing.{entity}
use tokyo_tester.Sync.Overlap.{Waiting, first, second, System, Event, queue_event, step}

-- What goes back to the queue if the call fails.
abbrev pub batch_of : Waiting → List SyncChange
batch_of (first batch) = batch
batch_of (second batch repaired) = batch

same_type_eq : (a b : EntityType) → same_type a b ≡ true → a ≡ b
same_type_eq a b h = ground arith

same_entity-entity : (a b : SyncChange) → same_entity a b ≡ true → entity a ≡ entity b
unfolding same_entity
same_entity-entity a b h =
    ground (arith, same_type_eq a.entity_type b.entity_type, eq_iff a.entity_id b.entity_id)

module _ (t : EntityType) (i : String) where
  abbrev pub about : EntityType × String → Bool
  about e = same_type e.0 t && e.1 === i

  abbrev pub of_entity : SyncChange → Bool
  of_entity c = about (entity c)

  -- Changes of the entity in a list, and in what goes back to the queue if a waiting call fails.
  abbrev pub many : List SyncChange → ℕ
  many cs = tally of_entity cs

  abbrev pub many_waiting : List Waiting → ℕ
  many_waiting [] = 0
  many_waiting (w ∷ ws) = many (batch_of w) + many_waiting ws

  abbrev pub first_change : List SyncChange → Option SyncChange
  first_change [] = none
  first_change (c ∷ cs) = if of_entity c then some c else first_change cs

  -- Whether a change of the entity is merged, where this is the first one of it in the queue.
  abbrev pub merges : ChangeType → Option SyncChange → Bool
  merges k none = false
  merges k (some c) = is_insert c.change_type && is_update k

  -- How many changes of the entity an event adds to the queue: a change is dropped where the service is
  -- disabled.
  abbrev pub added : Event → System → ℕ
  added (queue_event u j k content now) sys =
      if about (u, j)
        && (sys.service.enabled && not (merges k (first_change (to_array sys.service.sync_queue))))
      then 1
      else 0
  added _ sys = 0

  abbrev pub added_by : Env → List Event → System → ℕ
  added_by env [] sys = 0
  added_by env (e ∷ es) sys = added e sys + added_by env es (step env e sys)

  pub many-entities : (xs ys : List SyncChange) → map entity xs ≡ map entity ys → many xs ≡ many ys
  many-entities xs ys e = many_of xs ∙ ap (tally about) e ∙ sym (many_of ys)
    where
      many_of : (zs : List SyncChange) → many zs ≡ tally about (map entity zs)
      many_of [] = refl
      many_of (z ∷ zs) = ground (arith, many_of zs)

  pub many_waiting-append :
      (ws vs : List Waiting) → many_waiting (ws ++ vs) ≡ many_waiting ws + many_waiting vs
  many_waiting-append [] vs = omega arith
  many_waiting-append (w ∷ ws) vs = omega (arith, many_waiting-append ws vs)

  -- A call that goes on is taken out of those that wait.
  pub many_waiting-remove :
      (n : ℕ) (ws : List Waiting) (w : Waiting)
      → get_elem? ws n ≡ some w
      → many_waiting ws
        ≡ many_waiting (take n ws) + (many (batch_of w) + many_waiting (drop (suc n) ws))
  many_waiting-remove n [] w e = cc
  many_waiting-remove zero (v ∷ ws) w e = let same : v ≡ w = cc in rw same (omega arith)
  many_waiting-remove (suc n) (v ∷ ws) w e = omega (arith, many_waiting-remove n ws w e)

  -- Merging changes no count.
  pub many-coalesce :
      (c : SyncChange) (xs ys : List SyncChange) → coalesce c xs ≡ some ys → many ys ≡ many xs
  unfolding coalesce
  many-coalesce c [] ys e = cc
  many-coalesce c (x ∷ xs) ys e = elim (Bool-cases (same_entity x c)) [
    | inl same ↦
        let alike : of_entity x ≡ of_entity c = ap about (same_entity-entity x c same) in
        ground (arith, alike)
    | inr other ↦ elim (Option-cases (coalesce c xs)) [
      | inl missing ↦ ground arith
      | inr (zs, found) ↦ ground (arith, many-coalesce c xs zs found)
    ]
  ]

  entity-same_entity :
      (a b : SyncChange) → of_entity a ≡ true → of_entity b ≡ true → same_entity a b ≡ true
  unfolding same_entity
  entity-same_entity a b h k = ground (
    arith,
    same_type_eq a.entity_type t,
    same_type_eq b.entity_type t,
    eq_iff a.entity_id i,
    eq_iff b.entity_id i,
    eq_iff a.entity_id b.entity_id,
  )

  alike : (c x : SyncChange) → of_entity c ≡ true → same_entity x c ≡ of_entity x
  alike c x h = elim (Bool-cases (same_entity x c)) [
    | inl same ↦
        let e : of_entity x ≡ of_entity c = ap about (same_entity-entity x c same) in
        same ∙ sym (e ∙ h)
    | inr other ↦ ground (arith, entity-same_entity x c)
  ]

  abbrev was_merged : Option (List SyncChange) → Bool
  was_merged none = false
  was_merged (some cs) = true

  was_merged_if :
      (same hit : Bool) (cs : List SyncChange) (x : SyncChange) (rest : Option (List SyncChange))
      → was_merged (
          if same
          then (if hit then some cs else none)
          else elim rest [ none ↦ none | some l ↦ some (x ∷ l) ])
        ≡ (if same then hit else was_merged rest)
  was_merged_if true true cs x rest = refl
  was_merged_if true false cs x rest = refl
  was_merged_if false hit cs x none = refl
  was_merged_if false hit cs x (some l) = refl

  merges_if :
      (b : Bool) (k : ChangeType) (x : SyncChange) (o : Option SyncChange)
      → (if b then is_insert x.change_type && is_update k else merges k o)
        ≡ merges k (if b then some x else o)
  merges_if true k x o = refl
  merges_if false k x o = refl

  -- A change is merged exactly where the first queued change of its entity is an insert, and it is an
  -- update.
  pub merges-coalesce :
      (c : SyncChange) (xs : List SyncChange)
      → of_entity c ≡ true
      → was_merged (coalesce c xs) ≡ merges c.change_type (first_change xs)
  unfolding coalesce
  merges-coalesce c [] h = refl
  merges-coalesce c (x ∷ xs) h =
      let hit = is_insert x.change_type && is_update c.change_type in
      was_merged_if (same_entity x c) hit _ x (coalesce c xs)
      ∙ ap (λ b. if b then hit else was_merged (coalesce c xs)) (alike c x h)
      ∙ ap (λ b. if of_entity x then hit else b) (merges-coalesce c xs h)
      ∙ merges_if (of_entity x) c.change_type x (first_change xs)

  pub merges-coalesce_absent :
      (c : SyncChange) (xs : List SyncChange)
      → of_entity c ≡ true
      → coalesce c xs ≡ none
      → merges c.change_type (first_change xs) ≡ false
  merges-coalesce_absent c xs h e = sym (merges-coalesce c xs h) ∙ ap was_merged e

  pub merges-coalesce_found :
      (c : SyncChange) (xs ys : List SyncChange)
      → of_entity c ≡ true
      → coalesce c xs ≡ some ys
      → merges c.change_type (first_change xs) ≡ true
  merges-coalesce_found c xs ys h e = sym (merges-coalesce c xs h) ∙ ap was_merged e
