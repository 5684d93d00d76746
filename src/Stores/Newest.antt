-- ===== src/Stores/Newest.antt =====
-- Copies of scenarios that come from the server, upsertScenarioFromSync of
-- ui-v2/src/modules/workflow/stores/scenario.store.sync.ts.
use mathlib.Core.Path.{subst}
use mathlib.Core.Option.{some-injective}
use tokyo_tester.Base.{
  ◌≡◌, ◌≢◌, refl, ap, ◌∙◌, ◌⊎◌, inl, inr, String, Bool, Bool-cases, true, false, not, ◌&&◌, ◌||◌,
  Option, none, some, List, [], ◌∷◌, map, all, ◌===◌, eq_iff, arith, if◌then◌else◌,
}
use tokyo_tester.Names.{Text}
use tokyo_tester.Bundle.{codes}
use tokyo_tester.Sync.Metadata.{SyncMetadataShape}
use tokyo_tester.Stores.{lookup, lookup-put, Wrapped, sync_set, or_blank, text_gt, is_newer}
use tokyo_tester.Stores.Scenarios.{
  StoredScenario, ScenarioStore, Writer, set_upserted, set_replaced, outdates,
}
use tokyo_tester.Stores.Actions.{upsert_scenario_from_sync}
use tokyo_tester.Stores.Edits.{upsert, perform_all}

text_gt_trans : (t u v : Text) → text_gt t u ≡ false → text_gt u v ≡ false → text_gt t v ≡ false
text_gt_trans [] u v h k = refl
text_gt_trans (c ∷ t) [] v h k = cc
text_gt_trans (c ∷ t) (d ∷ u) [] h k = cc
text_gt_trans (c ∷ t) (d ∷ u) (e ∷ v) h k = ground (arith, text_gt_trans t u v)

text_gt_asymm : (t u : Text) → text_gt t u ≡ true → text_gt u t ≡ false
text_gt_asymm [] u h = cc
text_gt_asymm (c ∷ t) [] h = refl
text_gt_asymm (c ∷ t) (d ∷ u) h = ground (arith, text_gt_asymm t u)

abbrev time_of : SyncMetadataShape → Text
time_of m = codes (or_blank m.updated_at)

is_newer_trans :
    (a b c : SyncMetadataShape) → is_newer a b ≡ false → is_newer b c ≡ false → is_newer a c ≡ false
unfolding is_newer
is_newer_trans a b c h k = ground (arith, text_gt_trans (time_of a) (time_of b) (time_of c))

is_newer_asymm : (a b : SyncMetadataShape) → is_newer a b ≡ true → is_newer b a ≡ false
unfolding is_newer
is_newer_asymm a b h = ground (arith, text_gt_asymm (time_of a) (time_of b))

-- A scenario is there, and these metadata are not newer than its own.
abbrev pub is_behind : SyncMetadataShape → Option StoredScenario → Bool
is_behind m none = false
is_behind m (some e) = not (is_newer m e.meta)

abbrev chosen : Option StoredScenario → StoredScenario → StoredScenario
chosen none s = s
chosen (some e) s = if is_newer e.meta s.meta then e else s

lookup-merged :
    (j : String) (s : StoredScenario) (st : ScenarioStore) (o : Option StoredScenario)
    → lookup s.id st.scenarios ≡ o
    → lookup j (if outdates o s then st else set_replaced s st).scenarios
      ≡ (if s.id === j then some (chosen o s) else lookup j st.scenarios)
unfolding set_replaced
lookup-merged j s st none e = lookup-put s.id j s st.scenarios
lookup-merged j s st (some t) e = elim (Bool-cases (is_newer t.meta s.meta)) [
  | inl older ↦ rw older ground (arith, eq_iff s.id j)
  | inr newer ↦ rw newer (lookup-put s.id j s st.scenarios)
]

-- What one copy leaves of a scenario.
lookup-set_upserted :
    (j : String) (s : StoredScenario) (st : ScenarioStore)
    → lookup j (set_upserted s st).scenarios
      ≡ (if s.id === j then some (chosen (lookup j st.scenarios) s) else lookup j st.scenarios)
unfolding set_upserted
lookup-set_upserted j s st =
    lookup-merged j s st (lookup s.id st.scenarios) refl ∙ ground (arith, eq_iff s.id j)

is_behind-chosen :
    (m : SyncMetadataShape) (o : Option StoredScenario) (s : StoredScenario)
    → is_behind m o ≡ true
    → is_behind m (some (chosen o s)) ≡ true
is_behind-chosen m none s h = cc
is_behind-chosen m (some e) s h = ground (arith, is_newer_trans m e.meta s.meta)

is_behind-chosen_self :
    (o : Option StoredScenario) (s : StoredScenario) → is_behind s.meta (some (chosen o s)) ≡ true
is_behind-chosen_self none s = ground (arith, is_newer_asymm s.meta s.meta)
is_behind-chosen_self (some e) s =
    ground (arith, is_newer_asymm s.meta s.meta, is_newer_asymm e.meta s.meta)

abbrev pub IsAmong : List StoredScenario → StoredScenario → Type 0
IsAmong [] s = ⊥
IsAmong (t ∷ ts) s = (t ≡ s) ⊎ IsAmong ts s

-- A scenario is the one that was there, or one of the copies that have arrived.
abbrev pub IsReceived : Option StoredScenario → List StoredScenario → Option StoredScenario → Type 0
IsReceived before ss none = before ≡ none
IsReceived before ss (some e) = (before ≡ some e) ⊎ IsAmong ss e

both : {a b : Bool} → a ≡ true → b ≡ true → (a && b) ≡ true
both h k = ground arith

or_else : (a : Bool) {b : Bool} → (a ≡ true → b ≡ true) → (not a || b) ≡ true
or_else true f = f refl
or_else false f = refl

none_ne : {e : StoredScenario} → some e ≢ none
none_ne h = cc

received_self : (o : Option StoredScenario) → IsReceived o [] o
received_self none = refl
received_self (some e) = inl refl

later :
    {o : Option StoredScenario} {s : StoredScenario} (ss : List StoredScenario) {e : StoredScenario}
    → (o ≡ some e) ⊎ IsAmong ss e
    → (o ≡ some e) ⊎ IsAmong (s ∷ ss) e
later ss (inl same) = inl same
later ss (inr among) = inr (inr among)

from_chosen :
    (s : StoredScenario) (ss : List StoredScenario) (o : Option StoredScenario) (e : StoredScenario)
    → some (chosen o s) ≡ some e
    → IsReceived o (s ∷ ss) (some e)
from_chosen s ss none e h = inr (inl (some-injective s e h))
from_chosen s ss (some t) e h = elim (Bool-cases (is_newer t.meta s.meta)) [
  | inl older ↦ inl (subst (λ b. some (if b then t else s) ≡ some e) older h)
  | inr newer ↦
      inr (inl (some-injective s e (subst (λ b. some (if b then t else s) ≡ some e) newer h)))
]

module _ (wr : Writer) (j : String) where
  is_behind-upsert :
      (m : SyncMetadataShape) (s : StoredScenario) (w : Wrapped ScenarioStore)
      → is_behind m (lookup j w.state.scenarios) ≡ true
      → is_behind m (lookup j (upsert_scenario_from_sync wr s w).state.scenarios) ≡ true
  unfolding upsert_scenario_from_sync sync_set
  is_behind-upsert m s w h =
      ap (is_behind m) (lookup-set_upserted j s w.state)
      ∙ ground (arith, is_behind-chosen m (lookup j w.state.scenarios) s)

  is_behind-upsert_all :
      (m : SyncMetadataShape) (ss : List StoredScenario) (w : Wrapped ScenarioStore)
      → is_behind m (lookup j w.state.scenarios) ≡ true
      → is_behind m (lookup j (perform_all wr (map upsert ss) w).state.scenarios) ≡ true
  is_behind-upsert_all m [] w h = h
  is_behind-upsert_all m (s ∷ ss) w h =
      is_behind-upsert_all m ss (upsert_scenario_from_sync wr s w) (is_behind-upsert m s w h)

  is_behind-upsert_self :
      (s : StoredScenario) (w : Wrapped ScenarioStore)
      → s.id === j ≡ true
      → is_behind s.meta (lookup j (upsert_scenario_from_sync wr s w).state.scenarios) ≡ true
  unfolding upsert_scenario_from_sync sync_set
  is_behind-upsert_self s w h =
      ap (is_behind s.meta) (lookup-set_upserted j s w.state)
      ∙ ground (arith, is_behind-chosen_self (lookup j w.state.scenarios) s)

  copies_behind :
      (ss : List StoredScenario) (w : Wrapped ScenarioStore)
      → all
          (λ s.
            not (s.id === j)
            || is_behind s.meta (lookup j (perform_all wr (map upsert ss) w).state.scenarios))
          ss
        ≡ true
  copies_behind [] w = refl
  copies_behind (s ∷ ss) w =
      let v = upsert_scenario_from_sync wr s w in
      both
        (or_else (s.id === j)
          (λ same. is_behind-upsert_all s.meta ss v (is_behind-upsert_self s w same)))
        (copies_behind ss v)

  received_one :
      (s : StoredScenario) (ss : List StoredScenario) (b : Bool) (o r : Option StoredScenario)
      → IsReceived (if b then some (chosen o s) else o) ss r
      → IsReceived o (s ∷ ss) r
  received_one s ss false o none h = h
  received_one s ss true o none h = absurd (none_ne h)
  received_one s ss false o (some e) h = later ss h
  received_one s ss true o (some e) h = elim h [
    | inl same ↦ from_chosen s ss o e same
    | inr among ↦ inr (inr among)
  ]

  received :
      (ss : List StoredScenario) (w : Wrapped ScenarioStore)
      → IsReceived
          (lookup j w.state.scenarios)
          ss
          (lookup j (perform_all wr (map upsert ss) w).state.scenarios)
  unfolding upsert_scenario_from_sync sync_set
  received [] w = received_self (lookup j w.state.scenarios)
  received (s ∷ ss) w =
      let v = upsert_scenario_from_sync wr s w in
      let r = lookup j (perform_all wr (map upsert ss) v).state.scenarios in
      received_one s ss (s.id === j) (lookup j w.state.scenarios) r
        (subst (λ o. IsReceived o ss r) (lookup-set_upserted j s w.state) (received ss v))

  -- Copies of scenarios arrive from the server, in any order. A scenario is then the one that was there or
  -- one of the copies; no copy of it that has arrived is newer than it, nor is the one that was there,
  -- where newer means a greater version, or an equal one and a later time.
  pub upsert_all-IsNewest :
      (ss : List StoredScenario) (w : Wrapped ScenarioStore) (e : StoredScenario)
      → lookup j w.state.scenarios ≡ some e
      → IsReceived (some e) ss (lookup j (perform_all wr (map upsert ss) w).state.scenarios)
        × (is_behind e.meta (lookup j (perform_all wr (map upsert ss) w).state.scenarios) ≡ true)
        × (all
              (λ s.
                not (s.id === j)
                || is_behind s.meta (lookup j (perform_all wr (map upsert ss) w).state.scenarios))
              ss
            ≡ true)
  upsert_all-IsNewest ss w e h =
      let r = lookup j (perform_all wr (map upsert ss) w).state.scenarios in
      let start : is_behind e.meta (lookup j w.state.scenarios) ≡ true =
        ap (is_behind e.meta) h ∙ ground (arith, is_newer_asymm e.meta e.meta) in
      (
        subst (λ o. IsReceived o ss r) h (received ss w),
        is_behind-upsert_all e.meta ss w start,
        copies_behind ss w,
      )
