-- ===== src/Graph/Subset.antt =====
-- `expandScenarioServiceSubset` of scenario-translator.ts: the services that it returns are the least
-- set with the targets that is closed under dependencies.
use mathlib.Core.Path.{subst}
use mathlib.Core.List.{foldl}
use tokyo_tester.Base.{
  ℕ, zero, suc, ◌≤◌, ◌<◌, ◌≡◌, refl, ◌⊎◌, inl, inr, true, false, List, [], ◌∷◌, arith, length, All,
  Bool-cases,
}
use tokyo_tester.Names.{Text}
use tokyo_tester.Graph.{
  DependencyGraph, keys, deps, Required, visit, expand_scenario_service_subset,
}
use tokyo_tester.Graph.Texts.{
  text_eq, text_eq_iff, has, has_self, has-cons, has-nil, has-later, All-of_has, unmarked,
  unmarked-cons_lt,
}
use tokyo_tester.Graph.Walks.{Needs, All-has}
use tokyo_tester.Graph.Dfs.{deps_free}
use tokyo_tester.Graph.Cycles.{unmarked_le}

abbrev Grows : List Text → List Text → Type 0
Grows us vs = (n : Text) → has n us ≡ true → has n vs ≡ true

unmarked-Grows : (us vs names : List Text) → Grows us vs → unmarked vs names ≤ unmarked us names
unmarked-Grows us vs [] f = omega arith
unmarked-Grows us vs (k ∷ names) f = ground (arith, f k, unmarked-Grows us vs names f)

module _ (g : DependencyGraph) where
  abbrev mark : Text → Required → Required
  mark name r = record r { names = name ∷ r.names }

  abbrev each_required : ℕ → Required → List Text → Required
  each_required fuel r ms = foldl (λ t m. visit g fuel m t) r ms

  visit-cases :
      (P : Required → Type 0) (fuel : ℕ) (name : Text) (r : Required)
      → (has name r.names ≡ true → P r)
      → (has name r.names ≡ false → P (each_required fuel (mark name r) (deps g name)))
      → P (visit g (suc fuel) name r)
  unfolding visit
  visit-cases P fuel name r seen fresh = elim (Bool-cases (has name r.names)) [
    | inl e ↦ rw e (seen e)
    | inr e ↦ rw e (fresh e)
  ]

  visit-zero : (name : Text) (r : Required) → visit g zero name r ≡ record r { starved = true }
  unfolding visit
  visit-zero name r = refl

  -- Every text of the list needs only texts of the list.
  abbrev pub IsClosed : List Text → Type 0
  IsClosed us = (a b : Text) → has a us ≡ true → Needs g a b → has b us ≡ true

  -- What visiting some names has done: nothing is lost, and what is new has its dependencies.
  record Extends (r t : Required) : Type 0 where
    pub grows : Grows r.names t.names
    pub closes :
        (a : Text)
        → has a t.names ≡ true
        → (has a r.names ≡ true) ⊎ All (λ b. has b t.names ≡ true) (deps g a)
    pub fed : t.starved ≡ false

  abbrev IsFed : ℕ → Required → Type 0
  IsFed fuel r = (unmarked r.names (keys g) < fuel) × (r.starved ≡ false)

  All-Grows :
      (us vs ms : List Text)
      → Grows us vs
      → All (λ m. has m us ≡ true) ms
      → All (λ m. has m vs ≡ true) ms
  All-Grows us vs [] f h = tt
  All-Grows us vs (m ∷ ms) f (h, hs) = (f m h, All-Grows us vs ms f hs)

  Extends-trans : (r s t : Required) → Extends r s → Extends s t → Extends r t
  Extends-trans r s t p q = record {
    grows = λ n h. q.grows n (p.grows n h);
    closes = λ a h. elim (q.closes a h) [
      | inr all ↦ inr all
      | inl old ↦ elim (p.closes a old) [
        | inl older ↦ inl older
        | inr all ↦ inr (All-Grows s.names t.names (deps g a) q.grows all)
      ]
    ];
    fed = q.fed;
  }

  Extends-each :
      (fuel : ℕ)
      → ((m : Text) (r : Required)
          → IsFed fuel r
          → Extends r (visit g fuel m r) × (has m (visit g fuel m r).names ≡ true))
      → (ms : List Text) (r : Required) → IsFed fuel r
      → Extends r (each_required fuel r ms)
        × All (λ m. has m (each_required fuel r ms).names ≡ true) ms
  Extends-each fuel f [] r fed =
      (record { grows = λ n h. h; closes = λ a h. inl h; fed = fed.1 }, tt)
  Extends-each fuel f (m ∷ ms) r fed =
      let t = visit g fuel m r in
      let (p, here) = f m r fed in
      let (q, all) =
        Extends-each fuel f ms t
          (omega (arith, fed.0, unmarked-Grows r.names t.names (keys g) p.grows), p.fed) in
      (Extends-trans r t (each_required fuel t ms) p q, (q.grows m here, all))

  -- A name that is marked before its dependencies are visited.
  Extends-mark :
      (name : Text) (r t : Required)
      → Extends (mark name r) t
      → All (λ m. has m t.names ≡ true) (deps g name)
      → Extends r t × (has name t.names ≡ true)
  Extends-mark name r t p all = (
    record {
      grows = λ n h. p.grows n (has-cons n name r.names h);
      closes = λ a h. elim (p.closes a h) [
        | inr all' ↦ inr all'
        | inl old ↦ elim (Bool-cases (text_eq name a)) [
          | inl e ↦ inr (
              subst (λ x. All (λ b. has b t.names ≡ true) (deps g x)) ((text_eq_iff name a).0 e)
                all)
          | inr e ↦ inl (has-later a name r.names old e)
        ]
      ];
      fed = p.fed;
    },
    p.grows name (has_self name r.names),
  )

  Extends-visit :
      (fuel : ℕ) (name : Text) (r : Required)
      → IsFed fuel r
      → Extends r (visit g fuel name r) × (has name (visit g fuel name r).names ≡ true)
  Extends-visit zero name r fed = absurd (omega (arith, fed.0))
  Extends-visit (suc fuel) name r fed =
      visit-cases (λ t. Extends r t × (has name t.names ≡ true)) fuel name r
        (λ e. (record { grows = λ n h. h; closes = λ a h. inl h; fed = fed.1 }, e))
        (λ free. elim (Bool-cases (has name (keys g))) [
          | inl key ↦
              let (p, all) =
                Extends-each fuel (λ m t h. Extends-visit fuel m t h) (deps g name) (mark name r)
                  (omega (arith, fed.0, unmarked-cons_lt name r.names (keys g) key free), fed.1) in
              Extends-mark name r _ p all
          | inr other ↦
              let nothing : deps g name ≡ [] = deps_free g name g other in
              let p : Extends (mark name r) (each_required fuel (mark name r) (deps g name)) =
                rw nothing (record { grows = λ n h. h; closes = λ a h. inl h; fed = fed.1 }) in
              Extends-mark name r _ p (rw nothing tt)
        ])

  -- Nothing but what the names need is added.
  within-each :
      (us : List Text) (fuel : ℕ)
      → ((m : Text) (r : Required)
          → has m us ≡ true
          → Grows r.names us
          → Grows (visit g fuel m r).names us)
      → (ms : List Text) (r : Required) → All (λ m. has m us ≡ true) ms
      → Grows r.names us
      → Grows (each_required fuel r ms).names us
  within-each us fuel f [] r hs w = w
  within-each us fuel f (m ∷ ms) r (h, hs) w =
      within-each us fuel f ms (visit g fuel m r) hs (f m r h w)

  within-mark :
      (us : List Text) (name : Text) (r : Required)
      → has name us ≡ true
      → Grows r.names us
      → Grows (name ∷ r.names) us
  within-mark us name r h w n k = elim (Bool-cases (text_eq name n)) [
    | inl e ↦ subst (λ x. has x us ≡ true) ((text_eq_iff name n).0 e) h
    | inr e ↦ w n (has-later n name r.names k e)
  ]

  within-visit :
      (us : List Text)
      → IsClosed us
      → (fuel : ℕ) (name : Text) (r : Required) → has name us ≡ true
      → Grows r.names us
      → Grows (visit g fuel name r).names us
  within-visit us closed zero name r h w = rw (visit-zero name r) w
  within-visit us closed (suc fuel) name r h w =
      visit-cases (λ t. Grows t.names us) fuel name r (λ e. w)
        (λ free.
          within-each us fuel (λ m t h' w'. within-visit us closed fuel m t h' w') (deps g name)
            (mark name r)
            (All-of_has (λ m. has m us ≡ true) (deps g name) (λ m e. closed name m h e))
            (within-mark us name r h w))

  -- What a scenario requires: its targets and what they need, and no more.
  pub record IsLeast (targets : List Text) (required : Required) : Type 0 where
    pub fed : required.starved ≡ false
    pub targeted : All (λ t. has t required.names ≡ true) targets
    pub closed : IsClosed required.names
    pub least :
        (us : List Text)
        → All (λ t. has t us ≡ true) targets
        → IsClosed us
        → (n : Text) → has n required.names ≡ true
        → has n us ≡ true

  IsClosed-of :
      (t : Required) → Extends (record { names = []; starved = false }) t → IsClosed t.names
  IsClosed-of t p a b h e = elim (p.closes a h) [
    | inl old ↦ absurd (has-nil a old)
    | inr all ↦ All-has g (λ m. has m t.names ≡ true) b (deps g a) all e
  ]

  -- For every graph and every list of targets, the fuel is enough, and the required services hold
  -- the targets, hold each dependency of theirs, and are in every list that does both.
  pub expand_scenario_service_subset-IsLeast :
      (targets : List Text) → IsLeast targets (expand_scenario_service_subset g targets)
  unfolding expand_scenario_service_subset
  expand_scenario_service_subset-IsLeast targets =
      let fuel = suc (length (keys g)) in
      let start : Required = record { names = []; starved = false } in
      let (p, all) =
        Extends-each fuel (λ m t h. Extends-visit fuel m t h) targets start
          (omega (arith, unmarked_le [] (keys g)), refl) in
      record {
        fed = p.fed;
        targeted = all;
        closed = IsClosed-of (each_required fuel start targets) p;
        least = λ us ts closed.
            within-each us fuel (λ m t h w. within-visit us closed fuel m t h w) targets start ts
              (λ n h. absurd (has-nil n h));
      }
