-- ===== src/Bundle/Named.antt =====
-- The name that `getUniqueWorkflowName` of workflow-bundle.ts finds.
use tokyo_tester.Base.{
  ℕ, zero, suc, ◌+◌, ◌-◌, ◌*◌, ◌/◌, ◌%◌, ◌≤◌, ◌<◌, ◌≡◌, ◌≢◌, refl, sym, ap, ◌∙◌, Bool-cases,
  Option-cases, inl, inr, true, false, none, some, List, [], ◌∷◌, ◌++◌, length, arith,
}
use tokyo_tester.Names.{Text}
use tokyo_tester.Graph.Texts.{text_eq_iff, has}
use tokyo_tester.Graph.Sets.{distinct, all_in, length-distinct}
use tokyo_tester.Bundle.{
  trim, digits, decimal, or_imported, numbered, free_suffix, get_unique_workflow_name,
}

-- The number that a text of digits stands for, after these.
value : ℕ → Text → ℕ
value before [] = before
value before (c ∷ t) = value (before * 10 + (c - 48)) t

value-append : (before : ℕ) (t u : Text) → value before (t ++ u) ≡ value (value before t) u
unfolding value
value-append before [] u = refl
value-append before (c ∷ t) u = value-append (before * 10 + (c - 48)) t u

value-digits : (fuel n : ℕ) → n < fuel → value 0 (digits fuel n) ≡ n
unfolding value digits
value-digits zero n h = absurd (omega arith)
value-digits (suc fuel) n h =
    let rest = digits fuel (n / 10) in
    ground (arith, value-digits fuel (n / 10), value-append 0 rest ((48 + n % 10) ∷ []))

decimal-Injective : (m n : ℕ) → decimal m ≡ decimal n → m ≡ n
unfolding decimal
decimal-Injective m n e =
    sym (value-digits (suc m) m (omega arith))
    ∙ ap (value 0) e
    ∙ value-digits (suc n) n (omega arith)

after_same : (t u v : Text) → t ++ u ≡ t ++ v → u ≡ v
after_same [] u v e = e
after_same (c ∷ t) u v e = after_same t u v cc

numbered-ne : (name : Text) (m n : ℕ) → m < n → numbered name n ≢ numbered name m
numbered-ne name m n h e =
    let digits_eq : decimal n ≡ decimal m =
      after_same (32 ∷ []) (decimal n) (decimal m)
        (after_same name (32 ∷ decimal n) (32 ∷ decimal m) e) in
    absurd (omega (arith, decimal-Injective n m digits_eq))

-- The names that a loop of this many rounds looks at.
abbrev looked_at : ℕ → Text → ℕ → List Text
looked_at zero name suffix = []
looked_at (suc fuel) name suffix = numbered name suffix ∷ looked_at fuel name (suffix + 1)

length-looked_at : (fuel : ℕ) (name : Text) (k : ℕ) → length (looked_at fuel name k) ≡ fuel
length-looked_at zero name k = refl
length-looked_at (suc fuel) name k = omega (arith, length-looked_at fuel name (k + 1))

has-looked_at :
    (fuel : ℕ) (name : Text) (m k : ℕ)
    → m < k
    → has (numbered name m) (looked_at fuel name k) ≡ false
unfolding has
has-looked_at zero name m k h = refl
has-looked_at (suc fuel) name m k h = ground (
  arith,
  has-looked_at fuel name m (k + 1),
  text_eq_iff (numbered name k) (numbered name m),
  numbered-ne name m k h,
)

distinct-looked_at : (fuel : ℕ) (name : Text) (k : ℕ) → distinct (looked_at fuel name k) ≡ true
distinct-looked_at zero name k = refl
distinct-looked_at (suc fuel) name k =
    ground (arith, has-looked_at fuel name k (k + 1), distinct-looked_at fuel name (k + 1))

-- A loop without result has met only names that exist.
all_in-looked_at :
    (fuel : ℕ) (name : Text) (existing : List Text) (k : ℕ)
    → free_suffix fuel name existing k ≡ none
    → all_in existing (looked_at fuel name k) ≡ true
unfolding free_suffix
all_in-looked_at zero name existing k e = refl
all_in-looked_at (suc fuel) name existing k e =
    ground (arith, all_in-looked_at fuel name existing (k + 1))

free_suffix-found :
    (name : Text) (existing : List Text) (k : ℕ)
    → free_suffix (suc (length existing)) name existing k ≢ none
free_suffix-found name existing k e =
    let n = suc (length existing) in
    absurd (
      omega (
        arith,
        length-distinct (looked_at n name k) existing (distinct-looked_at n name k)
            (all_in-looked_at n name existing k e),
        length-looked_at n name k,
      ))

-- The smallest number of this one on that makes a name that does not exist.
pub record IsFirst (name : Text) (existing : List Text) (from k : ℕ) : Type 0 where
  pub later : from ≤ k
  pub new : has (numbered name k) existing ≡ false
  pub taken : (j : ℕ) → from ≤ j → j < k → has (numbered name j) existing ≡ true

free_suffix-IsFirst :
    (fuel : ℕ) (name : Text) (existing : List Text) (from k : ℕ)
    → free_suffix fuel name existing from ≡ some k
    → IsFirst name existing from k
unfolding free_suffix
free_suffix-IsFirst zero name existing from k e = cc
free_suffix-IsFirst (suc fuel) name existing from k e =
    elim (Bool-cases (has (numbered name from) existing)) [
      | inl old ↦
          let found : free_suffix fuel name existing (from + 1) ≡ some k = ground arith in
          let f = free_suffix-IsFirst fuel name existing (from + 1) k found in
          record {
            later = omega (arith, f.later);
            new = f.new;
            taken = λ j lo hi. ground (arith, f.taken j);
          }
      | inr new ↦
          let same : from ≡ k = ground arith in
          record {
            later = omega (arith, same);
            new = ground arith;
            taken = λ j lo hi. absurd (omega (arith, same));
          }
    ]

-- The name for a workflow that asks for `wanted`: that name, or where it exists already the name with
-- the smallest number from two on that does not.
pub data IsNew (wanted : Text) (existing : List Text) : Text → Type 0 where
  unused : has wanted existing ≡ false → IsNew wanted existing wanted
  counted :
      (k : ℕ)
      → has wanted existing ≡ true
      → IsFirst wanted existing 2 k
      → IsNew wanted existing (numbered wanted k)

-- Whatever names exist, the loop ends, and the name is the one asked for, trimmed, or "Imported
-- Workflow" where that is empty, if no workflow has it, and else that name with the smallest number
-- from two on with which no workflow has it.
pub get_unique_workflow_name-IsNew :
    (base : Text) (existing : List Text)
    → (name : Text) × ((get_unique_workflow_name base existing ≡ some name)
        × IsNew (or_imported (trim base)) existing name)
unfolding get_unique_workflow_name
get_unique_workflow_name-IsNew base existing =
    let wanted = or_imported (trim base) in
    elim (Bool-cases (has wanted existing)) [
      | inr new ↦ (wanted, (rw new refl, unused new))
      | inl old ↦ elim (Option-cases (free_suffix (suc (length existing)) wanted existing 2)) [
        | inl missing ↦ absurd (free_suffix-found wanted existing 2 missing)
        | inr (k, found) ↦ (
          numbered wanted k,
          (
            rw (old, found) refl,
            counted k old (free_suffix-IsFirst (suc (length existing)) wanted existing 2 k found),
          ),
        )
      ]
    ]
