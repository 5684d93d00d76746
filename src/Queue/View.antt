-- ===== src/Queue/View.antt =====
-- When a queue of fast-queue.ts stands for a list.
use tokyo_tester.Base.{ℕ, ◌+◌, ◌%◌, ◌≤◌, ◌<◌, ◌≡◌, Option, some, List, [], ◌∷◌, length}
use tokyo_tester.Queue.{FastQueue, slot}

module _ {ℓ} {A : Type ℓ} where
  -- From slot `k % cap` on, the buffer holds these items, wrapping round at `cap`.
  abbrev pub Window : List (Option A) → ℕ → ℕ → List A → Type ℓ
  Window buf cap k [] = Unit
  Window buf cap k (x ∷ xs) = (slot buf (k % cap) ≡ some x) × Window buf cap (k + 1) xs

  pub record Repr (q : FastQueue A) (xs : List A) : Type ℓ where
    pub sized : length q.buffer ≡ q.capacity
    pub roomy : 0 < q.capacity
    pub head_in : q.head < q.capacity
    pub counted : q.size ≡ length xs
    pub fits : q.size ≤ q.capacity
    pub tail_at : q.tail ≡ (q.head + q.size) % q.capacity
    pub window : Window q.buffer q.capacity q.head xs
