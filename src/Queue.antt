-- ===== src/Queue.antt =====
-- ui-v2/src/modules/sync/fast-queue.ts: the double-ended queue over a circular buffer.
-- A slot is `none` where the source has `undefined`; a method returns the new queue. Queue/View
-- relates a queue to the list of its items, and Queue/Refines is about the methods.
pub mod View
mod Window
pub mod Refines
mod Runs
mod Tests
use tokyo_tester.Base.{
  ℕ, zero, suc, ◌+◌, ◌-◌, ◌*◌, ◌%◌, Option, none, some, List, [], ◌∷◌, ◌++◌, get_elem?, set,
  replicate, ◌==◌, if◌then◌else◌, Bool,
}
use Prim.Native.Nat.{min}
use mathlib.Core.List.{reverse}

pub record FastQueue {ℓ} (A : Type ℓ) : Type ℓ where
  pub buffer : List (Option A)
  pub head : ℕ
  pub tail : ℕ
  pub size : ℕ
  pub capacity : ℕ

module _ {ℓ} {A : Type ℓ} where
  -- `buffer[i]`: a hole and an index outside read as `undefined`.
  abbrev pub slot : List (Option A) → ℕ → Option A
  slot buf i = elim (get_elem? buf i) [ none ↦ none | some o ↦ o ]

  unfoldable pub new : ℕ → FastQueue A
  new n = record { buffer = replicate n none; head = 0; tail = 0; size = 0; capacity = n }

  -- The copying loop of `resize`: `n` rounds, from `index` of the old buffer to `i` of the new.
  pub copy : List (Option A) → ℕ → ℕ → ℕ → ℕ → List (Option A) → List (Option A)
  copy buf cap index i zero out = out
  copy buf cap index i (suc n) out =
      copy buf cap ((index + 1) % cap) (i + 1) n (set out i (slot buf index))

  pub resize : FastQueue A → FastQueue A
  resize q = record {
    buffer = copy q.buffer q.capacity q.head 0 q.size (replicate (q.capacity * 2) none);
    head = 0;
    tail = q.size;
    size = q.size;
    capacity = q.capacity * 2;
  }

  pub make_room : FastQueue A → FastQueue A
  make_room q = if q.size == q.capacity then resize q else q

  pub push_back : A → FastQueue A → FastQueue A
  push_back item q = record q {
    buffer = set q.buffer q.tail (some item);
    tail = (q.tail + 1) % q.capacity;
    size = q.size + 1;
  }

  unfoldable pub enqueue : A → FastQueue A → FastQueue A
  unfolding make_room push_back resize copy
  enqueue item q = push_back item (make_room q)

  -- `(head - 1 + capacity) % capacity`, with the sum made before the difference.
  pub push_front : A → FastQueue A → FastQueue A
  push_front item q =
      let head' = (q.head + q.capacity - 1) % q.capacity in
      record q { buffer = set q.buffer head' (some item); head = head'; size = q.size + 1 }

  unfoldable pub unshift : A → FastQueue A → FastQueue A
  unfolding make_room push_front resize copy
  unshift item q = push_front item (make_room q)

  pub unshift_each : List A → FastQueue A → FastQueue A
  unshift_each [] q = q
  unshift_each (x ∷ xs) q = unshift_each xs (unshift x q)

  unfoldable pub unshift_many : List A → FastQueue A → FastQueue A
  unfolding unshift_each unshift
  unshift_many items q = unshift_each (reverse items) q

  pub pop_front : FastQueue A → FastQueue A
  pop_front q = record q {
    buffer = set q.buffer q.head none;
    head = (q.head + 1) % q.capacity;
    size = q.size - 1;
  }

  unfoldable pub dequeue : FastQueue A → Option A × FastQueue A
  unfolding pop_front
  dequeue q = if q.size == 0 then (none, q) else (slot q.buffer q.head, pop_front q)

  abbrev pub keep : Option A → List A → List A
  keep none xs = xs
  keep (some x) xs = x ∷ xs

  pub dequeue_times : ℕ → FastQueue A → List A × FastQueue A
  unfolding dequeue
  dequeue_times zero q = ([], q)
  dequeue_times (suc n) q =
      let (item, q') = dequeue q in let (items, q'') = dequeue_times n q' in (keep item items, q'')

  unfoldable pub dequeue_many : ℕ → FastQueue A → List A × FastQueue A
  unfolding dequeue_times
  dequeue_many count q = dequeue_times (min count q.size) q

  unfoldable pub peek : FastQueue A → Option A
  peek q = if q.size == 0 then none else slot q.buffer q.head

  unfoldable pub is_empty : FastQueue A → Bool
  is_empty q = q.size == 0

  unfoldable pub clear : FastQueue A → FastQueue A
  clear q = record q { buffer = replicate q.capacity none; head = 0; tail = 0; size = 0 }

  -- The loop of `toArray`.
  pub collect : List (Option A) → ℕ → ℕ → ℕ → List A
  collect buf cap index zero = []
  collect buf cap index (suc n) = keep (slot buf index) (collect buf cap ((index + 1) % cap) n)

  unfoldable pub to_array : FastQueue A → List A
  unfolding collect
  to_array q = collect q.buffer q.capacity q.head q.size
