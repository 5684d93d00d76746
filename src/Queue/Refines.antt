-- ===== src/Queue/Refines.antt =====
-- The methods of fast-queue.ts against the list of the queue's items.
use Prim.Native.Nat.{min}
use native.Mathlib.Nat.{mod-lt, mod-eq_of_lt, add-mod_right, mod-mod}
use mathlib.Core.Path.{subst}
use mathlib.Core.List.{head?, reverse, reverse-reverse, reverse-cons}
use tokyo_tester.Base.{
  ℕ, zero, suc, ◌+◌, ◌-◌, ◌*◌, ◌%◌, ◌≤◌, ◌<◌, ◌≡◌, refl, sym, ap, ◌∙◌, inl, inr, none, some, List,
  [], ◌∷◌, ◌++◌, arith, length, set, take, drop, replicate, length-append, length-set,
  length-replicate, append_assoc, ◌==◌, Bool-cases, false, take-min, drop-min,
}
use tokyo_tester.Queue.{
  FastQueue, slot, new, resize, make_room, push_back, enqueue, push_front, unshift, unshift_each,
  unshift_many, pop_front, dequeue, collect, peek, is_empty, dequeue_times, dequeue_many, clear,
  to_array,
}
use tokyo_tester.Queue.View.{Window, Repr}
use tokyo_tester.Queue.Window.{
  mod_next, mod_round, mod_back, mod_forth, slot-set_self, Window-congr, Window-set, Window-append,
  collect-Window, length-copy, Window-grown,
}

module _ {ℓ} {A : Type ℓ} where
  -- A queue made with room for at least one item is empty.
  pub new-Repr : (n : ℕ) → 0 < n → Repr (new {A = A} n) []
  unfolding new
  new-Repr n h = record {
    sized = length-replicate n none;
    roomy = h;
    head_in = h;
    counted = refl;
    fits = omega arith;
    tail_at = omega arith;
    window = tt;
  }

  -- Growing keeps the items and doubles the room.
  pub resize-Repr : (q : FastQueue A) (xs : List A) → Repr q xs → Repr (resize q) xs
  unfolding resize
  resize-Repr q xs r = record {
    sized =
        length-copy q.buffer q.capacity q.head 0 q.size (replicate (q.capacity * 2) none)
        ∙ length-replicate (q.capacity * 2) none;
    roomy = omega (arith, r.roomy);
    head_in = omega (arith, r.roomy);
    counted = r.counted;
    fits = omega (arith, r.fits);
    tail_at = grind (arith, r.roomy, r.fits);
    window = Window-grown q.buffer q.capacity q.head q.size xs r.head_in r.counted r.fits r.window;
  }

  -- Room for one more, the items kept.
  pub make_room-Repr :
      (q : FastQueue A) (xs : List A)
      → Repr q xs
      → Repr (make_room q) xs × ((make_room q).size < (make_room q).capacity)
  unfolding make_room resize
  make_room-Repr q xs r = elim (Bool-cases (q.size == q.capacity)) [
    | inl full ↦ rw full (resize-Repr q xs r, ground (arith, r.roomy))
    | inr free ↦ rw free (r, ground (arith, r.fits))
  ]

  push_back-Repr :
      (item : A) (q : FastQueue A) (xs : List A)
      → Repr q xs
      → q.size < q.capacity
      → Repr (push_back item q) (xs ++ item ∷ [])
  unfolding push_back
  push_back-Repr item q xs r free =
      let at_end : q.tail ≡ (q.head + length xs) % q.capacity = rw (← r.counted) r.tail_at in
      let written =
        Window-set q.buffer q.capacity q.head (q.head + length xs) (some item) xs (omega arith)
          (omega (arith, r.counted)) r.window in
      record {
        sized = length-set q.buffer q.tail (some item) ∙ r.sized;
        roomy = r.roomy;
        head_in = r.head_in;
        counted = omega (arith, r.counted, length-append xs (item ∷ []));
        fits = omega arith;
        tail_at = ap (λ t. (t + 1) % q.capacity) r.tail_at ∙ mod_next q.capacity q.head q.size;
        window = rw at_end (
            Window-append (set q.buffer ((q.head + length xs) % q.capacity) (some item)) q.capacity
              q.head xs item written
              (slot-set_self q.buffer ((q.head + length xs) % q.capacity) (some item)
                (rw r.sized (mod-lt (q.head + length xs) r.roomy))));
      }

  push_front-Repr :
      (item : A) (q : FastQueue A) (xs : List A)
      → Repr q xs
      → q.size < q.capacity
      → Repr (push_front item q) (item ∷ xs)
  unfolding push_front
  push_front-Repr item q xs r free =
      let m : ℕ = q.head + q.capacity - 1 in
      let buf = set q.buffer (m % q.capacity) (some item) in
      let written =
        Window-set q.buffer q.capacity q.head m (some item) xs (omega (arith, r.counted))
          (omega (arith, r.roomy)) r.window in
      let start =
        slot-set_self q.buffer (m % q.capacity) (some item) (rw r.sized (mod-lt m r.roomy)) in
      record {
        sized = length-set q.buffer (m % q.capacity) (some item) ∙ r.sized;
        roomy = r.roomy;
        head_in = mod-lt m r.roomy;
        counted = omega (arith, r.counted);
        fits = omega arith;
        tail_at = r.tail_at ∙ mod_back q.capacity q.head q.size r.roomy;
        window =
            Window-congr buf q.capacity m (m % q.capacity) (item ∷ xs) (sym (mod-mod m q.capacity))
              (
                start,
                Window-congr buf q.capacity q.head (m + 1) xs
                    (mod_round q.capacity q.head (m + 1) (omega (arith, r.roomy))) written,
              );
      }

  -- `enqueue` adds an item at the end, growing a full buffer.
  pub enqueue-Repr :
      (item : A) (q : FastQueue A) (xs : List A)
      → Repr q xs
      → Repr (enqueue item q) (xs ++ item ∷ [])
  unfolding enqueue
  enqueue-Repr item q xs r =
      let (r', free) = make_room-Repr q xs r in push_back-Repr item (make_room q) xs r' free

  -- `unshift` adds an item at the front.
  pub unshift-Repr :
      (item : A) (q : FastQueue A) (xs : List A) → Repr q xs → Repr (unshift item q) (item ∷ xs)
  unfolding unshift
  unshift-Repr item q xs r =
      let (r', free) = make_room-Repr q xs r in push_front-Repr item (make_room q) xs r' free

  unshift_each-Repr :
      (items : List A) (q : FastQueue A) (xs : List A)
      → Repr q xs
      → Repr (unshift_each items q) (reverse items ++ xs)
  unfolding unshift_each
  unshift_each-Repr [] q xs r = r
  unshift_each-Repr (x ∷ items) q xs r =
      subst (Repr (unshift_each items (unshift x q))) (simp (reverse-cons, append_assoc))
        (unshift_each-Repr items (unshift x q) (x ∷ xs) (unshift-Repr x q xs r))

  -- `unshiftMany` puts the items in front, in their own order.
  pub unshift_many-Repr :
      (items : List A) (q : FastQueue A) (xs : List A)
      → Repr q xs
      → Repr (unshift_many items q) (items ++ xs)
  unfolding unshift_many
  unshift_many-Repr items q xs r =
      subst (λ l. Repr (unshift_many items q) (l ++ xs)) (reverse-reverse items)
        (unshift_each-Repr (reverse items) q xs r)

  pub pop_front-Repr :
      (q : FastQueue A) (x : A) (xs : List A) → Repr q (x ∷ xs) → Repr (pop_front q) xs
  unfolding pop_front
  pop_front-Repr q x xs r =
      let k = q.head in
      let last : k + length xs < k + q.capacity = omega (arith, r.fits, r.counted) in
      let kept =
        Window-set q.buffer q.capacity (k + 1) (k + q.capacity) none xs (omega arith) (omega arith)
          r.window.1 in
      let here : (k + q.capacity) % q.capacity ≡ k =
        add-mod_right k q.capacity ∙ mod-eq_of_lt r.head_in in
      record {
        sized = length-set q.buffer k none ∙ r.sized;
        roomy = r.roomy;
        head_in = mod-lt (k + 1) r.roomy;
        counted = omega (arith, r.counted);
        fits = omega (arith, r.fits);
        tail_at = r.tail_at ∙ mod_forth q.capacity k q.size (omega (arith, r.counted));
        window =
            Window-congr (set q.buffer k none) q.capacity (k + 1) ((k + 1) % q.capacity) xs
              (sym (mod-mod (k + 1) q.capacity))
              (subst (λ j. Window (set q.buffer j none) q.capacity (k + 1) xs) here kept);
      }

  -- `dequeue` gives nothing from an empty queue, and the first item from any other.
  pub dequeue-none : (q : FastQueue A) → Repr q [] → dequeue q ≡ (none, q)
  unfolding dequeue
  dequeue-none q r = rw r.counted

  pub dequeue-some :
      (q : FastQueue A) (x : A) (xs : List A) → Repr q (x ∷ xs) → dequeue q ≡ (some x, pop_front q)
  unfolding dequeue
  dequeue-some q x xs r =
      let first : slot q.buffer q.head ≡ some x =
        ap (slot q.buffer) (sym (mod-eq_of_lt r.head_in)) ∙ r.window.0 in
      let more : (q.size == 0) ≡ false = ground (arith, r.counted) in rw (more, first)

  dequeue_times-Repr :
      (n : ℕ) (q : FastQueue A) (xs : List A)
      → Repr q xs
      → n ≤ length xs
      → ((dequeue_times n q).0 ≡ take n xs) × Repr (dequeue_times n q).1 (drop n xs)
  unfolding dequeue_times
  dequeue_times-Repr zero q xs r h = (refl, r)
  dequeue_times-Repr (suc n) q [] r h = absurd (omega arith)
  dequeue_times-Repr (suc n) q (x ∷ xs) r h =
      let (items, rest) =
        dequeue_times-Repr n (pop_front q) xs (pop_front-Repr q x xs r) (omega arith) in
      rw (dequeue-some q x xs r) (ap (◌∷◌ x) items, rest)

  -- `dequeueMany` takes the first `count` items, or all where there are fewer.
  pub dequeue_many-Repr :
      (count : ℕ) (q : FastQueue A) (xs : List A)
      → Repr q xs
      → ((dequeue_many count q).0 ≡ take count xs) × Repr (dequeue_many count q).1 (drop count xs)
  unfolding dequeue_many
  dequeue_many-Repr count q xs r =
      let (items, rest) = dequeue_times-Repr (min count q.size) q xs r (omega (arith, r.counted)) in
      (
        items ∙ ap (λ n. take (min count n) xs) r.counted ∙ take-min count xs,
        subst (Repr (dequeue_times (min count q.size) q).1)
            (ap (λ n. drop (min count n) xs) r.counted ∙ drop-min count xs) rest,
      )

  pub clear-Repr : (q : FastQueue A) (xs : List A) → Repr q xs → Repr (clear q) []
  unfolding clear
  clear-Repr q xs r = record {
    sized = length-replicate q.capacity none;
    roomy = r.roomy;
    head_in = r.roomy;
    counted = refl;
    fits = omega arith;
    tail_at = grind (arith, r.roomy);
    window = tt;
  }

  -- `toArray` gives the items in order.
  pub to_array-Repr : (q : FastQueue A) (xs : List A) → Repr q xs → to_array q ≡ xs
  unfolding to_array
  to_array-Repr q xs r = rw r.counted (
      ap (λ h. collect q.buffer q.capacity h (length xs)) (sym (mod-eq_of_lt r.head_in))
      ∙ collect-Window q.buffer q.capacity q.head xs r.window)

  -- `peek` and `isEmpty` read the front of the list.
  pub peek-Repr : (q : FastQueue A) (xs : List A) → Repr q xs → peek q ≡ head? xs
  unfolding peek
  peek-Repr q [] r = rw r.counted
  peek-Repr q (x ∷ xs) r =
      let more : (q.size == 0) ≡ false = ground (arith, r.counted) in
      rw more (ap (slot q.buffer) (sym (mod-eq_of_lt r.head_in)) ∙ r.window.0)

  pub is_empty-Repr : (q : FastQueue A) (xs : List A) → Repr q xs → is_empty q ≡ (length xs == 0)
  unfolding is_empty
  is_empty-Repr q xs r = ap (λ n. n == 0) r.counted
