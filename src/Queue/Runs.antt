-- ===== src/Queue/Runs.antt =====
-- Whole runs of fast-queue.ts against the same runs on a list.
use tokyo_tester.Base.{ℕ, ◌<◌, ◌≡◌, refl, List, [], ◌∷◌, ◌++◌, take, drop}
use tokyo_tester.Queue.{
  FastQueue, new, enqueue, unshift, unshift_many, keep, dequeue, dequeue_many, clear, to_array,
}
use tokyo_tester.Queue.View.{Repr}
use tokyo_tester.Queue.Refines.{
  new-Repr, enqueue-Repr, unshift-Repr, unshift_many-Repr, pop_front-Repr, dequeue-none,
  dequeue-some, dequeue_many-Repr, clear-Repr, to_array-Repr,
}

pub data Call {ℓ} (A : Type ℓ) : Type ℓ where
  enqueue_call unshift_call : A → Call A
  unshift_many_call : List A → Call A
  dequeue_call clear_call : Call A
  dequeue_many_call : ℕ → Call A

module _ {ℓ} {A : Type ℓ} where
  -- What a call returns, and what it leaves.
  pub perform : Call A → FastQueue A → List A × FastQueue A
  perform (enqueue_call x) q = ([], enqueue x q)
  perform (unshift_call x) q = ([], unshift x q)
  perform (unshift_many_call xs) q = ([], unshift_many xs q)
  perform dequeue_call q = let (item, q') = dequeue q in (keep item [], q')
  perform clear_call q = ([], clear q)
  perform (dequeue_many_call n) q = dequeue_many n q

  -- The same calls on a list.
  abbrev pub perform_list : Call A → List A → List A × List A
  perform_list (enqueue_call x) xs = ([], xs ++ x ∷ [])
  perform_list (unshift_call x) xs = ([], x ∷ xs)
  perform_list (unshift_many_call ys) xs = ([], ys ++ xs)
  perform_list dequeue_call xs = (take 1 xs, drop 1 xs)
  perform_list clear_call xs = ([], [])
  perform_list (dequeue_many_call n) xs = (take n xs, drop n xs)

  pub run : List (Call A) → FastQueue A → List A × FastQueue A
  unfolding perform
  run [] q = ([], q)
  run (c ∷ cs) q = let (out, q') = perform c q in let (outs, q'') = run cs q' in (out ++ outs, q'')

  abbrev pub run_list : List (Call A) → List A → List A × List A
  run_list [] xs = ([], xs)
  run_list (c ∷ cs) xs =
      let (out, ys) = perform_list c xs in let (outs, zs) = run_list cs ys in (out ++ outs, zs)

  perform-Repr :
      (c : Call A) (q : FastQueue A) (xs : List A)
      → Repr q xs
      → ((perform c q).0 ≡ (perform_list c xs).0) × Repr (perform c q).1 (perform_list c xs).1
  unfolding perform
  perform-Repr (enqueue_call x) q xs r = (refl, enqueue-Repr x q xs r)
  perform-Repr (unshift_call x) q xs r = (refl, unshift-Repr x q xs r)
  perform-Repr (unshift_many_call ys) q xs r = (refl, unshift_many-Repr ys q xs r)
  perform-Repr dequeue_call q [] r = rw (dequeue-none q r) (refl, r)
  perform-Repr dequeue_call q (x ∷ xs) r =
      rw (dequeue-some q x xs r) (refl, pop_front-Repr q x xs r)
  perform-Repr clear_call q xs r = (refl, clear-Repr q xs r)
  perform-Repr (dequeue_many_call n) q xs r = dequeue_many-Repr n q xs r

  run-Repr :
      (cs : List (Call A)) (q : FastQueue A) (xs : List A)
      → Repr q xs
      → ((run cs q).0 ≡ (run_list cs xs).0) × Repr (run cs q).1 (run_list cs xs).1
  unfolding run
  run-Repr [] q xs r = (refl, r)
  run-Repr (c ∷ cs) q xs r =
      let (out, r') = perform-Repr c q xs r in
      let (outs, r'') = run-Repr cs (perform c q).1 (perform_list c xs).1 r' in
      (rw (out, outs), r'')

  -- Any sequence of calls on a new queue, with room for at least one item, returns what it returns
  -- on an empty list and leaves the same items in `toArray`, however often the buffer wraps or grows.
  pub run-to_array :
      (cs : List (Call A)) (n : ℕ)
      → 0 < n
      → ((run cs (new n)).0 ≡ (run_list cs []).0)
        × (to_array (run cs (new n)).1 ≡ (run_list cs []).1)
  run-to_array cs n h =
      let (outs, r) = run-Repr cs (new n) [] (new-Repr n h) in
      (outs, to_array-Repr (run cs (new n)).1 (run_list cs []).1 r)
