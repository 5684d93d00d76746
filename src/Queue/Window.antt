-- ===== src/Queue/Window.antt =====
-- Writing to the buffer of fast-queue.ts, and the slots that a write leaves alone.
use native.Mathlib.Nat.{mod-eq_of_lt, mod-add-mod, add-mod_right}
use mathlib.Core.Path.{subst}
use tokyo_tester.Base.{
  ℕ, zero, suc, ◌+◌, ◌-◌, ◌*◌, ◌%◌, ◌≤◌, ◌<◌, ◌≡◌, refl, sym, ap, ◌∙◌, ◌≢◌, Option, none, some,
  List, [], ◌∷◌, ◌++◌, arith, length, set, get_elem?-set_self, get_elem?-set_ne, length-set,
  replicate, length-replicate,
}
use tokyo_tester.Queue.{slot, copy, collect}
use tokyo_tester.Queue.View.{Window}

-- Two indices less than a round apart are different slots.
pub mod-ne : (cap k d : ℕ) → 0 < d → d < cap → k % cap ≢ (k + d) % cap
mod-ne cap k d h l e = grind arith

pub mod-suc : (cap k j : ℕ) → k % cap ≡ j % cap → (k + 1) % cap ≡ (j + 1) % cap
mod-suc cap k j h = sym (mod-add-mod k cap 1) ∙ ap (λ t. (t + 1) % cap) h ∙ mod-add-mod j cap 1

pub mod_next : (cap h n : ℕ) → ((h + n) % cap + 1) % cap ≡ (h + (n + 1)) % cap
mod_next cap h n = mod-add-mod (h + n) cap 1 ∙ ap (λ t. t % cap) (omega arith)

pub mod_round : (cap h m : ℕ) → m ≡ h + cap → h % cap ≡ m % cap
mod_round cap h m e = sym (add-mod_right h cap) ∙ ap (λ t. t % cap) (sym e)

pub mod_forth : (cap h n : ℕ) → 0 < n → (h + n) % cap ≡ ((h + 1) % cap + (n - 1)) % cap
mod_forth cap h n pos = ap (λ t. t % cap) (omega arith) ∙ sym (mod-add-mod (h + 1) cap (n - 1))

-- One slot back is `cap - 1` slots on.
pub mod_back : (cap h n : ℕ) → 0 < cap → (h + n) % cap ≡ ((h + cap - 1) % cap + (n + 1)) % cap
mod_back cap h n pos =
    mod_round cap (h + n) (h + cap - 1 + (n + 1)) (omega arith)
    ∙ sym (mod-add-mod (h + cap - 1) cap (n + 1))

pub mod-ne_of_between : (cap k m : ℕ) → k < m → m < k + cap → m % cap ≢ k % cap
mod-ne_of_between cap k m h l e =
    mod-ne cap k (m - k) (omega arith) (omega arith)
      (sym e ∙ ap (λ t. t % cap) (let same : m ≡ k + (m - k) = omega arith in same))

module _ {ℓ} {A : Type ℓ} where
  pub slot-set_self :
      (buf : List (Option A)) (i : ℕ) (v : Option A) → i < length buf → slot (set buf i v) i ≡ v
  slot-set_self buf i v h = ground (arith, get_elem?-set_self buf i v h)

  pub slot-set_ne :
      (buf : List (Option A)) (i j : ℕ) (v : Option A) → i ≢ j → slot (set buf i v) j ≡ slot buf j
  slot-set_ne buf i j v h = ground (arith, get_elem?-set_ne buf i j v h)

  at_index :
      (buf : List (Option A)) (cap i j : ℕ) (y : A)
      → i ≡ j
      → slot buf (i % cap) ≡ some y
      → slot buf (j % cap) ≡ some y
  at_index buf cap i j y e h = rw (← e) h

  pub Window-congr :
      (buf : List (Option A)) (cap k j : ℕ) (xs : List A)
      → k % cap ≡ j % cap
      → Window buf cap k xs
      → Window buf cap j xs
  Window-congr buf cap k j [] e w = tt
  Window-congr buf cap k j (x ∷ xs) e (a, w) =
      (rw (← e) a, Window-congr buf cap (k + 1) (j + 1) xs (mod-suc cap k j e) w)

  -- A write at index `m`, past the window and within a round of its start.
  pub Window-set :
      (buf : List (Option A)) (cap k m : ℕ) (v : Option A) (xs : List A)
      → k + length xs ≤ m
      → m < k + cap
      → Window buf cap k xs
      → Window (set buf (m % cap) v) cap k xs
  Window-set buf cap k m v [] l u w = tt
  Window-set buf cap k m v (x ∷ xs) l u (a, w) = (
    slot-set_ne buf (m % cap) (k % cap) v (mod-ne_of_between cap k m (omega arith) u) ∙ a,
    Window-set buf cap (k + 1) m v xs (omega arith) (omega arith) w,
  )

  pub Window-append :
      (buf : List (Option A)) (cap k : ℕ) (xs : List A) (y : A)
      → Window buf cap k xs
      → slot buf ((k + length xs) % cap) ≡ some y
      → Window buf cap k (xs ++ y ∷ [])
  Window-append buf cap k [] y w e = (at_index buf cap (k + 0) k y (omega arith) e, tt)
  Window-append buf cap k (x ∷ xs) y (a, w) e = (
    a,
    Window-append buf cap (k + 1) xs y w
        (at_index buf cap (k + suc (length xs)) (k + 1 + length xs) y (omega arith) e),
  )

  -- The loop of `toArray` reads the window.
  pub collect-Window :
      (buf : List (Option A)) (cap k : ℕ) (xs : List A)
      → Window buf cap k xs
      → collect buf cap (k % cap) (length xs) ≡ xs
  unfolding collect
  collect-Window buf cap k [] w = refl
  collect-Window buf cap k (x ∷ xs) (a, w) =
      rw (a, mod-add-mod k cap 1, collect-Window buf cap (k + 1) xs w)

  pub length-copy :
      (buf : List (Option A)) (cap index i n : ℕ) (out : List (Option A))
      → length (copy buf cap index i n out) ≡ length out
  unfolding copy
  length-copy buf cap index i zero out = refl
  length-copy buf cap index i (suc n) out =
      length-copy buf cap ((index + 1) % cap) (i + 1) n (set out i (slot buf index))
      ∙ length-set out i (slot buf index)

  -- The slots below the loop's index are done.
  pub slot-copy_below :
      (buf : List (Option A)) (cap index i n : ℕ) (out : List (Option A)) (j : ℕ)
      → j < i
      → slot (copy buf cap index i n out) j ≡ slot out j
  unfolding copy
  slot-copy_below buf cap index i zero out j h = refl
  slot-copy_below buf cap index i (suc n) out j h =
      slot-copy_below buf cap ((index + 1) % cap) (i + 1) n (set out i (slot buf index)) j
        (omega arith)
      ∙ slot-set_ne out i j (slot buf index) (omega arith)

  copy_round :
      (buf : List (Option A)) (cap k i n : ℕ) (out : List (Option A))
      → copy buf cap (k % cap) i (suc n) out
        ≡ copy buf cap ((k + 1) % cap) (i + 1) n (set out i (slot buf (k % cap)))
  unfolding copy
  copy_round buf cap k i n out =
      ap (λ t. copy buf cap t (i + 1) n (set out i (slot buf (k % cap)))) (mod-add-mod k cap 1)

  -- The copying loop lays the window out from its index on.
  pub Window-copy :
      (buf : List (Option A)) (cap k i cap' : ℕ) (xs : List A) (out : List (Option A))
      → Window buf cap k xs
      → i + length xs ≤ cap'
      → length out ≡ cap'
      → Window (copy buf cap (k % cap) i (length xs) out) cap' i xs
  Window-copy buf cap k i cap' [] out w l e = tt
  Window-copy buf cap k i cap' (x ∷ xs) out (a, w) l e =
      let out' = set out i (slot buf (k % cap)) in
      let done = copy buf cap ((k + 1) % cap) (i + 1) (length xs) out' in
      subst (λ b. Window b cap' i (x ∷ xs)) (sym (copy_round buf cap k i (length xs) out))
        (
          ap (slot done) (mod-eq_of_lt {n = i} {m = cap'} (omega arith))
              ∙ slot-copy_below buf cap ((k + 1) % cap) (i + 1) (length xs) out' i (omega arith)
              ∙ slot-set_self out i (slot buf (k % cap)) (omega arith)
              ∙ a,
          Window-copy buf cap (k + 1) (i + 1) cap' xs out' w (omega arith)
              (length-set out i (slot buf (k % cap)) ∙ e),
        )

  -- The new buffer of `resize`.
  pub Window-grown :
      (buf : List (Option A)) (cap k n : ℕ) (xs : List A)
      → k < cap
      → n ≡ length xs
      → n ≤ cap
      → Window buf cap k xs
      → Window (copy buf cap k 0 n (replicate (cap * 2) none)) (cap * 2) 0 xs
  Window-grown buf cap k n xs l e h w =
      subst (λ j. Window (copy buf cap j 0 n (replicate (cap * 2) none)) (cap * 2) 0 xs)
        (mod-eq_of_lt l)
        (subst (λ m. Window (copy buf cap (k % cap) 0 m (replicate (cap * 2) none)) (cap * 2) 0 xs)
          (sym e)
          (Window-copy buf cap k 0 (cap * 2) xs (replicate (cap * 2) none) w (omega arith)
            (length-replicate (cap * 2) none)))
