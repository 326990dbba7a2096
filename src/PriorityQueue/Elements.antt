-- ===== src/PriorityQueue/Elements.antt =====
-- The elements of a heap of src/PriorityQueue.ts: the live slots as a list, up to order.
use mathlib.Core.List.{Perm, perm_middle, append-nil}
use mathlib.Core.List.Perm
use vjuga.Base.{
  ℕ, zero, suc, ◌≤◌, ◌<◌, ◌≡◌, ◌≢◌, refl, ◌∙◌, ap, ap₂, sym, List, [], ◌∷◌, ◌++◌, Option, none,
  arith, length, take, read, write, length-write, read-write,
}

module _ {A : Type 0} where
  -- a write trades the old entry for the new one
  pub write-perm :
      (n : ℕ) (items : List (Option A)) (i : ℕ) (v : Option A)
      → i < n
      → n ≤ length items
      → Perm (read items i ∷ take n (write items i v)) (v ∷ take n items)
  write-perm zero items i v h l = absurd (omega arith)
  write-perm (suc n) [] i v h l = absurd (omega arith)
  write-perm (suc n) (x ∷ items) zero v h l = Perm.swap v x (take n items)
  write-perm (suc n) (x ∷ items) (suc i) v h l = Perm.trans (Perm.swap x (read items i) _) (
      Perm.trans (Perm.cons x (write-perm n items i v (omega arith) (omega arith)))
        (Perm.swap v x _))

  write-write :
      (items : List (Option A)) (i : ℕ) (v w : Option A)
      → write (write items i v) i w ≡ write items i w
  write-write [] zero v w = refl
  write-write [] (suc i) v w = ap (◌∷◌ none) (write-write [] i v w)
  write-write (x ∷ items) zero v w = refl
  write-write (x ∷ items) (suc i) v w = ap (◌∷◌ x) (write-write items i v w)

  pub write_self :
      (items : List (Option A)) (i : ℕ) → i < length items → write items i (read items i) ≡ items
  write_self [] i h = absurd (omega arith)
  write_self (x ∷ items) zero h = refl
  write_self (x ∷ items) (suc i) h = ap (◌∷◌ x) (write_self items i (omega arith))

  -- Moving the hole from `i` to `p` keeps the elements, with the held value in the hole.
  pub move-perm :
      (n : ℕ) (items : List (Option A)) (i p : ℕ) (value : Option A)
      → i < n
      → p < n
      → n ≤ length items
      → i ≢ p
      → Perm (take n (write (write items i (read items p)) p value)) (take n (write items i value))
  move-perm n items i p value hi hp hl ne = Perm.cons_inv (Perm.trans there (Perm.symm back))
    where
      moved : List (Option A)
      moved = write items i (read items p)

      size : length moved ≡ length items
      size = omega (arith, length-write items i (read items p))

      kept : read moved p ≡ read items p
      kept = ground (arith, read-write items i (read items p) p)

      held : read (write items i value) i ≡ value
      held = ground (arith, read-write items i value i)

      wide : length items ≤ length (write items i value)
      wide = omega (arith, length-write items i value)

      -- both sides, with the entry of slot `i` in front
      there : Perm (read items p ∷ take n (write moved p value)) (value ∷ take n moved)
      there = rw kept at (write-perm n moved p value hp (omega (arith, size)))

      back : Perm (read items p ∷ take n (write items i value)) (value ∷ take n moved)
      back = Perm.symm (
          rw (held, write-write) at
            (write-perm n (write items i value) i (read items p) hi (omega (arith, wide))))

  pub take-push :
      (n : ℕ) (items : List (Option A)) (v : Option A)
      → n ≤ length items
      → take (suc n) (write items n v) ≡ take n items ++ v ∷ []
  take-push zero [] v h = refl
  take-push zero (x ∷ items) v h = refl
  take-push (suc n) [] v h = absurd (omega arith)
  take-push (suc n) (x ∷ items) v h = ap (◌∷◌ x) (take-push n items v (omega arith))

  pub take_split :
      (m : ℕ) (items : List (Option A))
      → m < length items
      → take (suc m) items ≡ take m items ++ read items m ∷ []
  take_split m [] h = absurd (omega arith)
  take_split zero (x ∷ items) h = refl
  take_split (suc m) (x ∷ items) h = ap (◌∷◌ x) (take_split m items (omega arith))

  pub take-write_past :
      (m : ℕ) (items : List (Option A)) (v : Option A)
      → m ≤ length items
      → take m (write items m v) ≡ take m items
  take-write_past zero items v h = refl
  take-write_past (suc m) [] v h = absurd (omega arith)
  take-write_past (suc m) (x ∷ items) v h = ap (◌∷◌ x) (take-write_past m items v (omega arith))

  pub take-take : (m k : ℕ) (items : List (Option A)) → m ≤ k → take m (take k items) ≡ take m items
  take-take zero k items h = refl
  take-take (suc m) zero items h = absurd (omega arith)
  take-take (suc m) (suc k) [] h = refl
  take-take (suc m) (suc k) (x ∷ items) h = ap (◌∷◌ x) (take-take m k items (omega arith))

  pub concat-perm : (xs : List (Option A)) (v : Option A) → Perm (xs ++ v ∷ []) (v ∷ xs)
  concat-perm xs v = rw (append-nil xs) at (perm_middle {a = v} xs [])

  -- Taking the first entry out and putting the last one in its place keeps the others.
  pub cut-perm :
      (m : ℕ) (items : List (Option A))
      → suc m ≤ length items
      → Perm
          (read items 0 ∷ take m (write (write items 0 (read items m)) m none))
          (take (suc m) items)
  cut-perm m items h = Perm.cons_inv (Perm.trans front traded)
    where
      moved : List (Option A)
      moved = write items 0 (read items m)

      size : length moved ≡ length items
      size = omega (arith, length-write items 0 (read items m), h)

      last : read moved m ≡ read items m
      last = ground (arith, read-write items 0 (read items m) m)

      whole : take (suc m) moved ≡ take m (write moved m none) ++ read items m ∷ []
      whole =
          take_split m moved (omega (arith, size, h))
          ∙ ap₂ (λ xs v. xs ++ v ∷ []) (sym (take-write_past m moved none (omega (arith, size, h))))
              last

      front :
          Perm
            (read items m ∷ read items 0 ∷ take m (write moved m none))
            (read items 0 ∷ take (suc m) moved)
      front =
          Perm.trans (Perm.swap (read items 0) (read items m) _)
            (rw whole (Perm.cons (read items 0) (Perm.symm (concat-perm _ (read items m)))))

      traded : Perm (read items 0 ∷ take (suc m) moved) (read items m ∷ take (suc m) items)
      traded = write-perm (suc m) items 0 (read items m) (omega arith) h
