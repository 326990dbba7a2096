-- ===== src/MemoryPool/Borrow.antt =====
-- `withAcquire` of src/MemoryPool.ts: the count of the objects in use on its branches, and when
-- the promise it returns settles.
use vjuga.Base.{
  ℕ, ◌≡◌, refl, ap, sym, Option, none, some, List, [], ◌∷◌, arith, ◌∙◌, inl, inr, Bool-cases,
}
use vjuga.Base.Int.{ℤ, pos, ◌+ℤ◌, ◌-ℤ◌, leb_ℤ}
use vjuga.MemoryPool.{
  MemoryPool, Outcome, returns, throws, acquire, acquire_from, end_acquire, release, end_release,
  run_reset, with_acquire, call_with, end_call, end_release_of, end_quietly, Answer, plain,
  thenable, Lent, value, promise, release_on_settle,
}

+ℤ_then_less : (a b c : ℤ) → a ≡ b +ℤ pos 1 → c ≡ a → c -ℤ pos 1 ≡ b
unfolding ◌+ℤ◌ ◌-ℤ◌
+ℤ_then_less a b c e f = rw (f, e) (ground arith)

+ℤ-zero : (a : ℤ) → a ≡ a +ℤ pos 0
unfolding ◌+ℤ◌
+ℤ-zero a = ground arith

-- the objects that a call leaves borrowed: one if it returns a promise
abbrev pub still_lent : {E R : Type 0} → Outcome E (Lent R) → ℤ
still_lent (returns (value r)) = pos 0
still_lent (returns (promise x)) = pos 1
still_lent (throws e) = pos 0

module _ {E W : Type 0} (reset : Option (ℕ → W → Option E × W)) where
  end_release-count :
      (p : MemoryPool) (x : ℕ) (o : Option E × W)
      → (end_release reset p x o).1.acquired_count ≡ p.acquired_count -ℤ pos 1
  unfolding end_release
  end_release-count p x (none, v) = refl
  end_release-count p x (some e, v) = refl

  release-count :
      (p : MemoryPool) (x : ℕ) (w : W)
      → (release reset p x w).1.acquired_count ≡ p.acquired_count -ℤ pos 1
  unfolding release
  release-count p x w = end_release-count p x (run_reset reset x w)

module _ {E W A : Type 0} where
  end_release_of-pool :
      (r : A) (o : Option E × MemoryPool × W)
      → (end_release_of r o).1.acquired_count ≡ o.1.acquired_count
  unfolding end_release_of
  end_release_of-pool r (none, q, v) = refl
  end_release_of-pool r (some e, q, v) = refl

module _ {E W R : Type 0} where
  end_value-lent :
      (r : R) (o : Option E × MemoryPool × W) → still_lent (end_release_of (value r) o).0 ≡ pos 0
  unfolding end_release_of
  end_value-lent r (none, q, v) = refl
  end_value-lent r (some e, q, v) = refl

module _ {E W R : Type 0} (reset : Option (ℕ → W → Option E × W)) where
  release_on_settle-count :
      (x : ℕ) (o : Outcome E R) (q : MemoryPool) (v : W)
      → (release_on_settle reset x o q v).1.acquired_count ≡ q.acquired_count -ℤ pos 1
  unfolding release_on_settle end_quietly
  release_on_settle-count x (returns r) q v =
      end_release_of-pool r (release reset q x v) ∙ release-count reset q x v
  release_on_settle-count x (throws e) q v = release-count reset q x v

  end_call-count :
      (n : ℤ) (x : ℕ) (o : Outcome E (Answer R) × MemoryPool × W)
      → o.1.acquired_count ≡ n +ℤ pos 1
      → (end_call reset x o).1.acquired_count ≡ n +ℤ still_lent (end_call reset x o).0
  unfolding end_call end_quietly
  end_call-count n x (returns (plain r), q, v) h =
      end_release_of-pool (value r) (release reset q x v)
      ∙ release-count reset q x v
      ∙ +ℤ_then_less q.acquired_count n q.acquired_count h refl
      ∙ +ℤ-zero n
      ∙ sym (ap (λ k. n +ℤ k) (end_value-lent r (release reset q x v)))
  end_call-count n x (returns thenable, q, v) h = h
  end_call-count n x (throws e, q, v) h =
      release-count reset q x v
      ∙ +ℤ_then_less q.acquired_count n q.acquired_count h refl
      ∙ +ℤ-zero n

module _ {E W R : Type 0} (factory : W → Outcome E ℕ × W) (reset : Option (ℕ → W → Option E × W))
    (fn : ℕ → MemoryPool → W → Outcome E (Answer R) × MemoryPool × W)
    (balanced : (x : ℕ) (p : MemoryPool) (w : W)
      → (fn x p w).1.acquired_count ≡ p.acquired_count) where
  -- the count after `acquire`: one more if it returned
  abbrev AfterAcquire : ℤ → Outcome E ℕ × MemoryPool × W → Type 0
  AfterAcquire n (returns x, q, v) = q.acquired_count ≡ n +ℤ pos 1
  AfterAcquire n (throws e, q, v) = q.acquired_count ≡ n

  end_acquire-count :
      (p : MemoryPool) (o : Outcome E ℕ × W)
      → AfterAcquire p.acquired_count (end_acquire factory p o)
  unfolding end_acquire
  end_acquire-count p (returns x, v) = refl
  end_acquire-count p (throws e, v) = refl

  acquire_from-count :
      (p : MemoryPool) (l : List ℕ) (w : W)
      → AfterAcquire p.acquired_count (acquire_from factory p l w)
  unfolding acquire_from
  acquire_from-count p (x ∷ rest) w = refl
  acquire_from-count p [] w =
      elim (Bool-cases (leb_ℤ (pos p.max_size) p.acquired_count))
        as (λ _. AfterAcquire p.acquired_count (acquire_from factory p [] w)) [
          | inl full ↦ rw full refl
          | inr room ↦ rw room (end_acquire-count p (factory w))
        ]

  call_with-count :
      (n : ℤ) (o : Outcome E ℕ × MemoryPool × W)
      → AfterAcquire n o
      → (call_with factory reset fn o).1.acquired_count
        ≡ n +ℤ still_lent (call_with factory reset fn o).0
  unfolding call_with
  call_with-count n (returns x, q, v) h = end_call-count reset n x (fn x q v) (balanced x q v ∙ h)
  call_with-count n (throws e, q, v) h = h ∙ +ℤ-zero n

  pub with_acquire-count :
      (p : MemoryPool) (w : W)
      → (with_acquire factory reset fn p w).1.acquired_count
        ≡ p.acquired_count +ℤ still_lent (with_acquire factory reset fn p w).0
  unfolding with_acquire acquire
  with_acquire-count p w =
      call_with-count p.acquired_count (acquire factory p w) (acquire_from-count p p.free_list w)

  -- If `fn` gives back what it acquires itself and `withAcquire` returns a promise, the count of the
  -- objects in use is again what it was before the call once the promise has settled, whichever way
  -- it does and whether `reset` throws or not, if other borrowers have left the count as it was.
  pub with_acquire-settled :
      (p : MemoryPool) (w : W) (x : ℕ) (o : Outcome E R) (q : MemoryPool) (v : W)
      → (with_acquire factory reset fn p w).0 ≡ returns (promise x)
      → q.acquired_count ≡ (with_acquire factory reset fn p w).1.acquired_count
      → (release_on_settle reset x o q v).1.acquired_count ≡ p.acquired_count
  with_acquire-settled p w x o q v e f =
      release_on_settle-count reset x o q v
      ∙ +ℤ_then_less _ p.acquired_count q.acquired_count
          (with_acquire-count p w ∙ ap (λ z. p.acquired_count +ℤ still_lent z) e) f
