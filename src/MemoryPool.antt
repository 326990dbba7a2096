-- ===== src/MemoryPool.antt =====
-- src/MemoryPool.ts: a pool of reusable objects. An object is its reference, a number. The caller's
-- `factory`, `reset` and `fn` are parameters that act on a world `W` and may throw; the
-- end of `fn` includes the read of `then` in what it returns, which may throw too. The free list is a
-- stack whose top is the head of the list.
pub mod Held
pub mod Exclusive
pub mod Borrow
mod Tests
use vjuga.Base.{ℕ, zero, suc, ◌+◌, Bool, Option, none, some, List, [], ◌∷◌, ltb, if◌then◌else◌}
use vjuga.Base.Int.{ℤ, pos, ◌+ℤ◌, ◌-ℤ◌, leb_ℤ}

-- what a call returns or throws; the pool's own errors, and one of the caller's code
pub data Failure (E : Type 0) : Type 0 where
  exhausted too_large : Failure E
  thrown : E → Failure E

pub data Outcome (E A : Type 0) : Type 0 where
  returns : A → Outcome E A
  throws : Failure E → Outcome E A

-- `acquired_count` is an integer: a release without an acquire takes it below 0
pub record MemoryPool : Type 0 where
  pub max_size : ℕ
  pub free_list : List ℕ
  pub acquired_count : ℤ

module _ {E W : Type 0} (factory : W → Outcome E ℕ × W) where
  -- the loop of `make`, with `k` objects to go
  unfoldable pub fill_loop : ℕ → List ℕ → W → Outcome E (List ℕ) × W
  fill_loop zero free_list w = (returns free_list, w)
  fill_loop (suc k) free_list w =
      let (made, w') = factory w in
      elim made [ returns x ↦ fill_loop k (x ∷ free_list) w' | throws e ↦ (throws e, w') ]

  unfoldable pub end_make : ℕ → Outcome E (List ℕ) × W → Outcome E MemoryPool × W
  end_make max_size (returns free_list, w) =
      (returns (record { max_size = max_size; free_list = free_list; acquired_count = pos 0 }), w)
  end_make max_size (throws e, w) = (throws e, w)

  -- `make`, of sizes that are numbers
  unfoldable pub make : Option ℕ → Option ℕ → W → Outcome E MemoryPool × W
  make max_size min_size w =
      let most : ℕ = elim max_size [ none ↦ 1024 | some n ↦ n ] in
      let least : ℕ = elim min_size [ none ↦ 0 | some n ↦ n ] in
      if ltb most least then (throws too_large, w) else end_make most (fill_loop least [] w)

  -- the end of `acquire`, past the call of the factory
  unfoldable pub end_acquire : MemoryPool → Outcome E ℕ × W → Outcome E ℕ × MemoryPool × W
  end_acquire pool (returns x, w) =
      (returns x, record pool { acquired_count = pool.acquired_count +ℤ pos 1 }, w)
  end_acquire pool (throws e, w) = (throws e, pool, w)

  unfoldable pub acquire_from : MemoryPool → List ℕ → W → Outcome E ℕ × MemoryPool × W
  acquire_from pool (x ∷ rest) w = (
    returns x,
    record pool { acquired_count = pool.acquired_count +ℤ pos 1; free_list = rest },
    w,
  )
  acquire_from pool [] w =
      if leb_ℤ (pos pool.max_size) pool.acquired_count
      then (throws exhausted, pool, w)
      else end_acquire pool (factory w)

  unfoldable pub acquire : MemoryPool → W → Outcome E ℕ × MemoryPool × W
  acquire pool w = acquire_from pool pool.free_list w

module _ {E W : Type 0} (reset : Option (ℕ → W → Option E × W)) where
  unfoldable pub run_reset : ℕ → W → Option E × W
  run_reset x w = elim reset [ none ↦ (none, w) | some r ↦ r x w ]

  -- the end of `release`, past the call of `reset`
  unfoldable pub end_release : MemoryPool → ℕ → Option E × W → Option E × MemoryPool × W
  end_release pool x (none, w) = (
    none,
    record pool { acquired_count = pool.acquired_count -ℤ pos 1; free_list = x ∷ pool.free_list },
    w,
  )
  end_release pool x (some e, w) =
      (some e, record pool { acquired_count = pool.acquired_count -ℤ pos 1 }, w)

  unfoldable pub release : MemoryPool → ℕ → W → Option E × MemoryPool × W
  release pool x w = end_release pool x (run_reset x w)

-- how a call of `fn` ends that does not throw: with a thenable, which settles later, or another value
pub data Answer (R : Type 0) : Type 0 where
  plain : R → Answer R
  thenable : Answer R

-- what `withAcquire` returns: the value of `fn`, or a promise, while the object stays borrowed
pub data Lent (R : Type 0) : Type 0 where
  value : R → Lent R
  promise : ℕ → Lent R

module _ {E W A : Type 0} where
  -- the release of a call that has returned: an error of `reset` is thrown
  unfoldable pub end_release_of : A → Option E × MemoryPool × W → Outcome E A × MemoryPool × W
  end_release_of result (none, pool, w) = (returns result, pool, w)
  end_release_of result (some e, pool, w) = (throws (thrown e), pool, w)

  -- `releaseQuietly`, and the error of the call
  unfoldable pub end_quietly : Failure E → Option E × MemoryPool × W → Outcome E A × MemoryPool × W
  end_quietly e (ignored, pool, w) = (throws e, pool, w)

module _ {E W R : Type 0} (reset : Option (ℕ → W → Option E × W)) where
  -- `releaseOnSettle` past its `await`, which ends as the thenable settles
  unfoldable pub release_on_settle : ℕ → Outcome E R → MemoryPool → W → Outcome E R × MemoryPool × W
  release_on_settle x (returns result) pool w = end_release_of result (release reset pool x w)
  release_on_settle x (throws e) pool w = end_quietly e (release reset pool x w)

  -- `withAcquire` past the call of `fn` and the read of its result's `then`
  unfoldable pub end_call :
      ℕ → Outcome E (Answer R) × MemoryPool × W → Outcome E (Lent R) × MemoryPool × W
  end_call x (returns (plain result), pool, w) =
      end_release_of (value result) (release reset pool x w)
  end_call x (returns thenable, pool, w) = (returns (promise x), pool, w)
  end_call x (throws e, pool, w) = end_quietly e (release reset pool x w)

module _ {E W R : Type 0} (factory : W → Outcome E ℕ × W) (reset : Option (ℕ → W → Option E × W))
    (fn : ℕ → MemoryPool → W → Outcome E (Answer R) × MemoryPool × W) where
  unfoldable pub call_with : Outcome E ℕ × MemoryPool × W → Outcome E (Lent R) × MemoryPool × W
  call_with (returns x, pool, w) = end_call reset x (fn x pool w)
  call_with (throws e, pool, w) = (throws e, pool, w)

  -- `withAcquire` up to its return; the promise goes on with `release_on_settle`
  unfoldable pub with_acquire : MemoryPool → W → Outcome E (Lent R) × MemoryPool × W
  with_acquire pool w = call_with (acquire factory pool w)
