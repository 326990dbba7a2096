-- ===== src/MemoryPool/Exclusive.antt =====
-- Sharing in src/MemoryPool.ts: the objects that the borrowers hold, the free list and the maximum.
use vjuga.Base.{
  ℕ, zero, suc, ◌+◌, ◌≤◌, ◌<◌, ◌≡◌, refl, false, Option, none, some, List, [], ◌∷◌, ltb,
  if◌then◌else◌, arith, length, ap, sym, subst, inl, inr, Bool-cases, eq-cases, lt-cases,
}
use vjuga.Base.Int.{ℤ, pos, ◌+ℤ◌, ◌-ℤ◌, leb_ℤ}
use vjuga.MemoryPool.{
  MemoryPool, Outcome, returns, throws, too_large, acquire, acquire_from, end_acquire, make,
  fill_loop, end_make, release, end_release, run_reset,
}
use vjuga.Base.Counts.{occurs, remove, length-remove, occurs-remove}
use vjuga.MemoryPool.Held.{Step, took, refused, gave, Run, done, more}

count_up : (a : ℤ) (n : ℕ) → a ≡ pos n → a +ℤ pos 1 ≡ pos (suc n)
unfolding ◌+ℤ◌
count_up a n e = rw e (ground arith)

count_down : (a : ℤ) (n m : ℕ) → a ≡ pos n → m + 1 ≡ n → a -ℤ pos 1 ≡ pos m
unfolding ◌-ℤ◌
count_down a n m e h = rw e (ground arith)

below :
    (p : MemoryPool) (held : List ℕ)
    → p.acquired_count ≡ pos (length held)
    → leb_ℤ (pos p.max_size) p.acquired_count ≡ false
    → length held < p.max_size
below p held e h = ground (arith, subst (λ k. leb_ℤ (pos p.max_size) k ≡ false) e h)

-- `Born w x`: the object exists in the world. A factory that returns makes a new one, and neither
-- the factory nor `reset` takes one away.
module _ {E W : Type 0} (factory : W → Outcome E ℕ × W) (reset : Option (ℕ → W → Option E × W))
    (Born : W → ℕ → Type 0)
    (fresh : (w v : W) (x : ℕ) → factory w ≡ (returns x, v) → (Born w x → ⊥) × Born v x)
    (kept_by_factory : (w : W) (y : ℕ) → Born w y → Born (factory w).1 y)
    (kept_by_reset : (w : W) (x y : ℕ) → Born w y → Born (run_reset reset x w).1 y) where
  pub record Inv (p : MemoryPool) (w : W) (held : List ℕ) : Type 0 where
    pub counted : p.acquired_count ≡ pos (length held)
    pub fits : length p.free_list + length held ≤ p.max_size
    pub once : (x : ℕ) → occurs x p.free_list + occurs x held ≤ 1
    pub born : (x : ℕ) → 1 ≤ occurs x p.free_list + occurs x held → Born w x

  abbrev AfterAcquire : List ℕ → Outcome E ℕ × MemoryPool × W → Type 0
  AfterAcquire held (returns x, q, v) = Inv q v (x ∷ held)
  AfterAcquire held (throws e, q, v) = Inv q v held

  module _ (p : MemoryPool) (w : W) (held : List ℕ) (i : Inv p w held) where
    end_acquire-Inv :
        (o : Outcome E ℕ × W)
        → factory w ≡ o
        → p.free_list ≡ []
        → length held < p.max_size
        → AfterAcquire held (end_acquire factory p o)
    unfolding end_acquire occurs
    end_acquire-Inv (returns x, v) e f lt = record {
      counted = count_up p.acquired_count (length held) i.counted;
      fits = rw f (omega arith);
      once = λ z. ground (arith, i.once z, unused, empty z);
      born = λ z h. elim (eq-cases z x) as (λ _. Born v z) [
        | inl same ↦ subst (λ k. Born v k) (sym same) (fresh w v x e).1
        | inr other ↦ still z (ground (arith, h))
      ];
    }
      where
        empty : (z : ℕ) → occurs z p.free_list ≡ 0
        empty z = rw f refl

        unused : occurs x held ≡ 0
        unused = elim (lt-cases 0 (occurs x held)) as (λ _. occurs x held ≡ 0) [
          | inl some' ↦ absurd ((fresh w v x e).0 (i.born x (omega arith)))
          | inr none' ↦ omega arith
        ]

        still : (z : ℕ) → 1 ≤ occurs z p.free_list + occurs z held → Born v z
        still z h = subst (λ k. Born k.1 z) e (kept_by_factory w z (i.born z h))
    end_acquire-Inv (throws t, v) e f lt = record {
      counted = i.counted;
      fits = i.fits;
      once = i.once;
      born = λ x h. subst (λ k. Born k.1 x) e (kept_by_factory w x (i.born x h));
    }

    acquire_from-Inv :
        (l : List ℕ) → p.free_list ≡ l → AfterAcquire held (acquire_from factory p l w)
    unfolding acquire_from occurs
    acquire_from-Inv (x ∷ rest) f = record {
      counted = count_up p.acquired_count (length held) i.counted;
      fits = omega (arith, i.fits, ap length f);
      once = λ z. omega (arith, i.once z, ap (occurs z) f);
      born = λ z h. i.born z (omega (arith, h, ap (occurs z) f));
    }
    acquire_from-Inv [] f =
        elim (Bool-cases (leb_ℤ (pos p.max_size) p.acquired_count))
          as (λ _. AfterAcquire held (acquire_from factory p [] w)) [
            | inl full ↦ rw full i
            | inr room ↦ rw room (end_acquire-Inv (factory w) refl f (below p held i.counted room))
          ]

    acquire-Inv : AfterAcquire held (acquire factory p w)
    unfolding acquire
    acquire-Inv = acquire_from-Inv p.free_list refl

    end_release-Inv :
        (x : ℕ)
        → 1 ≤ occurs x held
        → (o : Option E × W) → ((y : ℕ) → Born w y → Born o.1 y)
        → Inv (end_release reset p x o).1 (end_release reset p x o).2 (remove x held)
    unfolding end_release occurs
    end_release-Inv x h (none, v) k = record {
      counted = count_down p.acquired_count _ _ i.counted (length-remove x held h);
      fits = omega (arith, i.fits, length-remove x held h);
      once = λ z. ground (arith, i.once z, occurs-remove x z held h);
      born = λ z g. k z (i.born z (ground (arith, g, occurs-remove x z held h)));
    }
    end_release-Inv x h (some e, v) k = record {
      counted = count_down p.acquired_count _ _ i.counted (length-remove x held h);
      fits = omega (arith, i.fits, length-remove x held h);
      once = λ z. ground (arith, i.once z, occurs-remove x z held h);
      born = λ z g. k z (i.born z (ground (arith, g, occurs-remove x z held h)));
    }

    release-Inv :
        (x : ℕ)
        → 1 ≤ occurs x held
        → Inv (release reset p x w).1 (release reset p x w).2 (remove x held)
    unfolding release
    release-Inv x h = end_release-Inv x h (run_reset reset x w) (kept_by_reset w x)

  Step-Inv :
      {p q : MemoryPool} {w v : W} {held kept : List ℕ}
      → Step factory reset p w held q v kept
      → Inv p w held
      → Inv q v kept
  Step-Inv {p} {q} {w} {v} {held} (took x e) i =
      subst (λ r. AfterAcquire held r) e (acquire-Inv p w held i)
  Step-Inv {p} {q} {w} {v} {held} (refused t e) i =
      subst (λ r. AfterAcquire held r) e (acquire-Inv p w held i)
  Step-Inv {p} {q} {w} {v} {held} (gave x r h e) i =
      subst (λ k. Inv k.1 k.2 (remove x held)) e (release-Inv p w held i x h)

  Run-Inv :
      {p q : MemoryPool} {w v : W} {held kept : List ℕ}
      → Run factory reset p w held q v kept
      → Inv p w held
      → Inv q v kept
  Run-Inv done i = i
  Run-Inv (more s r) i = Run-Inv r (Step-Inv s i)

  -- what the loop of `make` has made
  record Filled (n : ℕ) (l : List ℕ) (w : W) : Type 0 where
    pub many : length l ≡ n
    pub single : (x : ℕ) → occurs x l ≤ 1
    pub exists : (x : ℕ) → 1 ≤ occurs x l → Born w x

  abbrev AfterFill : ℕ → Outcome E (List ℕ) × W → Type 0
  AfterFill n (returns l, w) = Filled n l w
  AfterFill n (throws e, w) = Unit

  extend :
      (n : ℕ) (l : List ℕ) (w v : W) (x : ℕ)
      → Filled n l w
      → factory w ≡ (returns x, v)
      → Filled (suc n) (x ∷ l) v
  unfolding occurs
  extend n l w v x f e = record {
    many = ap suc f.many;
    single = λ z. ground (arith, f.single z, unused);
    exists = λ z h. elim (eq-cases z x) as (λ _. Born v z) [
      | inl same ↦ subst (λ k. Born v k) (sym same) (fresh w v x e).1
      | inr other ↦ subst (λ k. Born k.1 z) e (kept_by_factory w z (f.exists z (ground (arith, h))))
    ];
  }
    where
      unused : occurs x l ≡ 0
      unused = elim (lt-cases 0 (occurs x l)) as (λ _. occurs x l ≡ 0) [
        | inl some' ↦ absurd ((fresh w v x e).0 (f.exists x (omega arith)))
        | inr none' ↦ omega arith
      ]

  fill_loop-Filled :
      (k n : ℕ) (l : List ℕ) (w : W) → Filled n l w → AfterFill (k + n) (fill_loop factory k l w)
  unfolding fill_loop
  fill_loop-Filled zero n l w f = subst (λ m. Filled m l w) (omega arith) f
  fill_loop-Filled (suc k) n l w f =
      go (λ x v e. fill_loop-Filled k (suc n) (x ∷ l) v (extend n l w v x f e)) (factory w) refl
    where
      go :
          ((x : ℕ) (v : W)
            → factory w ≡ (returns x, v)
            → AfterFill (k + suc n) (fill_loop factory k (x ∷ l) v))
          → (o : Outcome E ℕ × W) → factory w ≡ o
          → AfterFill (suc k + n) (elim o.0 [
            | returns x ↦ fill_loop factory k (x ∷ l) o.1
            | throws e ↦ (throws e, o.1)
          ])
      go later (returns x, v) e =
          subst (λ m. AfterFill m (fill_loop factory k (x ∷ l) v)) (omega arith) (later x v e)
      go later (throws t, v) e = tt

  abbrev AfterMake : Outcome E MemoryPool × W → Type 0
  AfterMake (returns p, w) = Inv p w []
  AfterMake (throws e, w) = Unit

  end_make-Inv :
      (most least : ℕ) (o : Outcome E (List ℕ) × W)
      → least ≤ most
      → AfterFill least o
      → AfterMake (end_make factory most o)
  unfolding end_make occurs
  end_make-Inv most least (returns l, w) le f = record {
    counted = refl;
    fits = omega (arith, f.many);
    once = λ x. omega (arith, f.single x);
    born = λ x h. f.exists x (omega arith);
  }
  end_make-Inv most least (throws e, w) le f = tt

  sized :
      (most least : ℕ) (w : W)
      → AfterMake (
          if ltb most least
          then (throws too_large, w)
          else end_make factory most (fill_loop factory least [] w))
  unfolding occurs
  sized most least w =
      elim (Bool-cases (ltb most least))
        as (λ _. AfterMake (
          if ltb most least
          then (throws too_large, w)
          else end_make factory most (fill_loop factory least [] w))) [
            | inl b ↦ rw b tt
            | inr b ↦ rw b (
                end_make-Inv most least _ (ground arith) (
                  subst (λ m. AfterFill m (fill_loop factory least [] w)) (omega arith)
                    (fill_loop-Filled least 0 [] w (record {
                      many = refl;
                      single = λ x. omega arith;
                      exists = λ x h. absurd (omega arith);
                    }))))
          ]

  make-Inv : (most least : Option ℕ) (w : W) → AfterMake (make factory most least w)
  unfolding make
  make-Inv none none w = sized 1024 0 w
  make-Inv none (some n) w = sized 1024 n w
  make-Inv (some m) none w = sized m 0 w
  make-Inv (some m) (some n) w = sized m n w

  -- For a pool that `make` returns, and a factory whose objects are new: after any run of acquires
  -- and of releases of held objects, no object is held twice or both held and free, the objects held
  -- and free are at most the maximum, and the count is the number of objects held.
  pub run_exclusive :
      (most least : Option ℕ) (p q : MemoryPool) (u w v : W) (held : List ℕ)
      → make factory most least u ≡ (returns p, w)
      → Run factory reset p w [] q v held
      → ((x : ℕ) → occurs x q.free_list + occurs x held ≤ 1)
        × (length q.free_list + length held ≤ q.max_size)
        × (q.acquired_count ≡ pos (length held))
  run_exclusive most least p q u w v held e r =
      let j = Run-Inv r (subst AfterMake e (make-Inv most least u)) in (j.once, j.fits, j.counted)
