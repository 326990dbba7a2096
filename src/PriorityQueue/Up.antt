-- ===== src/PriorityQueue/Up.antt =====
-- `siftUp` of src/PriorityQueue.ts with a comparator that answers.
use mathlib.Core.List.Perm
use vjuga.Base.{
  ℕ, zero, suc, ◌≤◌, ◌<◌, ◌≡◌, ◌≢◌, refl, Bool, true, false, Option, List, arith, length, read,
  write, read-write, length-write, ltb, ◌==◌, if◌then◌else◌, Bool-cases, inl, inr, ltb→lt, subst,
}
use vjuga.PriorityQueue.{
  Outcome, Sift, settled, thrown, PriorityQueue, parent, up_loop, sift_up, end_up,
}
use vjuga.PriorityQueue.Elements.{move-perm, write_self}
use vjuga.PriorityQueue.Order.{IsOrder, IsHeapFrom, Sorted, Settles, Settles-map, Sifts}

module _ {A : Type 0} (less : Option A → Option A → Bool) where
  -- only the edge above the hole `i` may be out of order, with `value` in the hole
  pub record UpInv (items : List (Option A)) (n : ℕ) (value : Option A) (i : ℕ) : Type 0 where
    pub inside : i < n
    pub within : n ≤ length items
    pub edges :
        (c : ℕ)
        → 0 < c
        → c < n
        → c ≢ i
        → parent c ≢ i
        → less (read items c) (read items (parent c)) ≡ false
    pub below : (c : ℕ) → 0 < c → c < n → parent c ≡ i → less (read items c) value ≡ false
    pub bridged :
        (c : ℕ)
        → 0 < c
        → c < n
        → parent c ≡ i
        → 0 < i
        → less (read items c) (read items (parent i)) ≡ false

module _ {E A : Type 0} {cmp : Option A → Option A → Outcome E Bool}
    {less : Option A → Option A → Bool} (order : IsOrder cmp less) where
  rise-UpInv :
      (items : List (Option A)) (n : ℕ) (value : Option A) (i : ℕ)
      → UpInv less items n value i
      → 0 < i
      → less value (read items (parent i)) ≡ true
      → UpInv less (write items i (read items (parent i))) n value (parent i)
  rise-UpInv items n value i v pos up = record {
    inside = omega (arith, v.inside);
    within = omega (arith, v.within, length-write items i (read items p));
    edges = λ c h k a b. ground (arith, v.edges c, v.bridged c, put c, put (parent c));
    below = λ c h k a. ground (
      arith,
      v.edges c,
      put c,
      order.asym value (read items p) up,
      order.trans value (read items p) (read items c),
    );
    bridged = λ c h k a b. ground (
      arith,
      v.edges c,
      v.edges p,
      put c,
      put (parent p),
      order.trans (read items (parent p)) (read items p) (read items c),
    );
  }
    where
      p : ℕ
      p = parent i

      put :
          (c : ℕ)
          → read (write items i (read items (parent i))) c
            ≡ (if i == c then read items (parent i) else read items c)
      put c = read-write items i (read items (parent i)) c

  settle-ordered :
      (items : List (Option A)) (n : ℕ) (value : Option A) (i : ℕ)
      → UpInv less items n value i
      → (0 < i → less value (read items (parent i)) ≡ false)
      → IsHeapFrom less 0 (write items i value) n
  settle-ordered items n value i v low c h k l = ground (
    arith,
    v.edges c,
    v.below c,
    low,
    read-write items i value c,
    read-write items i value (parent c),
  )

  -- the rises trade places, so the elements stay the same
  trade :
      {n i : ℕ} {items b : List (Option A)} {value : Option A}
      → UpInv less items n value i
      → 0 < i
      → Sorted less 0 n (write (write items i (read items (parent i))) (parent i) value) b
      → Sorted less 0 n (write items i value) b
  trade {n} {i} {items} {b} {value} v pos s = record {
    ordered = s.ordered;
    same = Perm.trans s.same (
        move-perm n items i (parent i) value v.inside (omega (arith, v.inside)) v.within
          (omega arith));
    size = omega (
      arith,
      s.size,
      v.inside,
      v.within,
      length-write (write items i (read items (parent i))) (parent i) value,
      length-write items i (read items (parent i)),
      length-write items i value,
    );
  }

  up_loop-Settles :
      (k : ℕ) (items : List (Option A)) (n : ℕ) (value : Option A) (i : ℕ)
      → i ≤ k
      → UpInv less items n value i
      → Settles
          (λ b j. Sorted less 0 n (write items i value) (write b j value))
          (up_loop cmp k items value i)
  unfolding up_loop
  up_loop-Settles zero items n value i h v = record {
    ordered = settle-ordered items n value i v (λ pos. absurd (omega arith));
    same = Perm.refl _;
    size = refl;
  }
  up_loop-Settles (suc k) items n value i h v = elim (Bool-cases (ltb 0 i)) [
    | inl pos ↦
        rw (pos, order.answers)
          (elim (Bool-cases (less value (read items (parent i)))) [
            | inl up ↦ rw up (
                Settles-map (λ b j. trade {b = write b j value} v (ltb→lt 0 i pos))
                  (up_loop cmp k (write items i (read items (parent i))) value (parent i))
                  (up_loop-Settles k (write items i (read items (parent i))) n value (parent i)
                    (omega arith) (rise-UpInv items n value i v (ltb→lt 0 i pos) up)))
            | inr low ↦ rw low (record {
              ordered = settle-ordered items n value i v (λ _. low);
              same = Perm.refl _;
              size = refl;
            })
          ])
    | inr root ↦ rw root (record {
      ordered = settle-ordered items n value i v (λ pos. absurd (ground arith));
      same = Perm.refl _;
      size = refl;
    })
  ]

  end_up-Sifts :
      (pq : PriorityQueue A) (start : ℕ) (value : Option A) (s : Sift E A)
      → write pq.items start value ≡ pq.items
      → Settles (λ b j. Sorted less 0 pq.size (write pq.items start value) (write b j value)) s
      → Sifts less 0 pq (end_up cmp pq start value s)
  unfolding end_up
  end_up-Sifts pq start value (settled b j) e h =
      (refl, subst (λ a. Sorted less 0 pq.size a (write b j value)) e h, refl)
  end_up-Sifts pq start value (thrown x b j) e h = absurd h

  -- `siftUp` of an entry that alone is out of order gives a heap of the same elements.
  pub sift_up-Sifts :
      (pq : PriorityQueue A) (start : ℕ)
      → UpInv less pq.items pq.size (read pq.items start) start
      → Sifts less 0 pq (sift_up cmp pq start)
  unfolding sift_up
  sift_up-Sifts pq start v =
      end_up-Sifts pq start (read pq.items start)
        (up_loop cmp start pq.items (read pq.items start) start)
        (write_self pq.items start (omega (arith, v.inside, v.within)))
        (up_loop-Settles start pq.items pq.size (read pq.items start) start (omega arith) v)
