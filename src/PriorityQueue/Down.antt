-- ===== src/PriorityQueue/Down.antt =====
-- `siftDown` of src/PriorityQueue.ts with a comparator that answers, and the loop of `heapify`.
use mathlib.Core.List.Perm
use vjuga.Base.{
  ℕ, zero, suc, ◌+◌, ◌*◌, ◌≤◌, ◌<◌, ◌≡◌, ◌≢◌, refl, subst, Bool, true, false, Option, List, arith,
  length, read, write, read-write, length-write, ltb, leb, ◌==◌, if◌then◌else◌, Bool-cases, inl,
  inr, ltb→lt, ◌⊎◌,
}
use vjuga.PriorityQueue.{
  Outcome, returns, Sift, settled, thrown, PriorityQueue, parent, smaller_child, down_loop,
  sift_down, end_down,
}
use vjuga.PriorityQueue.Elements.{move-perm, write_self}
use vjuga.PriorityQueue.Order.{IsOrder, IsHeapFrom, Sorted, Settles, Settles-map, Sifts}

module _ {A : Type 0} (less : Option A → Option A → Bool) where
  -- only the edges below the hole `i` may be out of order, with `value` in the hole
  pub record DownInv (items : List (Option A)) (n lo : ℕ) (value : Option A) (i : ℕ) : Type 0 where
    pub inside : i < n
    pub within : n ≤ length items
    pub from : lo ≤ i
    pub edges :
        (c : ℕ)
        → 0 < c
        → c < n
        → lo ≤ parent c
        → c ≢ i
        → parent c ≢ i
        → less (read items c) (read items (parent c)) ≡ false
    pub above : 0 < i → lo ≤ parent i → less value (read items (parent i)) ≡ false
    pub bridged :
        (c : ℕ)
        → 0 < c
        → c < n
        → parent c ≡ i
        → 0 < i
        → lo ≤ parent i
        → less (read items c) (read items (parent i)) ≡ false

  -- `m` is a child of `i`, and no child is less
  record IsLeastChild (items : List (Option A)) (n i m : ℕ) : Type 0 where
    inside : m < n
    child : parent m ≡ i
    pos : 0 < m
    least : (c : ℕ) → 0 < c → c < n → parent c ≡ i → less (read items c) (read items m) ≡ false

-- the two children of a slot
children : (c i : ℕ) → 0 < c → parent c ≡ i → (c ≡ i * 2 + 1) ⊎ (c ≡ i * 2 + 2)
children c i h e = grind arith

module _ {E A : Type 0} {cmp : Option A → Option A → Outcome E Bool}
    {less : Option A → Option A → Bool} (order : IsOrder cmp less) where
  pub irrefl : (a : Option A) → less a a ≡ false
  irrefl a = elim (Bool-cases (less a a)) [ inl e ↦ order.asym a a e | inr e ↦ e ]

  -- a fact about both children
  of_children :
      (items : List (Option A)) (n i : ℕ) (x : Option A)
      → less (read items (i * 2 + 1)) x ≡ false
      → (i * 2 + 1 + 1 < n → less (read items (i * 2 + 1 + 1)) x ≡ false)
      → (c : ℕ) → 0 < c
      → c < n
      → parent c ≡ i
      → less (read items c) x ≡ false
  of_children items n i x l r c p k q = ground (arith, children c i p q)

  -- `smaller_child` finds a least child
  smaller_child-IsLeastChild :
      (items : List (Option A)) (n i : ℕ)
      → i * 2 + 1 < n
      → (m : ℕ) × (smaller_child cmp items n i ≡ returns m) × IsLeastChild less items n i m
  unfolding smaller_child
  smaller_child-IsLeastChild items n i h = elim (Bool-cases (ltb (i * 2 + 1 + 1) n)) [
    | inl two ↦
        rw (two, order.answers)
          (elim (Bool-cases (less (read items (i * 2 + 1 + 1)) (read items (i * 2 + 1)))) [
            | inl e ↦ rw e (
              i * 2 + 1 + 1,
              refl,
              record {
                inside = ltb→lt _ _ two;
                child = omega arith;
                pos = omega arith;
                least =
                    of_children items n i (read items (i * 2 + 1 + 1)) (order.asym _ _ e)
                      (λ _. irrefl _);
              },
            )
            | inr e ↦ rw e (
              i * 2 + 1,
              refl,
              record {
                inside = h;
                child = omega arith;
                pos = omega arith;
                least = of_children items n i (read items (i * 2 + 1)) (irrefl _) (λ _. e);
              },
            )
          ])
    | inr one ↦ rw one (
      i * 2 + 1,
      refl,
      record {
        inside = h;
        child = omega arith;
        pos = omega arith;
        least =
            of_children items n i (read items (i * 2 + 1)) (irrefl _) (λ k. absurd (ground arith));
      },
    )
  ]

  sink-DownInv :
      (items : List (Option A)) (n lo : ℕ) (value : Option A) (i m : ℕ)
      → DownInv less items n lo value i
      → IsLeastChild less items n i m
      → less (read items m) value ≡ true
      → DownInv less (write items i (read items m)) n lo value m
  sink-DownInv items n lo value i m v w down = record {
    inside = w.inside;
    within = omega (arith, v.within, length-write items i (read items m));
    from = omega (arith, v.from, w.child);
    edges = λ c h k l a b.
        ground (
          arith,
          w.child,
          w.pos,
          v.edges c,
          v.bridged m,
          w.inside,
          w.least c,
          put c,
          put (parent c),
        );
    above =
        λ h l. ground (arith, w.child, w.pos, put (parent m), order.asym (read items m) value down);
    bridged =
        λ c h k a b l. ground (arith, v.from, w.child, w.pos, v.edges c, put c, put (parent m));
  }
    where
      put :
          (c : ℕ)
          → read (write items i (read items m)) c ≡ (if i == c then read items m else read items c)
      put c = read-write items i (read items m) c

  settle-ordered :
      (items : List (Option A)) (n lo : ℕ) (value : Option A) (i : ℕ)
      → DownInv less items n lo value i
      → ((c : ℕ) → 0 < c → c < n → parent c ≡ i → less (read items c) value ≡ false)
      → IsHeapFrom less lo (write items i value) n
  settle-ordered items n lo value i v low c h k l = ground (
    arith,
    v.edges c,
    v.above,
    low c,
    read-write items i value c,
    read-write items i value (parent c),
  )

  sink-Sorted :
      {items b : List (Option A)} {n lo i m : ℕ} {value : Option A}
      → DownInv less items n lo value i
      → IsLeastChild less items n i m
      → Sorted less lo n (write (write items i (read items m)) m value) b
      → Sorted less lo n (write items i value) b
  sink-Sorted {items} {b} {n} {lo} {i} {m} {value} v w s = record {
    ordered = s.ordered;
    same =
        Perm.trans s.same
          (move-perm n items i m value v.inside w.inside v.within (omega (arith, w.child, w.pos)));
    size = omega (
      arith,
      s.size,
      v.inside,
      w.inside,
      v.within,
      length-write (write items i (read items m)) m value,
      length-write items i (read items m),
      length-write items i value,
    );
  }

  down_loop-Settles :
      (k : ℕ) (items : List (Option A)) (n lo : ℕ) (value : Option A) (i : ℕ)
      → n ≤ k + i
      → DownInv less items n lo value i
      → Settles
          (λ b j. Sorted less lo n (write items i value) (write b j value))
          (down_loop cmp k items n value i)
  unfolding down_loop
  down_loop-Settles zero items n lo value i h v = absurd (omega (arith, v.inside))
  down_loop-Settles (suc k) items n lo value i h v = elim (Bool-cases (leb n (i * 2 + 1))) [
    | inl leaf ↦ rw leaf (record {
      ordered = settle-ordered items n lo value i v (λ c p l q. absurd (ground arith));
      same = Perm.refl _;
      size = refl;
    })
    | inr inner ↦
        let (m, e, w) = smaller_child-IsLeastChild items n i (ground arith) in
        rw (inner, e, order.answers)
          (elim (Bool-cases (less (read items m) value)) [
            | inl down ↦ rw down (
                Settles-map (λ b j. sink-Sorted {b = write b j value} v w)
                  (down_loop cmp k (write items i (read items m)) n value m)
                  (down_loop-Settles k (write items i (read items m)) n lo value m
                    (omega (arith, w.child, w.pos)) (sink-DownInv items n lo value i m v w down)))
            | inr rest ↦ rw rest (record {
              ordered = settle-ordered items n lo value i v (λ c p l q.
                  order.trans value (read items m) (read items c) rest (w.least c p l q));
              same = Perm.refl _;
              size = refl;
            })
          ])
  ]

  end_down-Sifts :
      (pq : PriorityQueue A) (lo start : ℕ) (value : Option A) (s : Sift E A)
      → write pq.items start value ≡ pq.items
      → Settles (λ b j. Sorted less lo pq.size (write pq.items start value) (write b j value)) s
      → Sifts less lo pq (end_down cmp pq start value s)
  unfolding end_down
  end_down-Sifts pq lo start value (settled b j) e h =
      (refl, subst (λ a. Sorted less lo pq.size a (write b j value)) e h, refl)
  end_down-Sifts pq lo start value (thrown x b j) e h = absurd h

  -- `siftDown` of an entry that alone is out of order, over the slots from `lo` on, orders them.
  pub sift_down-Sifts :
      (pq : PriorityQueue A) (lo start : ℕ)
      → DownInv less pq.items pq.size lo (read pq.items start) start
      → Sifts less lo pq (sift_down cmp pq start)
  unfolding sift_down
  sift_down-Sifts pq lo start v =
      end_down-Sifts pq lo start (read pq.items start)
        (down_loop cmp pq.size pq.items pq.size (read pq.items start) start)
        (write_self pq.items start (omega (arith, v.inside, v.within)))
        (down_loop-Settles pq.size pq.items pq.size lo (read pq.items start) start (omega arith) v)
