-- ===== src/PriorityQueue/Atomic.antt =====
-- `push` and `pop` of src/PriorityQueue.ts with a comparator that throws at any call: the undo
-- loops restore the heap.
use vjuga.Base.{
  ℕ, zero, suc, ◌+◌, ◌-◌, ◌*◌, ◌≤◌, ◌<◌, ◌≡◌, ◌≢◌, refl, ◌∙◌, ap, Bool, true, false, Option, none,
  some, List, arith, read, write, read-write, ltb, leb, ◌==◌, if◌then◌else◌, Bool-cases, inl, inr,
  ltb→lt, ◌⊎◌,
}
use vjuga.PriorityQueue.{
  Outcome, returns, throws, Sift, settled, thrown, PriorityQueue, parent, undo_up, undo_down,
  up_loop, end_up, sift_up, smaller_child, down_loop, end_down, sift_down, push, pop, end_pop,
}

module _ {A : Type 0} where
  -- From an error of the loop that entered at `i` with `items`, the undo loop brings `items` back,
  -- in any array that agrees with the loop's up to `i`; the carried value goes into slot `i`.
  record UndoneUp (items : List (Option A)) (i : ℕ) (b : List (Option A)) (j : ℕ) : Type 0 where
    reached : j ≤ i
    kept : (c : ℕ) → i < c → read b c ≡ read items c
    undone :
        (m : ℕ) (y : List (Option A)) (carry : Option A)
        → i ≤ m
        → ((c : ℕ) → c ≤ i → read y c ≡ read b c)
        → (c : ℕ)
        → read (undo_up m y carry i j) c ≡ (
            if i == c
            then if i == j then read items i else carry
            else if leb c i
            then read items c
            else read y c)

  -- thrown before a move
  undone_here : (items : List (Option A)) (i : ℕ) → UndoneUp items i items i
  unfolding undo_up
  undone_here items i = record { reached = omega arith; kept = λ c h. refl; undone = here }
    where
      same : (i == i) ≡ true
      same = ground arith

      stays : (m : ℕ) (y : List (Option A)) (carry : Option A) → undo_up m y carry i i ≡ y
      stays zero y carry = refl
      stays (suc m) y carry = rw same refl

      here :
          (m : ℕ) (y : List (Option A)) (carry : Option A)
          → i ≤ m
          → ((c : ℕ) → c ≤ i → read y c ≡ read items c)
          → (c : ℕ)
          → read (undo_up m y carry i i) c ≡ (
              if i == c
              then if i == i then read items i else carry
              else if leb c i
              then read items c
              else read y c)
      here m y carry h agree c = rw (stays m y carry) (ground (arith, agree c))

  undo_step :
      (m : ℕ) (y : List (Option A)) (carry : Option A) (i j : ℕ)
      → (i == j) ≡ false
      → undo_up (suc m) y carry i j ≡ undo_up m (write y i carry) (read y i) (parent i) j
  unfolding undo_up
  undo_step m y carry i j e = rw e

  -- thrown after a move to the parent
  undone_moved :
      (items b : List (Option A)) (i j : ℕ)
      → 0 < i
      → UndoneUp (write items i (read items (parent i))) (parent i) b j
      → UndoneUp items i b j
  undone_moved items b i j pos u = record {
    reached = omega (arith, u.reached);
    kept = λ c h. ground (arith, u.kept c, read-write items i (read items (parent i)) c);
    undone = there;
  }
    where
      there :
          (m : ℕ) (y : List (Option A)) (carry : Option A)
          → i ≤ m
          → ((c : ℕ) → c ≤ i → read y c ≡ read b c)
          → (c : ℕ)
          → read (undo_up m y carry i j) c ≡ (
              if i == c
              then if i == j then read items i else carry
              else if leb c i
              then read items c
              else read y c)
      there zero y carry h agree c = absurd (omega arith)
      there (suc m) y carry h agree c = rw (undo_step m y carry i j apart) (
          ground (
            arith,
            u.reached,
            u.undone m (write y i carry) (read y i) (omega arith) shifted c,
            shifted c,
            agree c,
            agree i,
            u.kept i,
            u.kept c,
            apart,
            read-write y i carry c,
            read-write items i (read items (parent i)) c,
            read-write items i (read items (parent i)) (parent i),
            read-write items i (read items (parent i)) i,
          ))
        where
          apart : (i == j) ≡ false
          apart = ground (arith, u.reached)

          shifted : (c : ℕ) → c ≤ parent i → read (write y i carry) c ≡ read b c
          shifted c l = ground (arith, read-write y i carry c, agree c)

  -- From an error of the loop that entered at `i`, the undo loop, on its way to `stop`, passes
  -- `i` with `items` restored but for the slot `i`.
  record UndoneDown (items : List (Option A)) (i : ℕ) (b : List (Option A)) (j : ℕ) : Type 0 where
    reached : i ≤ j
    passes :
        (k stop : ℕ)
        → j < k
        → stop ≤ i
        → (z : List (Option A)) × (k' : ℕ) × (i < k')
          × (undo_down k b j stop ≡ undo_down k' z i stop)
          × ((c : ℕ) → c ≢ i → read z c ≡ read items c)

  undo_down_here : (items : List (Option A)) (i : ℕ) → UndoneDown items i items i
  undo_down_here items i = record {
    reached = omega arith;
    passes = λ k stop h l. (items, k, h, refl, λ c ne. refl);
  }

  undo_down_step :
      (k : ℕ) (y : List (Option A)) (i stop : ℕ)
      → (i == stop) ≡ false
      → undo_down (suc k) y i stop ≡ undo_down k (write y i (read y (parent i))) (parent i) stop
  unfolding undo_down
  undo_down_step k y i stop e = rw e

  undo_down_stop : (k : ℕ) (y : List (Option A)) (i : ℕ) → undo_down k y i i ≡ y
  unfolding undo_down
  undo_down_stop zero y i = refl
  undo_down_stop (suc k) y i = rw same
    where
      same : (i == i) ≡ true
      same = ground arith

  undo_down_moved :
      (items b : List (Option A)) (i m j : ℕ)
      → i < m
      → parent m ≡ i
      → UndoneDown (write items i (read items m)) m b j
      → UndoneDown items i b j
  undo_down_moved items b i m j below up u = record {
    reached = omega (arith, u.reached);
    passes = λ k stop h l.
        let (z, k', p, e, q) = u.passes k stop h (omega arith) in
        (
          write z m (read z (parent m)),
          k' - 1,
          omega arith,
          e
              ∙ (ap (λ n. undo_down n z m stop) (one_more k' p)
                  ∙ (undo_down_step (k' - 1) z m stop (ground arith)
                      ∙ ap (λ n. undo_down (k' - 1) (write z m (read z (parent m))) n stop) up)),
          λ c ne. ground (
            arith,
            read-write z m (read z (parent m)) c,
            q c,
            q i,
            read-write items i (read items m) c,
            read-write items i (read items m) i,
          ),
        );
  }
    where
      one_more : (n : ℕ) → m < n → n ≡ suc (n - 1)
      one_more n h = omega arith

Outcome-cases :
    {E A : Type 0} (r : Outcome E A) → ((a : A) × (r ≡ returns a)) ⊎ ((x : E) × (r ≡ throws x))
Outcome-cases (returns a) = inl (a, refl)
Outcome-cases (throws x) = inr (x, refl)

module _ {E A : Type 0} (cmp : Option A → Option A → Outcome E Bool) where
  abbrev UndoesUp : List (Option A) → ℕ → Sift E A → Type 0
  UndoesUp items i (settled b j) = Unit {0}
  UndoesUp items i (thrown e b j) = UndoneUp items i b j

  abbrev UndoesDown : List (Option A) → ℕ → Sift E A → Type 0
  UndoesDown items i (settled b j) = Unit {0}
  UndoesDown items i (thrown e b j) = UndoneDown items i b j

  move_up :
      (items : List (Option A)) (i : ℕ) (s : Sift E A)
      → 0 < i
      → UndoesUp (write items i (read items (parent i))) (parent i) s
      → UndoesUp items i s
  move_up items i (settled b j) h u = tt
  move_up items i (thrown e b j) h u = undone_moved items b i j h u

  move_down :
      (items : List (Option A)) (i m : ℕ) (s : Sift E A)
      → i < m
      → parent m ≡ i
      → UndoesDown (write items i (read items m)) m s
      → UndoesDown items i s
  move_down items i m (settled b j) h e u = tt
  move_down items i m (thrown x b j) h e u = undo_down_moved items b i m j h e u

  up_loop-UndoesUp :
      (k : ℕ) (items : List (Option A)) (value : Option A) (i : ℕ)
      → UndoesUp items i (up_loop cmp k items value i)
  unfolding up_loop
  up_loop-UndoesUp zero items value i = tt
  up_loop-UndoesUp (suc k) items value i = elim (Bool-cases (ltb 0 i)) [
    | inl pos ↦ elim (Outcome-cases (cmp value (read items (parent i)))) [
      | inl (true, e) ↦
          rw (pos, e)
            (move_up items i
              (up_loop cmp k (write items i (read items (parent i))) value (parent i))
              (ltb→lt 0 i pos)
              (up_loop-UndoesUp k (write items i (read items (parent i))) value (parent i)))
      | inl (false, e) ↦ rw (pos, e) tt
      | inr (x, e) ↦ rw (pos, e) (undone_here items i)
    ]
    | inr root ↦ rw root tt
  ]

  -- the child that is compared is below the slot
  smaller_child-child :
      (items : List (Option A)) (n i m : ℕ)
      → smaller_child cmp items n i ≡ returns m
      → (i < m) × (parent m ≡ i)
  unfolding smaller_child
  smaller_child-child items n i m h = ground arith

  down_loop-UndoesDown :
      (k : ℕ) (items : List (Option A)) (n : ℕ) (value : Option A) (i : ℕ)
      → UndoesDown items i (down_loop cmp k items n value i)
  unfolding down_loop
  down_loop-UndoesDown zero items n value i = tt
  down_loop-UndoesDown (suc k) items n value i = elim (Bool-cases (leb n (i * 2 + 1))) [
    | inl leaf ↦ rw leaf tt
    | inr inner ↦ elim (Outcome-cases (smaller_child cmp items n i)) [
      | inr (x, e) ↦ rw (inner, e) (undo_down_here items i)
      | inl (m, e) ↦ elim (Outcome-cases (cmp (read items m) value)) [
        | inr (x, f) ↦ rw (inner, e, f) (undo_down_here items i)
        | inl (false, f) ↦ rw (inner, e, f) tt
        | inl (true, f) ↦
            rw (inner, e, f)
              (move_down items i m (down_loop cmp k (write items i (read items m)) n value m)
                (smaller_child-child items n i m e).0 (smaller_child-child items n i m e).1
                (down_loop-UndoesDown k (write items i (read items m)) n value m))
      ]
    ]
  ]

  -- `siftUp` that throws drops the entry at `start`, and leaves the other slots as they were.
  sift_up_atomic :
      (pq : PriorityQueue A) (start : ℕ) (x : E)
      → (sift_up cmp pq start).0 ≡ some x
      → ((sift_up cmp pq start).1.size ≡ start)
        × ((c : ℕ)
            → read (sift_up cmp pq start).1.items c
              ≡ (if start == c then none else read pq.items c))
  unfolding sift_up end_up
  sift_up_atomic pq start x =
      ended (up_loop cmp start pq.items (read pq.items start) start)
        (up_loop-UndoesUp start pq.items (read pq.items start) start)
    where
      ended :
          (s : Sift E A)
          → UndoesUp pq.items start s
          → (end_up cmp pq start (read pq.items start) s).0 ≡ some x
          → ((end_up cmp pq start (read pq.items start) s).1.size ≡ start)
            × ((c : ℕ)
                → read (end_up cmp pq start (read pq.items start) s).1.items c
                  ≡ (if start == c then none else read pq.items c))
      ended (settled b j) u e = cc
      ended (thrown y b j) u e = (
        refl,
        λ c. ground (
          arith,
          read-write (undo_up start b (read pq.items start) start j) start none c,
          u.undone start b (read pq.items start) (omega arith) (λ d h. refl) c,
          past c,
        ),
      )
        where
          past : (c : ℕ) → start < c → read b c ≡ read pq.items c
          past c h = u.kept c h

  -- `siftDown` that throws leaves every slot as it was.
  sift_down_atomic :
      (pq : PriorityQueue A) (start : ℕ) (x : E)
      → (sift_down cmp pq start).0 ≡ some x
      → ((sift_down cmp pq start).1.size ≡ pq.size)
        × ((c : ℕ) → read (sift_down cmp pq start).1.items c ≡ read pq.items c)
  unfolding sift_down end_down
  sift_down_atomic pq start x =
      ended (down_loop cmp pq.size pq.items pq.size (read pq.items start) start)
        (down_loop-UndoesDown pq.size pq.items pq.size (read pq.items start) start)
    where
      ended :
          (s : Sift E A)
          → UndoesDown pq.items start s
          → (end_down cmp pq start (read pq.items start) s).0 ≡ some x
          → ((end_down cmp pq start (read pq.items start) s).1.size ≡ pq.size)
            × ((c : ℕ)
                → read (end_down cmp pq start (read pq.items start) s).1.items c ≡ read pq.items c)
      ended (settled b j) u e = cc
      ended (thrown y b j) u e =
          let (z, k, p, f, q) = u.passes (suc j) start (omega arith) (omega arith) in
          (
            refl,
            λ c. ground (
              arith,
              read-write (undo_down (suc j) b j start) start (read pq.items start) c,
              f ∙ undo_down_stop k z start,
              q c,
            ),
          )

  -- `push` whose comparator throws leaves the size and every live slot as before the call, and
  -- the slot past them cleared.
  pub push_atomic :
      (pq : PriorityQueue A) (value : Option A) (x : E)
      → (push cmp pq value).0 ≡ some x
      → ((push cmp pq value).1.size ≡ pq.size)
        × ((c : ℕ)
            → read (push cmp pq value).1.items c ≡ (if pq.size == c then none else read pq.items c))
  unfolding push
  push_atomic pq value x h =
      let (e, f) =
        sift_up_atomic (record pq { items = write pq.items pq.size value; size = pq.size + 1 })
          pq.size x h in
      (e, λ c. f c ∙ ground (arith, read-write pq.items pq.size value c))

  -- `pop` whose comparator throws leaves the size and every slot as before the call.
  pub pop_atomic :
      (pq : PriorityQueue A) (x : E)
      → (pop cmp pq).0 ≡ throws x
      → ((pop cmp pq).1.size ≡ pq.size) × ((c : ℕ) → read (pop cmp pq).1.items c ≡ read pq.items c)
  unfolding pop end_pop
  pop_atomic pq x = select (pq.size == 0) (pq.size - 1 == 0) refl
    where
      cut : PriorityQueue A
      cut = record pq {
        items = write (write pq.items 0 (read pq.items (pq.size - 1))) (pq.size - 1) none;
        size = pq.size - 1;
      }

      last : PriorityQueue A
      last = record pq { items = write pq.items 0 none; size = 0 }

      AsBefore : PriorityQueue A → Type 0
      AsBefore r = (r.size ≡ pq.size) × ((c : ℕ) → read r.items c ≡ read pq.items c)

      moved :
          (c : ℕ)
          → read cut.items c ≡ (
              if pq.size - 1 == c
              then none
              else if 0 == c
              then read pq.items (pq.size - 1)
              else read pq.items c)
      moved c = rw (
        read-write (write pq.items 0 (read pq.items (pq.size - 1))) (pq.size - 1) none c,
        read-write pq.items 0 (read pq.items (pq.size - 1)) c,
      )

      finish :
          (r : Option E × PriorityQueue A)
          → (pq.size - 1 == 0) ≡ false
          → ((e : E)
              → r.0 ≡ some e
              → (r.1.size ≡ cut.size) × ((c : ℕ) → read r.1.items c ≡ read cut.items c))
          → (end_pop cmp pq r).0 ≡ throws x
          → AsBefore (end_pop cmp pq r).1
      finish (none, sifted) f k h = cc
      finish (some e, sifted) f k h =
          let kept = (k e refl).1 in
          (
            refl,
            λ c. ground (
              arith,
              read-write (write sifted.items (pq.size - 1) (read sifted.items 0)) 0
                  (read pq.items 0) c,
              read-write sifted.items (pq.size - 1) (read sifted.items 0) c,
              kept c,
              kept 0,
              moved c,
              moved 0,
            ),
          )

      select :
          (b c : Bool)
          → (pq.size - 1 == 0) ≡ c
          → (if b
              then (returns none, pq)
              else if c
              then (returns (read pq.items 0), last)
              else end_pop cmp pq (sift_down cmp cut 0)).0
            ≡ throws x
          → AsBefore
              (if b
                then (returns none, pq)
                else if c
                then (returns (read pq.items 0), last)
                else end_pop cmp pq (sift_down cmp cut 0)).1
      select true c f h = cc
      select false true f h = cc
      select false false f h = finish (sift_down cmp cut 0) f (λ e. sift_down_atomic cut 0 e) h
