-- ===== src/PriorityQueue/Calls.antt =====
-- `push`, `pop` and `heapify` of src/PriorityQueue.ts with a comparator that answers.
use mathlib.Core.List.{Perm}
use mathlib.Core.List.Perm
use vjuga.Base.{
  ℕ, zero, suc, ◌+◌, ◌-◌, ◌*◌, ◌/◌, ◌%◌, ◌≤◌, ◌<◌, ◌≡◌, refl, ◌∙◌, ap, sym, subst, Bool, true,
  false, ◌&&◌, Option, none, List, [], ◌∷◌, arith, length, take, read, write, read-write,
  length-write, length-take, read-take, ltb, ◌==◌, if◌then◌else◌, Bool-cases, eq-cases, inl, inr,
}
use vjuga.PriorityQueue.{
  Outcome, returns, PriorityQueue, parent, sift_up, sift_down, push, pop, end_pop, heapify,
  heapify_loop, maybe_shrink,
}
use vjuga.PriorityQueue.Elements.{take-push, concat-perm, cut-perm, take-take}
use vjuga.PriorityQueue.Order.{IsOrder, IsHeapFrom, IsHeap, Sorted, Sifts}
use vjuga.PriorityQueue.Up.{UpInv, sift_up-Sifts}
use vjuga.PriorityQueue.Down.{DownInv, sift_down-Sifts, irrefl}

-- the elements of a heap, in the order of its slots
abbrev pub live : {A : Type 0} → PriorityQueue A → List (Option A)
live pq = take pq.size pq.items

module _ {E A : Type 0} {cmp : Option A → Option A → Outcome E Bool}
    {less : Option A → Option A → Bool} (order : IsOrder cmp less) where
  push-UpInv :
      (pq : PriorityQueue A) (value : Option A)
      → IsHeap less pq
      → UpInv less
          (write pq.items pq.size value)
          (pq.size + 1)
          (read (write pq.items pq.size value) pq.size)
          pq.size
  push-UpInv pq value v = record {
    inside = omega arith;
    within = omega (arith, length-write pq.items pq.size value, v.within);
    edges = λ c h k a b. ground (
      arith,
      v.ordered c,
      read-write pq.items pq.size value c,
      read-write pq.items pq.size value (parent c),
    );
    below = λ c h k a. absurd (omega arith);
    bridged = λ c h k a b. absurd (omega arith);
  }

  -- With a comparator that answers, `push` keeps a heap and adds exactly the value.
  pub push-IsHeap :
      (pq : PriorityQueue A) (value : Option A)
      → IsHeap less pq
      → let (failed, pq') = push cmp pq value in
        (failed ≡ none)
        × IsHeap less pq'
        × Perm (live pq') (value ∷ live pq)
        × (pq'.size ≡ pq.size + 1)
  unfolding push
  push-IsHeap pq value v =
      let grown : PriorityQueue A = record pq {
        items = write pq.items pq.size value;
        size = pq.size + 1;
      } in
      let (e, s, n) = sift_up-Sifts order grown pq.size (push-UpInv pq value v) in
      (
        e,
        record {
          within = omega (arith, n, s.size, v.within, length-write pq.items pq.size value);
          ordered = subst (IsHeapFrom less 0 (sift_up cmp grown pq.size).1.items) (sym n) s.ordered;
        },
        subst (λ k. Perm (take k (sift_up cmp grown pq.size).1.items) (value ∷ live pq)) (sym n)
            (subst (λ k. Perm (take k (sift_up cmp grown pq.size).1.items) (value ∷ live pq))
              (sym one_more)
              (Perm.trans
                (subst (λ k. Perm (take k (sift_up cmp grown pq.size).1.items) (take k grown.items))
                  one_more s.same)
                (rw (take-push pq.size pq.items value v.within) (concat-perm (live pq) value)))),
        n,
      )
    where
      one_more : pq.size + 1 ≡ suc pq.size
      one_more = omega arith

  chain :
      {lo : ℕ} {tmp pq : PriorityQueue A} {r : Option E × PriorityQueue A}
      → Sorted less lo tmp.size tmp.items pq.items
      → pq.size ≡ tmp.size
      → Sifts less 0 pq r
      → Sifts less 0 tmp r
  chain {lo} {tmp} {pq} {r} s n (e, t, m) = (
    e,
    record {
      ordered = subst (IsHeapFrom less 0 r.1.items) n t.ordered;
      same = Perm.trans (subst (λ k. Perm (take k r.1.items) (take k pq.items)) n t.same) s.same;
      size = t.size ∙ s.size;
    },
    m ∙ n,
  )

  heapify_loop-Sifts :
      (i : ℕ) (tmp : PriorityQueue A)
      → i + i ≤ tmp.size
      → tmp.size ≤ length tmp.items
      → IsHeapFrom less i tmp.items tmp.size
      → Sifts less 0 tmp (heapify_loop cmp i tmp)
  unfolding heapify_loop
  heapify_loop-Sifts zero tmp h w v =
      (refl, record { ordered = v; same = Perm.refl _; size = refl }, refl)
  heapify_loop-Sifts (suc i) tmp h w v =
      let (e, s, n) = sift_down-Sifts order tmp i i start in
      rw (e, heapify_loop)
        (chain s n (
          heapify_loop-Sifts i (sift_down cmp tmp i).1 (omega (arith, n, h))
            (omega (arith, n, w, s.size))
            (subst (IsHeapFrom less i (sift_down cmp tmp i).1.items) (sym n) s.ordered)))
    where
      start : DownInv less tmp.items tmp.size i (read tmp.items i) i
      start = record {
        inside = omega (arith, h);
        within = w;
        from = omega arith;
        edges = λ c p k l a b. v c p k (omega arith);
        above = λ p l. absurd (omega arith);
        bridged = λ c p k a q l. absurd (omega arith);
      }

  -- With a comparator that answers, `heapify` makes a heap of exactly the given items.
  pub heapify-IsHeap :
      (pq : PriorityQueue A) (items : List (Option A))
      → let (failed, pq') = heapify cmp pq items in
        (failed ≡ none) × IsHeap less pq' × Perm (live pq') items × (pq'.size ≡ length items)
  unfolding heapify
  heapify-IsHeap pq items =
      let tmp : PriorityQueue A = record { items = items; size = length items } in
      let (e, s, n) =
        heapify_loop-Sifts (length items / 2) tmp (omega arith) (omega arith)
          (λ c p k l. absurd (omega arith)) in
      rw (e, heapify)
        (
          refl,
          record {
            within = omega (arith, n, s.size);
            ordered =
                subst (IsHeapFrom less 0 (heapify_loop cmp (length items / 2) tmp).1.items) (sym n)
                  s.ordered;
          },
          subst (λ k. Perm (take k (heapify_loop cmp (length items / 2) tmp).1.items) items) (sym n)
              (subst (Perm (take (length items) (heapify_loop cmp (length items / 2) tmp).1.items))
                (take_all items) s.same),
          n,
        )
    where
      take_all : (xs : List (Option A)) → take (length xs) xs ≡ xs
      take_all [] = refl
      take_all (x ∷ xs) = ap (◌∷◌ x) (take_all xs)

  -- The root of a heap is least: no entry is less.
  root_least :
      (k c : ℕ) (pq : PriorityQueue A)
      → IsHeap less pq
      → c < k
      → c < pq.size
      → less (read pq.items c) (read pq.items 0) ≡ false
  root_least zero c pq v f h = absurd (omega arith)
  root_least (suc k) zero pq v f h = irrefl order (read pq.items 0)
  root_least (suc k) (suc c) pq v f h =
      order.trans (read pq.items 0) (read pq.items (parent (suc c))) (read pq.items (suc c))
        (root_least k (parent (suc c)) pq v (omega arith) (omega arith))
        (v.ordered (suc c) (omega arith) h (omega arith))

  pop-DownInv :
      (pq : PriorityQueue A) (n : ℕ)
      → IsHeap less pq
      → pq.size ≡ suc n
      → 0 < n
      → let moved = write (write pq.items 0 (read pq.items n)) n none in
        DownInv less moved n 0 (read moved 0) 0
  pop-DownInv pq n v size pos = record {
    inside = pos;
    within = omega (arith, length-write (write pq.items 0 (read pq.items n)) n none);
    from = omega arith;
    edges = λ c h k l a b. ground (arith, v.ordered c, size, put c, put (parent c));
    above = λ h l. absurd (omega arith);
    bridged = λ c h k a q l. absurd (omega arith);
  }
    where
      put :
          (c : ℕ)
          → read (write (write pq.items 0 (read pq.items n)) n none) c
            ≡ (if n == c then none else if 0 == c then read pq.items n else read pq.items c)
      put c = rw (
        read-write (write pq.items 0 (read pq.items n)) n none c,
        read-write pq.items 0 (read pq.items n) c,
      )

  -- shrinking keeps a heap and its elements
  shrink-IsHeap :
      (pq : PriorityQueue A) (n : ℕ) (b : Bool)
      → pq.size ≡ n
      → IsHeap less pq
      → let pq' = if b then record pq { items = maybe_shrink pq.items n } else pq in
        IsHeap less pq' × (live pq' ≡ live pq)
  unfolding maybe_shrink
  shrink-IsHeap pq n false m v = (v, refl)
  shrink-IsHeap pq n true m v =
      elim (Bool-cases (ltb 10000 (length pq.items) && ltb n (length pq.items / 4))) [
        | inl e ↦ rw e (
          record {
            within = omega (arith, length-take (n * 2 - 0) pq.items, v.within);
            ordered = λ c h k l. ground (
              arith,
              v.ordered c,
              read-take (n * 2 - 0) pq.items c,
              read-take (n * 2 - 0) pq.items (parent c),
            );
          },
          take-take pq.size (n * 2 - 0) pq.items (omega arith),
        )
        | inr e ↦ rw e (v, refl)
      ]

module _ {E A : Type 0} (less : Option A → Option A → Bool) where
  -- what `pop` returns and leaves: a least element, and a heap of the others
  pub record Popped (pq : PriorityQueue A) (r : Outcome E (Option A) × PriorityQueue A)
      : Type 0 where
    pub top : r.0 ≡ returns (read pq.items 0)
    pub least : (c : ℕ) → c < pq.size → less (read pq.items c) (read pq.items 0) ≡ false
    pub heap : IsHeap less r.1
    pub same : Perm (read pq.items 0 ∷ live r.1) (live pq)

module _ {E A : Type 0} {cmp : Option A → Option A → Outcome E Bool}
    {less : Option A → Option A → Bool} (order : IsOrder cmp less) (pq : PriorityQueue A)
    (v : IsHeap less pq) (filled : 0 < pq.size) where
  abbrev n : ℕ
  n = pq.size - 1

  size : pq.size ≡ suc n
  size = omega arith

  least_at_root : (c : ℕ) → c < pq.size → less (read pq.items c) (read pq.items 0) ≡ false
  least_at_root c h = root_least order (suc c) c pq v (omega arith) h

  pop_last :
      n ≡ 0
      → Popped {E = E} less pq
          (returns (read pq.items 0), record pq { items = write pq.items 0 none; size = 0 })
  pop_last e = record {
    top = refl;
    least = least_at_root;
    heap = record { within = omega arith; ordered = λ c h k l. absurd (omega arith) };
    same =
        subst (λ k. Perm (read pq.items 0 ∷ []) (take k pq.items)) (sym size)
          (subst (λ k. Perm (read pq.items 0 ∷ []) (take (suc k) pq.items)) (sym e)
            (one pq.items (omega (arith, v.within, size))));
  }
    where
      one : (xs : List (Option A)) → 1 ≤ length xs → Perm (read xs 0 ∷ []) (take 1 xs)
      one [] h = absurd (omega arith)
      one (x ∷ xs) h = Perm.refl _

  abbrev cut : PriorityQueue A
  cut = record pq { items = write (write pq.items 0 (read pq.items n)) n none; size = n }

  abbrev kept : Bool → PriorityQueue A
  kept b =
      let sifted = (sift_down cmp cut 0).1 in
      if b then record sifted { items = maybe_shrink sifted.items n } else sifted

  pop_many :
      0 < n
      → (b : Bool)
      → let (failed, sifted) = sift_down cmp cut 0 in
        (failed ≡ none)
        × Popped {E = E} less pq (
          returns (read pq.items 0),
          if b then record sifted { items = maybe_shrink sifted.items n } else sifted,
        )
  pop_many pos b =
      let (e, s, m) = sift_down-Sifts order cut 0 0 (pop-DownInv order pq n v size pos) in
      let (h, same) = shrink-IsHeap order (sift_down cmp cut 0).1 n b m (record {
        within = omega (arith, m, s.size, length-write (write pq.items 0 (read pq.items n)) n none);
        ordered = subst (IsHeapFrom less 0 (sift_down cmp cut 0).1.items) (sym m) s.ordered;
      }) in
      (
        e,
        record {
          top = refl;
          least = least_at_root;
          heap = h;
          same =
              subst (λ k. Perm (read pq.items 0 ∷ live (kept b)) (take k pq.items)) (sym size)
                (Perm.trans
                  (subst (λ l. Perm (read pq.items 0 ∷ l) (read pq.items 0 ∷ take n cut.items))
                    (sym same)
                    (Perm.cons _ (
                      subst (λ k. Perm (take k (sift_down cmp cut 0).1.items) (take n cut.items))
                        (sym m) s.same)))
                  (cut-perm n pq.items (omega (arith, v.within, size))));
        },
      )

  -- With a comparator that answers, `pop` on a heap that is not empty returns a least element,
  -- and leaves a heap of exactly the others.
  pub pop-Popped : Popped less pq (pop cmp pq)
  unfolding pop end_pop
  pop-Popped = rw not_empty (elim (eq-cases n 0) [
    | inl e ↦ rw (single e) (pop_last e)
    | inr ne ↦ let (e, p) = pop_many (omega arith) (n % 1024 == 0) in rw (several ne, e, pop) p
  ])
    where
      not_empty : (pq.size == 0) ≡ false
      not_empty = ground arith

      single : n ≡ 0 → (n == 0) ≡ true
      single e = ground arith

      several : (n ≡ 0 → ⊥) → (n == 0) ≡ false
      several e = ground arith
