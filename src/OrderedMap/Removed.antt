-- ===== src/OrderedMap/Removed.antt =====
-- What a call of `deleteNode` of src/OrderedMap.ts leaves, and the nodes above it.
use vjuga.Base.{ℕ, ◌+◌, ◌-◌, ◌≡◌, refl, true, false, some, ◌∷◌, ◌==◌, if◌then◌else◌, arith, ◌∙◌}
use vjuga.Base.Stores.{put}
use vjuga.OrderedMap.{OrderedMap, rebalance}
use vjuga.OrderedMap.Tree.{Tree, node, balanced}
use vjuga.OrderedMap.TreeInsert.{occ-balanced}
use vjuga.OrderedMap.Memory.{occ, Holds, SameAt, Once, Turned}
use vjuga.OrderedMap.Delete.{Deleted, after_left, after_right}
use vjuga.OrderedMap.Detach.{rejoin_left, rejoin_right}

module _ {K V : Type 0} where
  -- what `deleteNode` leaves for a key that is there: the tree `t'`, which lacks the slot freed, and
  -- the arrays as they were at the slots that are not in `t`
  pub record Removed (m : OrderedMap K V) (t t' : Tree K V) (out : Deleted K V) : Type 0 where
    pub flag : out.0 ≡ true
    pub holds : Holds out.2 t' out.1
    pub frame : (x : ℕ) → occ x t ≡ 0 → SameAt m out.2 x
    pub freed : ℕ
    pub lost : (x : ℕ) → occ x t ≡ occ x t' + (if x == freed then 1 else 0)
    pub free_is : out.2.free ≡ freed ∷ m.free
    pub size_is : out.2.size ≡ m.size - 1
    pub len_is : out.2.len ≡ m.len

  module _ (m : OrderedMap K V) (l : Tree K V) (i : ℕ) (k : K) (v : V) (h : ℕ) (r : Tree K V)
      (d : Once (node l i k v h r)) (at : Holds m (node l i k v h r) (some i)) where
    -- the node over the left child that a deletion has left
    pub after_left-Removed :
        (l' : Tree K V) (out : Deleted K V)
        → Removed m l l' out
        → Removed m (node l i k v h r) (balanced l' i k v r) (after_left i out)
    unfolding after_left
    after_left-Removed l' (false, n, m') u = absurd (ground (arith, u.flag))
    after_left-Removed l' (true, n, m') u = record {
      flag = refl;
      holds = t.holds;
      frame = frame_t;
      freed = u.freed;
      lost = λ x. unfold occ in omega (arith, u.lost x, occ-balanced x l' i k v r);
      free_is = t.rest.2 ∙ u.free_is;
      size_is = t.rest.1 ∙ u.size_is;
      len_is = t.rest.3 ∙ u.len_is;
    }
      where
        m3 : OrderedMap K V
        m3 = record m' { left = put m'.left i n }

        t :
            Turned m'
              (node l' i k v 0 r)
              (balanced l' i k v r)
              (rebalance m3 i).0
              (rebalance m3 i).1
        t = rejoin_left m m' l i k v h r d at l' n (λ x. omega (arith, u.lost x)) u.frame u.holds

        frame_t : (x : ℕ) → occ x (node l i k v h r) ≡ 0 → SameAt m (rebalance m3 i).1 x
        frame_t x z =
            let y : (if x == i then 1 else 0) + occ x l + occ x r ≡ 0 = unfold occ in z in
            let p = u.frame x (omega (arith, y)) in
            let q = t.frame x (unfold occ in omega (arith, y, u.lost x)) in
            (q.0 ∙ p.0, q.1 ∙ p.1, q.2 ∙ p.2, q.3 ∙ p.3, q.4 ∙ p.4)

    pub after_right-Removed :
        (r' : Tree K V) (out : Deleted K V)
        → Removed m r r' out
        → Removed m (node l i k v h r) (balanced l i k v r') (after_right i out)
    unfolding after_right
    after_right-Removed r' (false, n, m') u = absurd (ground (arith, u.flag))
    after_right-Removed r' (true, n, m') u = record {
      flag = refl;
      holds = t.holds;
      frame = frame_t;
      freed = u.freed;
      lost = λ x. unfold occ in omega (arith, u.lost x, occ-balanced x l i k v r');
      free_is = t.rest.2 ∙ u.free_is;
      size_is = t.rest.1 ∙ u.size_is;
      len_is = t.rest.3 ∙ u.len_is;
    }
      where
        m3 : OrderedMap K V
        m3 = record m' { right = put m'.right i n }

        t :
            Turned m'
              (node l i k v 0 r')
              (balanced l i k v r')
              (rebalance m3 i).0
              (rebalance m3 i).1
        t = rejoin_right m m' l i k v h r d at r' n (λ x. omega (arith, u.lost x)) u.frame u.holds

        frame_t : (x : ℕ) → occ x (node l i k v h r) ≡ 0 → SameAt m (rebalance m3 i).1 x
        frame_t x z =
            let y : (if x == i then 1 else 0) + occ x l + occ x r ≡ 0 = unfold occ in z in
            let p = u.frame x (omega (arith, y)) in
            let q = t.frame x (unfold occ in omega (arith, y, u.lost x)) in
            (q.0 ∙ p.0, q.1 ∙ p.1, q.2 ∙ p.2, q.3 ∙ p.3, q.4 ∙ p.4)
