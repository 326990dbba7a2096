-- ===== src/OrderedMap/Delete.antt =====
-- `deleteMin`, `deleteNode` and `del` of src/OrderedMap.ts. What they leave in `_delMinIdx` and
-- `_delDeleted` is a part of their results. The recursion goes down the tree, on fuel.
use vjuga.Base.{ℕ, zero, suc, ◌+◌, ◌-◌, Bool, true, false, Option, none, some}
use Prim.Native.Nat.{Ordering, lt, eq, gt}
use vjuga.Base.Stores.{put}
use vjuga.OrderedMap.{OrderedMap, rebalance, free_node}

-- what `deleteMin` returns, with the slot taken out, and what `deleteNode` returns
abbrev pub Min : Type 0 → Type 0 → Type 0
Min K V = Option ℕ × ℕ × OrderedMap K V

abbrev pub Deleted : Type 0 → Type 0 → Type 0
Deleted K V = Bool × Option ℕ × OrderedMap K V

module _ {K V : Type 0} where
  unfoldable pub join_min : ℕ → Min K V → Min K V
  join_min n (child, least, m) =
      let (top, m') = rebalance (record m { left = put m.left n child }) n in (some top, least, m')

  unfoldable pub delete_min : ℕ → OrderedMap K V → ℕ → Min K V
  delete_min zero m n = (some n, n, m)
  delete_min (suc fuel) m n = elim (m.left n) [
    | none ↦ (m.right n, n, m)
    | some l ↦ join_min n (delete_min fuel m l)
  ]

  unfoldable pub after_left : ℕ → Deleted K V → Deleted K V
  after_left n (false, child, m) = (false, some n, m)
  after_left n (true, child, m) =
      let (top, m') = rebalance (record m { left = put m.left n child }) n in (true, some top, m')

  unfoldable pub after_right : ℕ → Deleted K V → Deleted K V
  after_right n (false, child, m) = (false, some n, m)
  after_right n (true, child, m) =
      let (top, m') = rebalance (record m { right = put m.right n child }) n in (true, some top, m')

module _ {K V : Type 0} (no_key : K) (no_val : V) where
  -- the successor takes the place of `n`
  unfoldable pub replace_node : ℕ → Option ℕ → Min K V → Deleted K V
  replace_node n left_child (new_right, successor, m) =
      let m' = record m {
        left = put m.left successor left_child;
        right = put m.right successor new_right;
      } in
      let (top, m'') = rebalance (free_node no_key no_val m' n) successor in (true, some top, m'')

  unfoldable pub remove_node : ℕ → OrderedMap K V → ℕ → Option ℕ → Option ℕ → Deleted K V
  remove_node fuel m n left_child none = (true, left_child, free_node no_key no_val m n)
  remove_node fuel m n none (some r) = (true, some r, free_node no_key no_val m n)
  remove_node fuel m n (some l) (some r) = replace_node n (some l) (delete_min fuel m r)

  module _ (cmp : K → K → Ordering) where
    unfoldable pub delete_node : ℕ → OrderedMap K V → Option ℕ → K → Deleted K V
    delete_node zero m root key = (false, root, m)
    delete_node (suc fuel) m none key = (false, none, m)
    delete_node (suc fuel) m (some n) key = elim (cmp key (m.keys n)) [
      | lt ↦ after_left n (delete_node fuel m (m.left n) key)
      | gt ↦ after_right n (delete_node fuel m (m.right n) key)
      | eq ↦ remove_node fuel (record m { size = m.size - 1 }) n (m.left n) (m.right n)
    ]

    unfoldable pub del : OrderedMap K V → K → Bool × OrderedMap K V
    del m key =
        let (deleted, root, m') = delete_node (m.size + 1) m m.root key in
        (deleted, record m' { root = root })
