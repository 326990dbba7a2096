-- ===== src/OrderedMap.antt =====
-- src/OrderedMap.ts: the sorted map of an AVL tree in arrays. A node is its slot, and NULL is `none`.
-- An array is a function of the slot; every slot in use is below `len`, the length of the arrays. The
-- comparator `cmp` is the sign of the caller's. `K` and `V` have a value `undefined`, which a free
-- slot holds. The free list is a stack whose top is the head of the list.
pub mod Tree
pub mod Memory
pub mod TurnRight
pub mod TurnLeft
pub mod Attach
pub mod BentLeft
pub mod BentRight
pub mod Rebalance
pub mod TreeInsert
pub mod Insert
pub mod Sorted
pub mod Content
pub mod Free
pub mod Lookup
pub mod Nearest
pub mod Ends
pub mod Traverse
pub mod RangeRead
pub mod Calls
pub mod Height
pub mod Valid
pub mod Delete
pub mod TreeDelete
pub mod Detach
pub mod Removed
pub mod FreeNode
pub mod Remove
pub mod Erase
pub mod ValidDelete
pub mod Read
pub mod Walk
mod Tests
use vjuga.Base.{
  ℕ, zero, suc, ◌+◌, ◌-◌, ◌*◌, Bool, true, false, Option, none, some, List, [], ◌∷◌, ◌==◌, ltb,
  if◌then◌else◌,
}
use Prim.Native.Nat.{Ordering, lt, eq, gt}
use vjuga.Base.Stores.{put}

pub record OrderedMap (K V : Type 0) : Type 0 where
  pub root : Option ℕ
  pub keys : ℕ → K
  pub vals : ℕ → V
  pub left : ℕ → Option ℕ
  pub right : ℕ → Option ℕ
  pub height : ℕ → ℕ
  pub size : ℕ
  pub free : List ℕ
  pub len : ℕ

-- the stack of `n` slots pushed in order from `base`
unfoldable pub slots_from : ℕ → ℕ → List ℕ
slots_from base zero = []
slots_from base (suc n) = (base + n) ∷ slots_from base n

abbrev pub init_cap : ℕ
init_cap = 16

-- the slot of a node that a height has shown to be there
abbrev pub node_of : Option ℕ → ℕ
node_of none = 0
node_of (some n) = n

-- the height above children of two heights
abbrev pub taller : ℕ → ℕ → ℕ
taller lh rh = 1 + (if ltb rh lh then lh else rh)

module _ {K V : Type 0} (no_key : K) (no_val : V) where
  unfoldable pub make : OrderedMap K V
  make = record {
    root = none;
    keys = λ i. no_key;
    vals = λ i. no_val;
    left = λ i. none;
    right = λ i. none;
    height = λ i. 0;
    size = 0;
    free = slots_from 0 init_cap;
    len = init_cap;
  }

  unfoldable pub free_node : OrderedMap K V → ℕ → OrderedMap K V
  free_node m n = record m {
    keys = put m.keys n no_key;
    vals = put m.vals n no_val;
    left = put m.left n none;
    right = put m.right n none;
    height = put m.height n 0;
    free = n ∷ m.free;
  }

module _ {K V : Type 0} where
  unfoldable pub alloc_from : OrderedMap K V → List ℕ → ℕ × OrderedMap K V
  alloc_from m (n ∷ free) = (n, record m { free = free })
  alloc_from m [] = (
    m.len,
    record m {
      left = λ i. if ltb i m.len then m.left i else none;
      right = λ i. if ltb i m.len then m.right i else none;
      height = λ i. if ltb i m.len then m.height i else 0;
      len = m.len * 2;
      free = slots_from (m.len + 1) (m.len * 2 - (m.len + 1));
    },
  )

  unfoldable pub alloc_node : OrderedMap K V → ℕ × OrderedMap K V
  alloc_node m = alloc_from m m.free

  abbrev pub node_height : OrderedMap K V → Option ℕ → ℕ
  node_height m none = 0
  node_height m (some n) = m.height n

  unfoldable pub update_height : OrderedMap K V → ℕ → OrderedMap K V
  update_height m n = record m {
    height = put m.height n (taller (node_height m (m.left n)) (node_height m (m.right n)));
  }

  unfoldable pub rotate_right : OrderedMap K V → ℕ → ℕ × OrderedMap K V
  rotate_right m n =
      let l = node_of (m.left n) in
      let b = m.right l in
      let m' = record m { right = put m.right l (some n); left = put m.left n b } in
      (l, update_height (update_height m' n) l)

  unfoldable pub rotate_left : OrderedMap K V → ℕ → ℕ × OrderedMap K V
  rotate_left m n =
      let r = node_of (m.right n) in
      let b = m.left r in
      let m' = record m { left = put m.left r (some n); right = put m.right n b } in
      (r, update_height (update_height m' n) r)

  -- `left[n] = rotateLeft(m, l)` and `right[n] = rotateRight(m, r)`
  unfoldable pub turn_left_child : OrderedMap K V → ℕ → ℕ → OrderedMap K V
  turn_left_child m n l =
      let (l', m') = rotate_left m l in record m' { left = put m'.left n (some l') }

  unfoldable pub turn_right_child : OrderedMap K V → ℕ → ℕ → OrderedMap K V
  turn_right_child m n r =
      let (r', m') = rotate_right m r in record m' { right = put m'.right n (some r') }

  -- `rebalance` past the update of the height, for children of the heights `lh` and `rh`
  unfoldable pub rebalance_by : OrderedMap K V → ℕ → ℕ → ℕ → ℕ × OrderedMap K V
  rebalance_by m n lh rh =
      let l = node_of (m.left n) in
      let r = node_of (m.right n) in
      let left_bent = ltb (node_height m (m.left l)) (node_height m (m.right l)) in
      let right_bent = ltb (node_height m (m.right r)) (node_height m (m.left r)) in
      if ltb (rh + 1) lh
      then rotate_right (if left_bent then turn_left_child m n l else m) n
      else if ltb (lh + 1) rh
      then rotate_left (if right_bent then turn_right_child m n r else m) n
      else (n, m)

  unfoldable pub rebalance : OrderedMap K V → ℕ → ℕ × OrderedMap K V
  rebalance m n =
      rebalance_by (update_height m n) n (node_height m (m.left n)) (node_height m (m.right n))

  -- a new node with the key and the value
  unfoldable pub new_node : K → V → ℕ × OrderedMap K V → Option ℕ × OrderedMap K V
  new_node key val (n, m) = (
    some n,
    record m {
      keys = put m.keys n key;
      vals = put m.vals n val;
      left = put m.left n none;
      right = put m.right n none;
      height = put m.height n 1;
      size = m.size + 1;
    },
  )

  -- a node whose child is replaced, rebalanced
  unfoldable pub join_left : ℕ → Option ℕ × OrderedMap K V → Option ℕ × OrderedMap K V
  join_left n (child, m) =
      let (top, m') = rebalance (record m { left = put m.left n child }) n in (some top, m')

  unfoldable pub join_right : ℕ → Option ℕ × OrderedMap K V → Option ℕ × OrderedMap K V
  join_right n (child, m) =
      let (top, m') = rebalance (record m { right = put m.right n child }) n in (some top, m')

module _ {K V : Type 0} (cmp : K → K → Ordering) where
  -- the recursion goes down the tree, so `fuel` above its depth is enough
  unfoldable pub insert_node : ℕ → OrderedMap K V → Option ℕ → K → V → Option ℕ × OrderedMap K V
  insert_node zero m root key val = (root, m)
  insert_node (suc fuel) m none key val = new_node key val (alloc_node m)
  insert_node (suc fuel) m (some n) key val = elim (cmp key (m.keys n)) [
    | lt ↦ join_left n (insert_node fuel m (m.left n) key val)
    | gt ↦ join_right n (insert_node fuel m (m.right n) key val)
    | eq ↦ (some n, record m { vals = put m.vals n val })
  ]

  unfoldable pub set : OrderedMap K V → K → V → OrderedMap K V
  set m key value =
      let (root, m') = insert_node (m.size + 1) m m.root key value in record m' { root = root }
