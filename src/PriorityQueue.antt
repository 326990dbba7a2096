-- ===== src/PriorityQueue.antt =====
-- src/PriorityQueue.ts: the binary min-heap whose comparator may throw. An element is an option,
-- `none` for `undefined`; of the comparator's number the code only asks whether it is negative,
-- so `cmp a b` returns `cmp(a, b) < 0`, or throws. A call returns its outcome with the new heap.
pub mod Elements
pub mod Order
pub mod Up
pub mod Down
pub mod Atomic
pub mod Calls
mod Tests
use vjuga.Base.{
  ℕ, zero, suc, ◌+◌, ◌-◌, ◌*◌, ◌/◌, ◌%◌, Bool, true, false, ◌&&◌, Option, none, some, List, [], ◌∷◌,
  ltb, leb, ◌==◌, if◌then◌else◌, length, read, write, slice,
}

-- a value returned or an error thrown
pub data Outcome (E A : Type 0) : Type 0 where
  returns : A → Outcome E A
  throws : E → Outcome E A

pub record PriorityQueue (A : Type 0) : Type 0 where
  pub items : List (Option A)
  pub size : ℕ

-- how the loop of a sift ends: the array with a hole at `at`, or an error at that point
pub data Sift (E A : Type 0) : Type 0 where
  settled : List (Option A) → ℕ → Sift E A
  thrown : E → List (Option A) → ℕ → Sift E A

abbrev pub parent : ℕ → ℕ
parent i = (i - 1) / 2

module _ {A : Type 0} where
  pub peek : PriorityQueue A → Option A
  peek pq = if pq.size == 0 then none else read pq.items 0

  -- the loop that undoes `siftUp`: `for (j = start; j !== i; j = parent(j))`, by the rounds left
  pub undo_up : ℕ → List (Option A) → Option A → ℕ → ℕ → List (Option A)
  undo_up zero items carry j i = items
  undo_up (suc k) items carry j i =
      let rest = undo_up k (write items j carry) (read items j) (parent j) i in
      if j == i then items else rest

  -- the loop that undoes `siftDown`: `for (j = i; j !== start; j = parent(j))`
  pub undo_down : ℕ → List (Option A) → ℕ → ℕ → List (Option A)
  undo_down zero items j start = items
  undo_down (suc k) items j start =
      let rest = undo_down k (write items j (read items (parent j))) (parent j) start in
      if j == start then items else rest

  -- `maybeShrink`
  pub maybe_shrink : List (Option A) → ℕ → List (Option A)
  maybe_shrink items new_size =
      if ltb 10000 (length items) && ltb new_size (length items / 4)
      then slice items 0 (new_size * 2)
      else items

module _ {E A : Type 0} (cmp : Option A → Option A → Outcome E Bool) where
  -- the loop of `siftUp`; with `i` rounds left the hole is at the root, where the loop ends
  pub up_loop : ℕ → List (Option A) → Option A → ℕ → Sift E A
  up_loop zero items value i = settled items i
  up_loop (suc k) items value i =
      let rise = up_loop k (write items i (read items (parent i))) value (parent i) in
      let step : Sift E A = elim (cmp value (read items (parent i))) [
        | returns b ↦ if b then rise else settled items i
        | throws e ↦ thrown e items i
      ] in
      if ltb 0 i then step else settled items i

  -- the end of `siftUp`: the value goes into the hole, or the moves are undone and it is dropped
  pub end_up : PriorityQueue A → ℕ → Option A → Sift E A → Option E × PriorityQueue A
  end_up pq start value (settled items i) = (none, record pq { items = write items i value })
  end_up pq start value (thrown e items i) = (
    some e,
    record pq { items = write (undo_up start items value start i) start none; size = start },
  )

  pub sift_up : PriorityQueue A → ℕ → Option E × PriorityQueue A
  sift_up pq start =
      let value = read pq.items start in end_up pq start value (up_loop start pq.items value start)

  -- the smaller child of the hole; the left one exists
  pub smaller_child : List (Option A) → ℕ → ℕ → Outcome E ℕ
  smaller_child items n i =
      let left = i * 2 + 1 in
      let right = left + 1 in
      let pick : Outcome E ℕ = elim (cmp (read items right) (read items left)) [
        | returns b ↦ returns (if b then right else left)
        | throws e ↦ throws e
      ] in
      if ltb right n then pick else returns left

  -- the loop of `siftDown`; the hole moves down at each round, so `n` rounds take it to a leaf
  pub down_loop : ℕ → List (Option A) → ℕ → Option A → ℕ → Sift E A
  down_loop zero items n value i = settled items i
  down_loop (suc k) items n value i =
      let sink = λ (child : ℕ). down_loop k (write items i (read items child)) n value child in
      let compare_child = λ (child : ℕ).
        let r : Sift E A = elim (cmp (read items child) value) [
          | returns b ↦ elim b [ true ↦ sink child | false ↦ settled items i ]
          | throws e ↦ thrown e items i
        ] in
        r in
      let step : Sift E A = elim (smaller_child items n i) [
        | returns child ↦ compare_child child
        | throws e ↦ thrown e items i
      ] in
      if leb n (i * 2 + 1) then settled items i else step

  -- the end of `siftDown`: the value goes into the hole, or the moves are undone
  pub end_down : PriorityQueue A → ℕ → Option A → Sift E A → Option E × PriorityQueue A
  end_down pq start value (settled items i) = (none, record pq { items = write items i value })
  end_down pq start value (thrown e items i) =
      (some e, record pq { items = write (undo_down (suc i) items i start) start value })

  pub sift_down : PriorityQueue A → ℕ → Option E × PriorityQueue A
  sift_down pq start =
      let value = read pq.items start in
      end_down pq start value (down_loop pq.size pq.items pq.size value start)

  pub push : PriorityQueue A → Option A → Option E × PriorityQueue A
  push pq value =
      sift_up (record pq { items = write pq.items pq.size value; size = pq.size + 1 }) pq.size

  -- the end of `pop`, after the sift of the `n - 1` elements left: shrink, or put all back
  pub end_pop :
      PriorityQueue A → Option E × PriorityQueue A → Outcome E (Option A) × PriorityQueue A
  end_pop pq (none, sifted) =
      let new_size = pq.size - 1 in
      (
        returns (read pq.items 0),
        if new_size % 1024 == 0
            then record sifted { items = maybe_shrink sifted.items new_size }
            else sifted,
      )
  end_pop pq (some e, sifted) =
      let back = write sifted.items (pq.size - 1) (read sifted.items 0) in
      (throws e, record sifted { items = write back 0 (read pq.items 0); size = pq.size })

  pub pop : PriorityQueue A → Outcome E (Option A) × PriorityQueue A
  pop pq =
      let items = pq.items in
      let new_size = pq.size - 1 in
      let moved = write (write items 0 (read items new_size)) new_size none in
      let last = record pq { items = write items 0 none; size = 0 } in
      let many = end_pop pq (sift_down (record pq { items = moved; size = new_size }) 0) in
      if pq.size == 0
      then (returns none, pq)
      else if new_size == 0
      then (returns (read items 0), last)
      else many

  -- the loop of `heapify`, from `i - 1` down to 0
  pub heapify_loop : ℕ → PriorityQueue A → Option E × PriorityQueue A
  heapify_loop zero tmp = (none, tmp)
  heapify_loop (suc i) tmp =
      let (failed, sifted) = sift_down tmp i in
      elim failed [ none ↦ heapify_loop i sifted | some e ↦ (some e, sifted) ]

  pub heapify : PriorityQueue A → List (Option A) → Option E × PriorityQueue A
  heapify pq items =
      let n = length items in
      let (failed, built) = heapify_loop (n / 2) (record { items = items; size = n }) in
      elim failed [ none ↦ (none, built) | some e ↦ (some e, pq) ]

  -- `make` with its optional initial items; an error of the comparator leaves no heap
  pub make : List (Option A) → Option E × PriorityQueue A
  make items = heapify (record { items = []; size = 0 }) items
