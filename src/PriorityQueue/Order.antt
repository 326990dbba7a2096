-- ===== src/PriorityQueue/Order.antt =====
-- The heap order of src/PriorityQueue.ts, and what it asks of the comparator.
use mathlib.Core.List.{Perm}
use vjuga.Base.{ℕ, ◌≤◌, ◌<◌, ◌≡◌, Bool, true, false, Option, none, List, length, take, read}
use vjuga.PriorityQueue.{Outcome, returns, Sift, settled, thrown, PriorityQueue, parent}

-- A comparator that always answers, by a strict weak order: `less a b` is `cmp(a, b) < 0`.
pub record IsOrder {E A : Type 0} (cmp : Option A → Option A → Outcome E Bool)
    (less : Option A → Option A → Bool) : Type 0 where
  pub answers : (a b : Option A) → cmp a b ≡ returns (less a b)
  pub asym : (a b : Option A) → less a b ≡ true → less b a ≡ false
  pub trans : (a b c : Option A) → less b a ≡ false → less c b ≡ false → less c a ≡ false

module _ {A : Type 0} (less : Option A → Option A → Bool) where
  -- among the first `n` slots no entry is less than its parent, for parents from `lo` on
  abbrev pub IsHeapFrom : ℕ → List (Option A) → ℕ → Type 0
  IsHeapFrom lo items n =
      (c : ℕ) → 0 < c → c < n → lo ≤ parent c → less (read items c) (read items (parent c)) ≡ false

  -- a heap: the live slots lie in the array, and are in order
  pub record IsHeap (pq : PriorityQueue A) : Type 0 where
    pub within : pq.size ≤ length pq.items
    pub ordered : IsHeapFrom 0 pq.items pq.size

  -- the array `b` is `a` with its first `n` entries rearranged, in order from `lo` on
  pub record Sorted (lo n : ℕ) (a b : List (Option A)) : Type 0 where
    pub ordered : IsHeapFrom lo b n
    pub same : Perm (take n b) (take n a)
    pub size : length b ≡ length a

  -- a call that does not throw, and leaves the heap's elements in order from `lo` on
  abbrev pub Sifts : {E : Type 0} → ℕ → PriorityQueue A → Option E × PriorityQueue A → Type 0
  Sifts lo pq r = (r.0 ≡ none) × Sorted lo pq.size pq.items r.1.items × (r.1.size ≡ pq.size)

-- how a sift ends when the comparator answers
abbrev pub Settles : {E A : Type 0} → (List (Option A) → ℕ → Type 0) → Sift E A → Type 0
Settles P (settled items i) = P items i
Settles P (thrown e items i) = ⊥

pub Settles-map :
    {E A : Type 0} {P Q : List (Option A) → ℕ → Type 0}
    → ((b : List (Option A)) (j : ℕ) → P b j → Q b j)
    → (s : Sift E A) → Settles P s
    → Settles Q s
Settles-map f (settled items i) h = f items i h
Settles-map f (thrown e items i) h = h
