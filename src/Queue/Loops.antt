-- ===== src/Queue/Loops.antt =====
-- The copying loops of src/Queue.ts: what is in each slot when one ends.
use vjuga.Base.{
  ℕ, zero, suc, ◌+◌, ◌-◌, ◌≤◌, ◌≡◌, refl, List, Option, none, arith, length, ltb, leb, ◌&&◌,
  if◌then◌else◌, read, write, read-write, length-write,
}
use vjuga.Queue.{copy_loop, move_loop}

module _ {A : Type 0} where
  -- `copy_loop` fills the slots from `j` on, and leaves the others.
  pub read-copy_loop :
      (k : ℕ) (src : List (Option A)) (i : ℕ) (dst : List (Option A)) (j p : ℕ)
      → read (copy_loop k src i dst j) p
        ≡ (if leb j p && ltb p (j + k) then read src (i + (p - j)) else read dst p)
  unfolding copy_loop
  read-copy_loop zero src i dst j p = ground arith
  read-copy_loop (suc k) src i dst j p = ground (
    arith,
    read-copy_loop k src (i + 1) (write dst j (read src i)) (j + 1) p,
    read-write dst j (read src i) p,
  )

  pub length-copy_loop :
      (k : ℕ) (src : List (Option A)) (i : ℕ) (dst : List (Option A)) (j : ℕ)
      → j + k ≤ length dst
      → length (copy_loop k src i dst j) ≡ length dst
  unfolding copy_loop
  length-copy_loop zero src i dst j h = refl
  length-copy_loop (suc k) src i dst j h = omega (
    arith,
    length-copy_loop k src (i + 1) (write dst j (read src i)) (j + 1)
        (omega (arith, length-write dst j (read src i))),
    length-write dst j (read src i),
  )

  -- `move_loop` builds the same result as `copy_loop`, as long as no slot is read twice.
  pub move_loop-result :
      (k : ℕ) (src : List (Option A)) (i : ℕ) (dst : List (Option A)) (j p : ℕ)
      → read (move_loop k src i dst j).1 p
        ≡ (if leb j p && ltb p (j + k) then read src (i + (p - j)) else read dst p)
  unfolding move_loop
  move_loop-result zero src i dst j p = ground arith
  move_loop-result (suc k) src i dst j p = ground (
    arith,
    move_loop-result k (write src i none) (i + 1) (write dst j (read src i)) (j + 1) p,
    read-write dst j (read src i) p,
    read-write src i none (i + 1 + (p - (j + 1))),
  )

  -- `move_loop` clears the slots that it reads, and no other.
  pub move_loop-cleared :
      (k : ℕ) (src : List (Option A)) (i : ℕ) (dst : List (Option A)) (j p : ℕ)
      → read (move_loop k src i dst j).0 p ≡ (if leb i p && ltb p (i + k) then none else read src p)
  unfolding move_loop
  move_loop-cleared zero src i dst j p = ground arith
  move_loop-cleared (suc k) src i dst j p = ground (
    arith,
    move_loop-cleared k (write src i none) (i + 1) (write dst j (read src i)) (j + 1) p,
    read-write src i none p,
  )

  pub move_loop-lengths :
      (k : ℕ) (src : List (Option A)) (i : ℕ) (dst : List (Option A)) (j : ℕ)
      → i + k ≤ length src
      → j + k ≤ length dst
      → (length (move_loop k src i dst j).0 ≡ length src)
        × (length (move_loop k src i dst j).1 ≡ length dst)
  unfolding move_loop
  move_loop-lengths zero src i dst j h l = (refl, refl)
  move_loop-lengths (suc k) src i dst j h l = omega (
    arith,
    move_loop-lengths k (write src i none) (i + 1) (write dst j (read src i)) (j + 1)
        (omega (arith, length-write src i none)) (omega (arith, length-write dst j (read src i))),
    length-write src i none,
    length-write dst j (read src i),
  )
