-- ===== src/Queue/Repr.antt =====
-- The representation invariant of src/Queue.ts, with the elements that a queue holds.
use Prim.Native.Nat.{bit_and}
use vjuga.Base.{ℕ, ◌+◌, ◌-◌, ◌%◌, ◌^◌, ◌≤◌, ◌<◌, ◌≡◌, ◌∙◌, ap, sym, List, arith, length}
use vjuga.Base.Bits.{bit_and-mask}
use vjuga.Base.Modular.{wrap}
use vjuga.Queue.{Queue, size}
use vjuga.Queue.Window.{Window}

-- `q` holds the elements `xs`, front first: the capacity is a power of two from 4 to 2 ^ 30, at
-- least one slot is free, and every slot outside the elements is cleared.
pub record Repr {A : Type 0} (q : Queue A) (xs : List A) : Type 0 where
  pub bits : ℕ
  pub bits_lower : 2 ≤ bits
  pub bits_upper : bits ≤ 30
  pub capacity : length q.list ≡ 2 ^ bits
  pub mask : q.capacity_mask ≡ 2 ^ bits - 1
  pub head_in : q.head < length q.list
  pub room : length xs < length q.list
  pub tail_at : q.tail ≡ (q.head + length xs) % length q.list
  pub window : Window q.list (length q.list) q.head xs

-- between `push` or `unshift` and `growList`: every slot is live
pub record Full {A : Type 0} (q : Queue A) (xs : List A) : Type 0 where
  pub bits : ℕ
  pub bits_lower : 2 ≤ bits
  pub bits_upper : bits < 30
  pub capacity : length q.list ≡ 2 ^ bits
  pub mask : q.capacity_mask ≡ 2 ^ bits - 1
  pub head_in : q.head < length q.list
  pub whole : length xs ≡ length q.list
  pub tail_at : q.tail ≡ q.head
  pub window : Window q.list (length q.list) q.head xs

-- `x & capacityMask` goes round at the capacity
pub masked : (x mask bits c : ℕ) → mask ≡ 2 ^ bits - 1 → c ≡ 2 ^ bits → bit_and x mask ≡ x % c
masked x mask bits c e f = ap (bit_and x) e ∙ (bit_and-mask bits x ∙ ap (λ t. x % t) (sym f))

module _ {A : Type 0} {q : Queue A} {xs : List A} (r : Repr q xs) where
  pub masked_repr : (x : ℕ) → bit_and x q.capacity_mask ≡ x % length q.list
  masked_repr x = masked x q.capacity_mask r.bits (length q.list) r.mask r.capacity

  -- `size` returns the number of elements.
  pub size_lem : size q ≡ length xs
  unfolding size
  size_lem = ground (
    arith,
    masked_repr (q.tail + length q.list - q.head),
    r.tail_at,
    r.head_in,
    r.room,
    wrap (length q.list) (q.head + length xs) (omega (arith, r.head_in, r.room)),
    wrap (length q.list) (q.tail + length q.list - q.head)
        (omega (arith, r.head_in, r.room, r.tail_at)),
  )
