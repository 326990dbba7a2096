-- ===== src/Queue.antt =====
-- src/Queue.ts: the double-ended queue over a circular buffer. A function that updates the queue
-- returns the new queue, behind its result if it has one; a slot is `none` where the array holds
-- `undefined` or a hole. The queue's numbers are array indices; `<<` keeps its wrap at 32 bits.
pub mod Window
pub mod Loops
pub mod Repr
pub mod Grow
pub mod Shrink
pub mod Push
pub mod Take
pub mod Access
pub mod Bulk
pub mod Dump
pub mod Deque
mod Tests
use Prim.Native.Nat.{bit_and, bit_or}
use vjuga.Base.{
  ℕ, zero, suc, ◌+◌, ◌-◌, ◌*◌, ◌/◌, ◌%◌, ◌^◌, Bool, ◌&&◌, Option, none, some, List, [], ◌∷◌, ltb,
  leb, ◌==◌, if◌then◌else◌, length, replicate, read, write, set_length, slice, copy_within, fill,
}
use vjuga.Base.Bits.{clz32}

pub record Queue (A : Type 0) : Type 0 where
  pub capacity_mask : ℕ
  pub head : ℕ
  pub tail : ℕ
  pub list : List (Option A)
  pub last_dump : ℕ
  pub prev_dump : ℕ

-- `x << 1` of a number below 2 ^ 31, as a bit pattern
abbrev pub shl_one : ℕ → ℕ
shl_one x = x * 2 % 2 ^ 32

abbrev pub max_kept : ℕ
max_kept = 10000

-- the capacity that `dumpToArray` keeps for dumps of `keep` elements
pub kept_capacity : ℕ → ℕ
kept_capacity keep = if ltb keep 4 then 4 else 2 ^ (32 - clz32 keep)

module _ {A : Type 0} where
  pub size : Queue A → ℕ
  size q = bit_and (q.tail + length q.list - q.head) q.capacity_mask

  -- `growList`, called on a queue whose tail has come round to its head
  pub grow_list : Queue A → Queue A
  grow_list q =
      let len = length q.list in
      let longer = set_length q.list (shl_one len) in
      let mask = bit_or (shl_one q.capacity_mask) 1 in
      let moved = copy_within longer len 0 q.tail in
      record q {
        list = fill moved none 0 q.tail;
        capacity_mask = mask;
        tail = bit_and (q.head + len) mask;
      }

  -- `for (; k > 0; k--) dst[j++] = src[i++]`: the copying loops, by the rounds left
  pub copy_loop : ℕ → List (Option A) → ℕ → List (Option A) → ℕ → List (Option A)
  copy_loop zero src i dst j = dst
  copy_loop (suc k) src i dst j = copy_loop k src (i + 1) (write dst j (read src i)) (j + 1)

  -- the body of the `if` of `tryToShrinkList`: compact `count` elements and halve the buffer
  pub halve_list : Queue A → ℕ → Queue A
  halve_list q count =
      let len = length q.list in
      let together = copy_within q.list 0 q.head q.tail in
      let front = copy_within q.list 0 q.head len in
      let joined = copy_loop q.tail (slice q.list 0 q.tail) 0 front (len - q.head) in
      let compacted = if leb q.head q.tail then together else joined in
      let shorter = set_length compacted (length compacted / 2) in
      record q {
        tail = count;
        head = 0;
        capacity_mask = bit_or (q.capacity_mask / 2) 1;
        list = fill shorter none count (length shorter);
      }

  -- `tryToShrinkList`
  pub try_to_shrink_list : Queue A → Queue A
  try_to_shrink_list q =
      let len = length q.list in
      let count = bit_and (q.tail + len - q.head) q.capacity_mask in
      if ltb max_kept len && ltb count (len / 4) then halve_list q count else q

  pub push : Queue A → A → Queue A
  push q value =
      let next = bit_and (q.tail + 1) q.capacity_mask in
      let q' = record q { list = write q.list q.tail (some value); tail = next } in
      if next == q.head then grow_list q' else q'

  pub pop : Queue A → Option A × Queue A
  pop q =
      let last = bit_and (q.tail + length q.list - 1) q.capacity_mask in
      let q' = record q { tail = last; list = write q.list last none } in
      if q.tail == q.head
      then (none, q)
      else (read q.list last, if ltb max_kept (length q.list) then try_to_shrink_list q' else q')

  pub shift : Queue A → Option A × Queue A
  shift q =
      let next = bit_and (q.head + 1) q.capacity_mask in
      let q' = record q { list = write q.list q.head none; head = next } in
      if q.tail == q.head
      then (none, q)
      else (read q.list q.head, if ltb max_kept (length q.list) then try_to_shrink_list q' else q')

  pub unshift : Queue A → A → Queue A
  unshift q value =
      let first = bit_and (q.head + length q.list - 1) q.capacity_mask in
      let q' = record q { head = first; list = write q.list first (some value) } in
      if q.tail == first then grow_list q' else q'

  pub peek_front : Queue A → Option A
  peek_front q = if q.tail == q.head then none else read q.list q.head

  pub peek_back : Queue A → Option A
  peek_back q =
      if q.tail == q.head
      then none
      else read q.list (bit_and (q.tail + length q.list - 1) q.capacity_mask)

  pub get : Queue A → ℕ → Option A
  get q i = read q.list (bit_and (q.head + i) q.capacity_mask)

  pub set : Queue A → ℕ → A → Queue A
  set q i value = record q {
    list = write q.list (bit_and (q.head + i) q.capacity_mask) (some value);
  }

  pub swap : Queue A → ℕ → ℕ → Queue A
  swap q i j =
      let ri = bit_and (q.head + i) q.capacity_mask in
      let rj = bit_and (q.head + j) q.capacity_mask in
      let once = write q.list ri (read q.list rj) in
      record q { list = write once rj (read q.list ri) }

  pub to_array : Queue A → List (Option A)
  to_array q =
      let len = length q.list in
      let result = replicate (bit_and (q.tail + len - q.head) q.capacity_mask) none in
      let front = copy_loop (len - q.head) q.list q.head result 0 in
      if leb q.head q.tail
      then copy_loop (q.tail - q.head) q.list q.head result 0
      else copy_loop q.tail q.list 0 front (len - q.head)

  -- a round of `dumpToArray` also clears the slot: the buffer and the result
  pub move_loop : ℕ → List (Option A) → ℕ → List (Option A) → ℕ → List (Option A) × List (Option A)
  move_loop zero src i dst j = (src, dst)
  move_loop (suc k) src i dst j =
      move_loop k (write src i none) (i + 1) (write dst j (read src i)) (j + 1)

  pub dump_to_array : Queue A → List (Option A) × Queue A
  dump_to_array q =
      let len = length q.list in
      let count = bit_and (q.tail + len - q.head) q.capacity_mask in
      let result = replicate count none in
      let front = move_loop (len - q.head) q.list q.head result 0 in
      let moved =
        if leb q.head q.tail
        then move_loop (q.tail - q.head) q.list q.head result 0
        else move_loop q.tail front.0 0 front.1 (len - q.head) in
      let q' = record q {
        head = 0;
        tail = 0;
        list = moved.0;
        prev_dump = q.last_dump;
        last_dump = length moved.1;
      } in
      let keep = if ltb q.prev_dump q.last_dump then q.last_dump else q.prev_dump in
      let cap = kept_capacity keep in
      let truncated = record q' { list = set_length moved.0 cap; capacity_mask = cap - 1 } in
      if ltb max_kept len && ltb keep (len / 2) then (moved.1, truncated) else (moved.1, q')

  pub push_all : Queue A → List A → Queue A
  push_all q [] = q
  push_all q (value ∷ items) = push_all (push q value) items

  -- the queue that `make` allocates
  abbrev pub fresh : Queue A
  fresh = record {
    capacity_mask = 3;
    head = 0;
    tail = 0;
    list = none ∷ none ∷ none ∷ none ∷ [];
    last_dump = 0;
    prev_dump = 0;
  }

  pub make : List A → Queue A
  unfolding push_all
  make items = push_all fresh items
