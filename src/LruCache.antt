-- ===== src/LruCache.antt =====
-- src/LRUCache.ts: the cache of a doubly linked list in arrays, with the sentinel at slot 0. The two
-- `Int32Array`s, `len` long, are functions of the slot that are read by `at` and written by `put_in`;
-- the other arrays are functions of the slot, and the `Map` is a function of the key, whose equality
-- `same` is a parameter. The free list is a stack whose top is the head of the list.
pub mod Ring
pub mod Entries
pub mod Ready
pub mod Refine
pub mod Calls
mod Tests
use vjuga.Base.{
  ℕ, zero, suc, ◌+◌, ◌-◌, ◌%◌, Bool, true, false, not, ◌&&◌, ◌||◌, Option, none, some, List, [],
  ◌∷◌, ◌==◌, ltb, if◌then◌else◌,
}
use vjuga.Base.Int.{ℤ, pos, negsuc, leb_ℤ}
use vjuga.Base.Stores.{put}

pub record LruCache (K V : Type 0) : Type 0 where
  pub len : ℕ
  pub prev : ℕ → ℕ
  pub next : ℕ → ℕ
  pub keys : ℕ → Option K
  pub vals : ℕ → Option V
  pub index : K → Option ℕ
  pub free : List ℕ
  pub size : ℕ

abbrev pub sentinel : ℕ
sentinel = 0

-- The element of an `Int32Array`. Past the end it is `undefined`, for which the length stands: no
-- element has it as its index either.
abbrev pub at : ℕ → (ℕ → ℕ) → ℕ → ℕ
at len array i = if ltb i len then array i else len

-- a write to an `Int32Array`, which past the end has no effect
abbrev pub put_in : ℕ → (ℕ → ℕ) → ℕ → ℕ → ℕ → ℕ
put_in len array i v = if ltb i len then put array i v else array

-- `n | 0` of a natural number
abbrev pub int32 : ℕ → ℤ
int32 n = let r = n % 4294967296 in if ltb r 2147483648 then pos r else negsuc (4294967295 - r)

-- `(n | 0) === n`
abbrev pub is_int32 : ℕ → Bool
is_int32 n = leb_ℤ (int32 n) (pos n) && leb_ℤ (pos n) (int32 n)

-- the stack of the slots from `n` down to 1, whose top is the last of them
unfoldable pub slots_to : ℕ → List ℕ
slots_to zero = []
slots_to (suc n) = suc n ∷ slots_to n

module _ {K V : Type 0} where
  -- `make` past its check
  unfoldable pub new_cache : ℕ → LruCache K V
  new_cache capacity = record {
    len = capacity + 1;
    prev = λ i. 0;
    next = λ i. 0;
    keys = λ i. none;
    vals = λ i. none;
    index = λ k. none;
    free = slots_to capacity;
    size = 0;
  }

  -- `make` of a capacity that is a natural number; `none` is the RangeError
  unfoldable pub make : ℕ → Option (LruCache K V)
  make capacity =
      if ltb capacity 1 || not (is_int32 capacity) then none else some (new_cache capacity)

  unfoldable pub detach : LruCache K V → ℕ → LruCache K V
  detach c slot =
      let p = at c.len c.prev slot in
      let n = at c.len c.next slot in
      record c { next = put_in c.len c.next p n; prev = put_in c.len c.prev n p }

  unfoldable pub insert_after_sentinel : LruCache K V → ℕ → LruCache K V
  insert_after_sentinel c slot =
      let n = at c.len c.next sentinel in
      record c {
        next = put_in c.len (put_in c.len c.next sentinel slot) slot n;
        prev = put_in c.len (put_in c.len c.prev slot sentinel) n slot;
      }

  unfoldable pub size_of : LruCache K V → ℕ
  size_of c = c.size

unfoldable pub has_at : Option ℕ → Bool
has_at none = false
has_at (some slot) = true

module _ {K : Type 0} (same : K → K → Bool) where
  -- `map.set(key, value)` and `map.delete(key)`
  abbrev pub map_set : (K → Option ℕ) → K → ℕ → K → Option ℕ
  map_set map key slot k = if same k key then some slot else map k

  abbrev pub map_delete : (K → Option ℕ) → Option K → K → Option ℕ
  map_delete map none k = map k
  map_delete map (some key) k = if same k key then none else map k

module _ {K V : Type 0} (same : K → K → Bool) where
  unfoldable pub get_at : LruCache K V → Option ℕ → Option V × LruCache K V
  get_at c none = (none, c)
  get_at c (some slot) = (c.vals slot, insert_after_sentinel (detach c slot) slot)

  unfoldable pub get : LruCache K V → K → Option V × LruCache K V
  get c key = get_at c (c.index key)

  -- the end of `set` for a new key, in the slot found for it
  unfoldable pub store_at : LruCache K V → ℕ → K → V → LruCache K V
  store_at c slot key value =
      insert_after_sentinel
        (record c {
          keys = put c.keys slot (some key);
          vals = put c.vals slot (some value);
          index = map_set same c.index key slot;
        })
        slot

  -- the slot of the least recently used entry, taken out of the list and the map
  unfoldable pub evict : LruCache K V → LruCache K V
  evict c =
      let slot = at c.len c.prev sentinel in
      detach (record c { index = map_delete same c.index (c.keys slot) }) slot

  unfoldable pub set_new : LruCache K V → List ℕ → K → V → LruCache K V
  set_new c (slot ∷ free) key value =
      store_at (record c { free = free; size = c.size + 1 }) slot key value
  set_new c [] key value = store_at (evict c) (at c.len c.prev sentinel) key value

  unfoldable pub set_at : LruCache K V → Option ℕ → K → V → LruCache K V
  set_at c (some slot) key value =
      let c' = record c { vals = put c.vals slot (some value) } in
      insert_after_sentinel (detach c' slot) slot
  set_at c none key value = set_new c c.free key value

  unfoldable pub set : LruCache K V → K → V → LruCache K V
  set c key value = set_at c (c.index key) key value

  unfoldable pub has : LruCache K V → K → Bool
  has c key = has_at (c.index key)

  unfoldable pub del_at : LruCache K V → Option ℕ → K → Bool × LruCache K V
  del_at c none key = (false, c)
  del_at c (some slot) key =
      let c' = detach (record c { index = map_delete same c.index (some key) }) slot in
      (
        true,
        record c' {
          keys = put c.keys slot none;
          vals = put c.vals slot none;
          free = slot ∷ c.free;
          size = c.size - 1;
        },
      )

  unfoldable pub del : LruCache K V → K → Bool × LruCache K V
  del c key = del_at c (c.index key) key
