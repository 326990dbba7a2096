-- ===== src/Queue/Grow.antt =====
-- `growList` of src/Queue.ts: doubling the buffer keeps the elements and their order.
use Prim.Native.Nat.{bit_or}
use vjuga.Base.{
  ℕ, suc, ◌+◌, ◌-◌, ◌*◌, ◌%◌, ◌^◌, ◌≤◌, ◌<◌, ◌≡◌, ◌∙◌, ap, sym, List, Option, none, arith, length,
  get_elem?, read, set_length, copy_within, fill, read-past, read-set_length, length-set_length,
  read-copy_within, read-fill, length-overlay, get_elem?-none, slice, replicate, ltb, if◌then◌else◌,
  ap₂, subst,
}
use vjuga.Base.Bits.{bit_or-one, pow_double, pow_pos, pow_mono}
use vjuga.Base.Modular.{wrap}
use vjuga.Queue.{Queue, grow_list, shl_one}
use vjuga.Queue.Window.{Window}
use vjuga.Queue.Repr.{Repr, Full, masked}

module _ {A : Type 0} where
  -- the buffer after `growList`
  abbrev grown : List (Option A) → ℕ → List (Option A)
  grown list tail =
      fill (copy_within (set_length list (length list * 2)) (length list) 0 tail) none 0 tail

  length-grown : (list : List (Option A)) (tail : ℕ) → length (grown list tail) ≡ length list * 2
  length-grown list tail = omega (
    arith,
    length-set_length list (length list * 2),
    length-overlay (set_length list (length list * 2)) (length list)
        (slice (set_length list (length list * 2)) 0 tail),
    length-overlay (copy_within (set_length list (length list * 2)) (length list) 0 tail) 0
        (replicate (tail - 0) none),
  )

  grown-Window :
      (list : List (Option A)) (head : ℕ) (xs : List A)
      → head < length list
      → length xs ≡ length list
      → Window list (length list) head xs
      → Window (grown list head) (length list * 2) head xs
  grown-Window list head xs hh hn w i hi = ground (
    arith,
    low,
    wrap (length list * 2) (head + i) (omega arith),
    get_elem?-none xs i,
    read-fill moved none 0 head j,
    read-copy_within longer (length list) 0 head j (omega arith) (omega (arith, size))
        (omega (arith, size)),
    read-set_length list (length list * 2) j,
    read-set_length list (length list * 2) (j - length list),
    read-past list j,
    size,
    length-overlay longer (length list) (slice longer 0 head),
  )
    where
      j : ℕ
      j = (head + i) % (length list * 2)

      longer : List (Option A)
      longer = set_length list (length list * 2)

      moved : List (Option A)
      moved = copy_within longer (length list) 0 head

      size : length longer ≡ length list * 2
      size = length-set_length list (length list * 2)

      low :
          i < length list
          → (read list (if ltb (head + i) (length list) then head + i else head + i - length list))
            ≡ get_elem? xs i
      low h = ap (read list) (sym (wrap (length list) (head + i) (omega arith))) ∙ w i h

module _ {A : Type 0} {q : Queue A} {xs : List A} (f : Full q xs) where
  bound : 2 ^ f.bits ≤ 2 ^ 29
  bound = pow_mono f.bits 29 (omega (arith, f.bits_upper))

  doubled : shl_one (length q.list) ≡ length q.list * 2
  doubled = omega (arith, bound, f.capacity)

  longer_mask : bit_or (shl_one q.capacity_mask) 1 ≡ 2 ^ suc f.bits - 1
  longer_mask =
      bit_or-one (shl_one q.capacity_mask)
      ∙ omega (arith, bound, f.mask, pow_double f.bits, pow_pos f.bits)

  list_eq : (grow_list q).list ≡ grown q.list q.head
  unfolding grow_list
  list_eq =
      ap₂ (λ n t. fill (copy_within (set_length q.list n) (length q.list) 0 t) none 0 t) doubled
        f.tail_at

  length-grow_list : length (grow_list q).list ≡ length q.list * 2
  length-grow_list = ap length list_eq ∙ length-grown q.list q.head

  capacity_eq : length (grow_list q).list ≡ 2 ^ suc f.bits
  capacity_eq = omega (arith, length-grow_list, pow_double f.bits, f.capacity)

  tail_eq : (grow_list q).tail ≡ (q.head + length xs) % length (grow_list q).list
  unfolding grow_list
  tail_eq =
      masked (q.head + length q.list) _ (suc f.bits) (length (grow_list q).list) longer_mask
        capacity_eq
      ∙ ap (λ n. (q.head + n) % length (grow_list q).list) (sym f.whole)

  grow_list-Window : Window (grow_list q).list (length (grow_list q).list) q.head xs
  grow_list-Window =
      subst (λ c. Window (grow_list q).list c q.head xs) (sym length-grow_list)
        (subst (λ l. Window l (length q.list * 2) q.head xs) (sym list_eq)
          (grown-Window q.list q.head xs f.head_in f.whole f.window))

  -- `growList` doubles the capacity and keeps the elements.
  pub grow_list-Repr : Repr (grow_list q) xs
  unfolding grow_list
  grow_list-Repr = record {
    bits = suc f.bits;
    bits_lower = omega (arith, f.bits_lower);
    bits_upper = omega (arith, f.bits_upper);
    capacity = capacity_eq;
    mask = longer_mask;
    head_in = omega (arith, length-grow_list, f.head_in);
    room = omega (arith, length-grow_list, f.whole, f.head_in);
    tail_at = tail_eq;
    window = grow_list-Window;
  }
