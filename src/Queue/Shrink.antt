-- ===== src/Queue/Shrink.antt =====
-- `tryToShrinkList` of src/Queue.ts: halving the buffer keeps the elements and their order.
use Prim.Native.Nat.{bit_or, bit_and}
use native.Mathlib.Nat.{mod-eq_of_lt}
use vjuga.Base.{
  ℕ, ◌+◌, ◌-◌, ◌/◌, ◌%◌, ◌^◌, ◌≤◌, ◌<◌, ◌≡◌, ◌∙◌, sym, subst, List, Option, none, arith, length,
  get_elem?, read, ltb, leb, ◌&&◌, if◌then◌else◌, inl, inr, Bool-cases, lt-cases, set_length,
  copy_within, fill, read-set_length, length-set_length, read-take, read-copy_within, read-fill,
  length-overlay, get_elem?-none, slice, replicate,
}
use vjuga.Base.Bits.{bit_or-one, pow_halved, pow_pos, pow_mono}
use vjuga.Base.Modular.{wrap}
use vjuga.Queue.{Queue, try_to_shrink_list, halve_list, copy_loop, max_kept, size}
use vjuga.Queue.Loops.{read-copy_loop, length-copy_loop}
use vjuga.Queue.Window.{Window}
use vjuga.Queue.Repr.{Repr, size_lem}

module _ {A : Type 0} (list : List (Option A)) (head tail : ℕ) where
  abbrev together : List (Option A)
  together = copy_within list 0 head tail

  abbrev joined : List (Option A)
  joined =
      copy_loop tail (slice list 0 tail) 0 (copy_within list 0 head (length list))
        (length list - head)

  abbrev compacted : List (Option A)
  compacted = if leb head tail then together else joined

  module _ (xs : List A) (hh : head < length list) (hn : length xs < length list)
      (ht : tail ≡ (head + length xs) % length list) (w : Window list (length list) head xs) where
    -- the elements stand in the first slots
    read-compacted : (i : ℕ) → i < length xs → read compacted i ≡ get_elem? xs i
    read-compacted i hi = ground (
      arith,
      w i (omega arith),
      ht,
      wrap (length list) (head + i) (omega arith),
      wrap (length list) (head + length xs) (omega arith),
      flat,
      front,
      read-copy_loop tail (slice list 0 tail) 0 (copy_within list 0 head (length list))
          (length list - head) i,
      read-take (tail - 0) list (i - (length list - head)),
    )
      where
        flat :
            head ≤ tail
            → tail ≤ length list
            → read together i ≡ (
                if leb 0 i && ltb i (0 + (tail - head))
                then read list (head + (i - 0))
                else read list i)
        flat h k = read-copy_within list 0 head tail i h k (omega arith)

        front : read (copy_within list 0 head (length list)) i ≡ (
            if leb 0 i && ltb i (0 + (length list - head))
            then read list (head + (i - 0))
            else read list i)
        front =
            read-copy_within list 0 head (length list) i (omega arith) (omega arith) (omega arith)

    length-compacted : length compacted ≡ length list
    length-compacted = elim (Bool-cases (leb head tail)) [
      | inl e ↦ rw e (length-overlay list 0 (slice list head tail))
      | inr e ↦ rw e (
          length-copy_loop tail (slice list 0 tail) 0 (copy_within list 0 head (length list))
            (length list - head)
            (ground (
              arith,
              ht,
              length-overlay list 0 (slice list head (length list)),
              wrap (length list) (head + length xs) (omega arith),
            ))
          ∙ length-overlay list 0 (slice list head (length list)))
    ]

    -- the buffer after `tryToShrinkList`
    abbrev halved : List (Option A)
    halved =
        let shorter = set_length compacted (length compacted / 2) in
        fill shorter none (length xs) (length shorter)

    length-halved : length halved ≡ length list / 2
    length-halved = omega (
      arith,
      length-compacted,
      length-set_length compacted (length compacted / 2),
      length-overlay (set_length compacted (length compacted / 2)) (length xs)
          (replicate (length (set_length compacted (length compacted / 2)) - length xs) none),
    )

    halved-Window : length xs < length list / 2 → Window halved (length list / 2) 0 xs
    halved-Window small i hi = ground (
      arith,
      wrap (length list / 2) (0 + i) (omega arith),
      read-compacted ((0 + i) % (length list / 2)),
      get_elem?-none xs i,
      length-compacted,
      length-set_length compacted (length compacted / 2),
      read-set_length compacted (length compacted / 2) ((0 + i) % (length list / 2)),
      read-fill (set_length compacted (length compacted / 2)) none (length xs)
          (length (set_length compacted (length compacted / 2))) ((0 + i) % (length list / 2)),
    )

module _ {A : Type 0} {q : Queue A} {xs : List A} (r : Repr q xs) (large : max_kept < length q.list)
    (few : length xs < length q.list / 2) where
  new_bits : ℕ
  new_bits = r.bits - 1

  wide : 13 < r.bits
  wide = elim (lt-cases 13 r.bits) [
    | inl h ↦ h
    | inr h ↦ absurd (omega (arith, pow_mono r.bits 13 h, r.capacity, large))
  ]

  half : length q.list / 2 ≡ 2 ^ new_bits
  unfolding new_bits
  half = omega (arith, pow_halved r.bits (omega (arith, wide)), r.capacity)

  shorter_mask : bit_or (q.capacity_mask / 2) 1 ≡ 2 ^ new_bits - 1
  unfolding new_bits
  shorter_mask =
      bit_or-one (q.capacity_mask / 2)
      ∙ omega (
        arith,
        r.mask,
        pow_halved r.bits (omega (arith, wide)),
        pow_halved (r.bits - 1) (omega (arith, wide)),
        pow_pos (r.bits - 1 - 1),
      )

  list_size : length (halve_list q (length xs)).list ≡ length q.list / 2
  unfolding halve_list
  list_size = length-halved q.list q.head q.tail xs r.head_in r.room r.tail_at r.window

  -- Halving a buffer with few elements keeps them.
  halve_list-Repr : Repr (halve_list q (length xs)) xs
  unfolding halve_list new_bits
  halve_list-Repr = record {
    bits = new_bits;
    bits_lower = omega (arith, wide);
    bits_upper = omega (arith, r.bits_upper);
    capacity = list_size ∙ half;
    mask = shorter_mask;
    head_in = omega (arith, list_size, few);
    room = omega (arith, list_size, few);
    tail_at = omega (
      arith,
      list_size,
      wrap (length (halve_list q (length xs)).list) (0 + length xs) (omega (arith, list_size, few)),
      mod-eq_of_lt {n = 0 + length xs} {m = length (halve_list q (length xs)).list}
          (omega (arith, list_size, few)),
    );
    window =
        subst (λ c. Window (halve_list q (length xs)).list c 0 xs) (sym list_size)
          (halved-Window q.list q.head q.tail xs r.head_in r.room r.tail_at r.window few);
  }

module _ {A : Type 0} {q : Queue A} {xs : List A} (r : Repr q xs) where
  count_eq : bit_and (q.tail + length q.list - q.head) q.capacity_mask ≡ length xs
  unfolding size
  count_eq = size_lem r

  -- `tryToShrinkList` keeps the elements, whether it shrinks the buffer or not.
  pub try_to_shrink_list-Repr : Repr (try_to_shrink_list q) xs
  unfolding try_to_shrink_list
  try_to_shrink_list-Repr =
      rw count_eq
        (elim (Bool-cases (ltb max_kept (length q.list) && ltb (length xs) (length q.list / 4))) [
          | inl e ↦ rw e (halve_list-Repr r (ground arith) (ground arith))
          | inr e ↦ rw e r
        ])
