-- ===== src/Queue/Dump.antt =====
-- `dumpToArray` of src/Queue.ts: the elements, the cleared buffer and its new capacity.
use mathlib.Core.List.{map}
use vjuga.Base.{
  ℕ, ◌+◌, ◌-◌, ◌*◌, ◌/◌, ◌%◌, ◌^◌, ◌≤◌, ◌<◌, ◌≡◌, refl, ◌∙◌, ap, sym, List, [], Option, none, some,
  arith, length, get_elem?, read, leb, ltb, ◌&&◌, if◌then◌else◌, Bool, true, inl, inr, Bool-cases,
  leb→le, replicate, length-replicate, read-replicate, read-past, get_elem?-none, set_length,
  read-set_length, length-set_length, max,
}
use vjuga.Base.Modular.{wrap}
use vjuga.Base.Bits.{
  bit_length, bit_length-upper, bit_length-lower, bit_length-le, clz32_lem, pow_mono, pow_pos,
  pow_halved,
}
use vjuga.Queue.{Queue, size, move_loop, dump_to_array, kept_capacity, max_kept}
use vjuga.Queue.Loops.{move_loop-result, move_loop-cleared, move_loop-lengths}
use vjuga.Queue.Repr.{Repr}
use vjuga.Queue.Bulk.{read_ext, length-map-some, read-map-some, count_eq, wrap_tail, slot}

module _ {A : Type 0} {q : Queue A} {xs : List A} (r : Repr q xs) where
  abbrev blank : List (Option A)
  blank = replicate (length xs) none

  blank_size : length blank ≡ length xs
  blank_size = length-replicate (length xs) none

  -- the logical index of a slot
  abbrev logical : ℕ → ℕ
  logical p = if leb q.head p then p - q.head else p + length q.list - q.head

  slot_of : (p : ℕ) → p < length q.list → read q.list p ≡ get_elem? xs (logical p)
  slot_of p h = ground (arith, at (logical p), r.head_in, wrap (length q.list) (q.head + logical p))
    where
      at : (i : ℕ) → i < length q.list → read q.list ((q.head + i) % length q.list) ≡ get_elem? xs i
      at i hi = r.window i hi

  abbrev straight : List (Option A) × List (Option A)
  straight = move_loop (q.tail - q.head) q.list q.head blank 0

  abbrev front : List (Option A) × List (Option A)
  front = move_loop (length q.list - q.head) q.list q.head blank 0

  abbrev wrapped : List (Option A) × List (Option A)
  wrapped = move_loop q.tail front.0 0 front.1 (length q.list - q.head)

  -- what the loops leave: the buffer cleared, and the elements in order
  record Moved (m : List (Option A) × List (Option A)) : Type 0 where
    size : length m.0 ≡ length q.list
    cleared : (p : ℕ) → read m.0 p ≡ none
    listed : m.1 ≡ map some xs

  straight-Moved : q.head ≤ q.tail → Moved straight
  straight-Moved h = record {
    size = sizes.0;
    cleared = λ p. ground (
      arith,
      wrap_tail r,
      r.room,
      r.head_in,
      move_loop-cleared (q.tail - q.head) q.list q.head blank 0 p,
      slot_of p,
      get_elem?-none xs (logical p),
      read-past q.list p,
    );
    listed = read_ext _ _ (sizes.1 ∙ (blank_size ∙ sym (length-map-some xs))) (λ i. ground (
      arith,
      wrap_tail r,
      r.room,
      slot r i,
      get_elem?-none xs i,
      read-map-some xs i,
      move_loop-result (q.tail - q.head) q.list q.head blank 0 i,
      read-replicate {A = A} (length xs) none i,
    ));
  }
    where
      sizes : (length straight.0 ≡ length q.list) × (length straight.1 ≡ length blank)
      sizes =
          move_loop-lengths (q.tail - q.head) q.list q.head blank 0
            (ground (arith, wrap_tail r, r.room, r.head_in))
            (ground (arith, wrap_tail r, r.room, r.head_in, blank_size))

  wrapped-Moved : q.tail < q.head → Moved wrapped
  wrapped-Moved h = record {
    size = second.0 ∙ first.0;
    cleared = λ p. ground (
      arith,
      wrap_tail r,
      r.room,
      r.head_in,
      move_loop-cleared q.tail front.0 0 front.1 (length q.list - q.head) p,
      move_loop-cleared (length q.list - q.head) q.list q.head blank 0 p,
      slot_of p,
      get_elem?-none xs (logical p),
      read-past q.list p,
    );
    listed = read_ext _ _ (second.1 ∙ (first.1 ∙ (blank_size ∙ sym (length-map-some xs)))) (λ i.
        ground (
          arith,
          wrap_tail r,
          r.room,
          r.head_in,
          slot r i,
          get_elem?-none xs i,
          read-map-some xs i,
          move_loop-result q.tail front.0 0 front.1 (length q.list - q.head) i,
          move_loop-cleared (length q.list - q.head) q.list q.head blank 0
              (0 + (i - (length q.list - q.head))),
          move_loop-result (length q.list - q.head) q.list q.head blank 0 i,
          read-replicate {A = A} (length xs) none i,
        ));
  }
    where
      first : (length front.0 ≡ length q.list) × (length front.1 ≡ length blank)
      first =
          move_loop-lengths (length q.list - q.head) q.list q.head blank 0
            (omega (arith, r.head_in)) (ground (arith, wrap_tail r, r.room, r.head_in, blank_size))

      second : (length wrapped.0 ≡ length front.0) × (length wrapped.1 ≡ length front.1)
      second =
          move_loop-lengths q.tail front.0 0 front.1 (length q.list - q.head)
            (omega (arith, r.head_in, first.0))
            (ground (arith, wrap_tail r, r.room, r.head_in, blank_size, first.1))

  abbrev moved : List (Option A) × List (Option A)
  moved = if leb q.head q.tail then straight else wrapped

  moved-Moved : Moved moved
  moved-Moved = elim (Bool-cases (leb q.head q.tail)) [
    | inl e ↦ rw e (straight-Moved (leb→le _ _ e))
    | inr e ↦ rw e (wrapped-Moved (ground arith))
  ]

-- the exponent of the capacity that a dump keeps
kept_bits : ℕ → ℕ
kept_bits keep = if ltb keep 4 then 2 else bit_length 32 keep

module _ (keep : ℕ) (small : keep < 2 ^ 29) where
  kept_capacity_lem : kept_capacity keep ≡ 2 ^ kept_bits keep
  unfolding kept_capacity kept_bits
  kept_capacity_lem = elim (Bool-cases (ltb keep 4)) [
    | inl e ↦ rw e
    | inr e ↦ rw e (ap (λ t. 2 ^ t) (clz32_lem keep (omega arith)))
  ]

  kept_bits-upper : kept_bits keep ≤ 30
  unfolding kept_bits
  kept_bits-upper = ground (arith, bit_length-le 32 29 keep small)

  kept_bits-lower : 2 ≤ kept_bits keep
  unfolding kept_bits
  kept_bits-lower = ground (arith, bit_length-upper 32 keep (omega arith), lemma)
    where
      lemma : bit_length 32 keep ≤ 1 → 2 ^ bit_length 32 keep ≤ 2
      lemma h = pow_mono (bit_length 32 keep) 1 h

  -- The capacity that `dumpToArray` keeps has room for a dump of `keep` elements, and is at most
  -- twice that, or 4.
  pub kept_capacity_bounds : (keep < kept_capacity keep) × (kept_capacity keep ≤ max 4 (2 * keep))
  unfolding kept_capacity
  kept_capacity_bounds = elim (Bool-cases (ltb keep 4)) [
    | inl e ↦ rw e (ground arith)
    | inr e ↦
        rw (e, clz32_lem keep (omega arith))
          (omega (
            arith,
            bit_length-upper 32 keep (omega arith),
            bit_length-lower 32 keep (ground arith),
          ))
  ]

module _ {A : Type 0} {q : Queue A} {xs : List A} (r : Repr q xs) where
  -- a cleared buffer, from its first slot
  empty-Repr :
      (list : List (Option A)) (mask bits last prev : ℕ)
      → 2 ≤ bits
      → bits ≤ 30
      → length list ≡ 2 ^ bits
      → mask ≡ 2 ^ bits - 1
      → ((p : ℕ) → read list p ≡ none)
      → Repr
          (record q {
            capacity_mask = mask;
            head = 0;
            tail = 0;
            list = list;
            last_dump = last;
            prev_dump = prev;
          })
          []
  empty-Repr list mask bits last prev lower upper size m blank = record {
    bits = bits;
    bits_lower = lower;
    bits_upper = upper;
    capacity = size;
    mask = m;
    head_in = omega (arith, size, pow_pos bits);
    room = omega (arith, size, pow_pos bits);
    tail_at = ground (arith, size, pow_pos bits, wrap (length list) (0 + 0));
    window = λ i hi. blank ((0 + i) % length list);
  }

  keep : ℕ
  keep = if ltb q.prev_dump q.last_dump then q.last_dump else q.prev_dump

  abbrev large : Bool
  large = ltb max_kept (length q.list) && ltb keep (length q.list / 2)

  keep_small : large ≡ true → keep < 2 ^ 29
  keep_small e = ground (arith, pow_mono r.bits 30 r.bits_upper, r.capacity)

  -- `dumpToArray` returns the elements front to back and leaves the queue empty; the sizes of
  -- the two last dumps are remembered.
  pub dump_to_array-Repr :
      ((dump_to_array q).0 ≡ map some xs)
      × Repr (dump_to_array q).1 []
      × ((dump_to_array q).1.last_dump ≡ length xs)
      × ((dump_to_array q).1.prev_dump ≡ q.last_dump)
  unfolding dump_to_array keep
  dump_to_array-Repr = rw (count_eq r) (elim (Bool-cases large) [
    | inl e ↦ rw e (m.listed, truncated (unfold keep in keep_small e), recorded, refl)
    | inr e ↦ rw e (m.listed, emptied, recorded, refl)
  ])
    where
      m : Moved r (moved r)
      m = moved-Moved r

      recorded : length (moved r).1 ≡ length xs
      recorded = ap length m.listed ∙ length-map-some xs

      emptied :
          Repr
            (record q {
              head = 0;
              tail = 0;
              list = (moved r).0;
              last_dump = length (moved r).1;
              prev_dump = q.last_dump;
            })
            []
      emptied =
          empty-Repr (moved r).0 q.capacity_mask r.bits (length (moved r).1) q.last_dump
            r.bits_lower r.bits_upper (m.size ∙ r.capacity) r.mask m.cleared

      truncated :
          keep < 2 ^ 29
          → Repr
              (record q {
                capacity_mask = kept_capacity keep - 1;
                head = 0;
                tail = 0;
                list = set_length (moved r).0 (kept_capacity keep);
                last_dump = length (moved r).1;
                prev_dump = q.last_dump;
              })
              []
      truncated h =
          empty-Repr (set_length (moved r).0 (kept_capacity keep)) (kept_capacity keep - 1)
            (kept_bits keep) (length (moved r).1) q.last_dump (kept_bits-lower keep h)
            (kept_bits-upper keep h)
            (length-set_length (moved r).0 (kept_capacity keep) ∙ kept_capacity_lem keep h)
            (ap (λ t. t - 1) (kept_capacity_lem keep h))
            (λ p. ground (arith, read-set_length (moved r).0 (kept_capacity keep) p, m.cleared p))

  -- After a dump the buffer still has room for the larger of the two previous dumps, if it had,
  -- and beyond 10,000 slots it holds at most twice that many.
  pub dump_to_array-capacity :
      (max q.last_dump q.prev_dump < length q.list
        → max q.last_dump q.prev_dump < length (dump_to_array q).1.list)
      × (length (dump_to_array q).1.list ≤ max max_kept (2 * max q.last_dump q.prev_dump))
  unfolding dump_to_array keep
  dump_to_array-capacity = rw (count_eq r) (elim (Bool-cases large) [
    | inl e ↦
        rw (e, length-set_length, keep_eq)
          (λ h. (bounds e).0, omega (arith, (bounds e).1, large_keep e))
    | inr e ↦ rw e (
      λ h. omega (arith, h, m.size),
      ground (arith, m.size, r.capacity, pow_halved r.bits (omega (arith, r.bits_lower))),
    )
  ])
    where
      m : Moved r (moved r)
      m = moved-Moved r

      keep_eq :
          (if ltb q.prev_dump q.last_dump then q.last_dump else q.prev_dump)
          ≡ max q.last_dump q.prev_dump
      keep_eq = ground arith

      bounds :
          large ≡ true
          → (max q.last_dump q.prev_dump < kept_capacity (max q.last_dump q.prev_dump))
            × (kept_capacity (max q.last_dump q.prev_dump)
                ≤ max 4 (2 * max q.last_dump q.prev_dump))
      bounds e = kept_capacity_bounds (max q.last_dump q.prev_dump) (rw keep_eq at (keep_small e))

      large_keep : large ≡ true → 4 ≤ max_kept
      large_keep e = omega arith
