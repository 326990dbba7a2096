-- ===== src/Queue/Bulk.antt =====
-- `toArray` and `dumpToArray` of src/Queue.ts: all elements at once.
use Prim.Native.Nat.{bit_and}
use mathlib.Core.List.{map}
use vjuga.Base.{
  ℕ, zero, suc, ◌+◌, ◌-◌, ◌≤◌, ◌<◌, ◌≡◌, refl, ◌∙◌, ap, ap₂, sym, List, [], ◌∷◌, Option, none, some,
  arith, length, get_elem?, read, leb, ltb, if◌then◌else◌, inl, inr, Bool-cases, leb→le, replicate,
  length-replicate, read-replicate, get_elem?-none,
}
use vjuga.Base.Modular.{wrap}
use vjuga.Queue.{Queue, size, to_array, copy_loop}
use vjuga.Queue.Loops.{read-copy_loop, length-copy_loop}
use vjuga.Queue.Repr.{Repr, size_lem}

module _ {A : Type 0} where
  -- arrays of one length that agree on every read are one
  pub read_ext :
      (xs ys : List (Option A))
      → length xs ≡ length ys
      → ((i : ℕ) → read xs i ≡ read ys i)
      → xs ≡ ys
  read_ext [] [] h e = refl
  read_ext [] (y ∷ ys) h e = absurd (omega arith)
  read_ext (x ∷ xs) [] h e = absurd (omega arith)
  read_ext (x ∷ xs) (y ∷ ys) h e = ap₂ ◌∷◌ (e 0) (read_ext xs ys (omega arith) (λ i. e (suc i)))

  pub length-map-some : (xs : List A) → length (map some xs) ≡ length xs
  length-map-some [] = refl
  length-map-some (x ∷ xs) = ap suc (length-map-some xs)

  pub read-map-some : (xs : List A) (i : ℕ) → read (map some xs) i ≡ get_elem? xs i
  read-map-some [] i = refl
  read-map-some (x ∷ xs) zero = refl
  read-map-some (x ∷ xs) (suc i) = read-map-some xs i

module _ {A : Type 0} {q : Queue A} {xs : List A} (r : Repr q xs) where
  pub count_eq : bit_and (q.tail + length q.list - q.head) q.capacity_mask ≡ length xs
  unfolding size
  count_eq = size_lem r

  pub wrap_tail : q.tail ≡ (
      if ltb (q.head + length xs) (length q.list)
      then q.head + length xs
      else q.head + length xs - length q.list)
  wrap_tail =
      r.tail_at ∙ wrap (length q.list) (q.head + length xs) (omega (arith, r.head_in, r.room))

  abbrev pub blank : List (Option A)
  blank = replicate (length xs) none

  -- an element by its slot
  pub slot :
      (i : ℕ)
      → i < length xs
      → read q.list
          (if ltb (q.head + i) (length q.list) then q.head + i else q.head + i - length q.list)
        ≡ get_elem? xs i
  slot i h =
      ap (read q.list) (sym (wrap (length q.list) (q.head + i) (omega (arith, r.head_in, r.room))))
      ∙ r.window i (omega (arith, r.room))

  blank_size : length blank ≡ length xs
  blank_size = length-replicate (length xs) none

  abbrev front : List (Option A)
  front = copy_loop (length q.list - q.head) q.list q.head blank 0

  abbrev straight : List (Option A)
  straight = copy_loop (q.tail - q.head) q.list q.head blank 0

  abbrev wrapped : List (Option A)
  wrapped = copy_loop q.tail q.list 0 front (length q.list - q.head)

  length-straight : q.head ≤ q.tail → length straight ≡ length xs
  length-straight h =
      length-copy_loop (q.tail - q.head) q.list q.head blank 0
        (ground (arith, wrap_tail, r.room, blank_size))
      ∙ blank_size

  length-front : q.tail < q.head → length front ≡ length xs
  length-front h =
      length-copy_loop (length q.list - q.head) q.list q.head blank 0
        (ground (arith, wrap_tail, r.room, r.head_in, blank_size))
      ∙ blank_size

  length-wrapped : q.tail < q.head → length wrapped ≡ length xs
  length-wrapped h =
      length-copy_loop q.tail q.list 0 front (length q.list - q.head)
        (ground (arith, wrap_tail, r.room, r.head_in, length-front h))
      ∙ length-front h

  read-straight : q.head ≤ q.tail → (i : ℕ) → read straight i ≡ get_elem? xs i
  read-straight h i = ground (
    arith,
    wrap_tail,
    r.room,
    slot i,
    get_elem?-none xs i,
    read-copy_loop (q.tail - q.head) q.list q.head blank 0 i,
    read-replicate {A = A} (length xs) none i,
  )

  read-wrapped : q.tail < q.head → (i : ℕ) → read wrapped i ≡ get_elem? xs i
  read-wrapped h i = ground (
    arith,
    wrap_tail,
    r.room,
    r.head_in,
    slot i,
    get_elem?-none xs i,
    read-copy_loop q.tail q.list 0 front (length q.list - q.head) i,
    read-copy_loop (length q.list - q.head) q.list q.head blank 0 i,
    read-replicate {A = A} (length xs) none i,
  )

  -- `toArray` lists the elements front to back.
  pub to_array_lem : to_array q ≡ map some xs
  unfolding to_array
  to_array_lem = rw count_eq (elim (Bool-cases (leb q.head q.tail)) [
    | inl e ↦ rw e (
        read_ext _ _ (length-straight (leb→le _ _ e) ∙ sym (length-map-some xs))
          (λ i. read-straight (leb→le _ _ e) i ∙ sym (read-map-some xs i)))
    | inr e ↦ rw e (
        read_ext _ _ (length-wrapped (ground arith) ∙ sym (length-map-some xs))
          (λ i. read-wrapped (ground arith) i ∙ sym (read-map-some xs i)))
  ])
