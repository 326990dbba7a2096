-- ===== src/Queue/Tests.antt =====
-- Runs of the model of src/Queue.ts, and its theorems at concrete inputs.
use vjuga.Base.{
  ℕ, ◌*◌, zero, suc, get_elem?, ◌+◌, ◌-◌, ◌^◌, ◌%◌, ◌≤◌, ◌<◌, ◌≡◌, refl, List, [], ◌∷◌, Option,
  none, some, arith, length, replicate, length-replicate, read-replicate, max, read,
}
use vjuga.Base.Bits.{pow_pos}
use vjuga.Base.Modular.{wrap}
use vjuga.Queue
use vjuga.Queue.{
  Queue, fresh, make, push_all, grow_list, try_to_shrink_list, max_kept, kept_capacity,
}
use vjuga.Queue.Repr.{Repr, Full}
use vjuga.Queue.Grow.{grow_list-Repr}
use vjuga.Queue.Shrink.{try_to_shrink_list-Repr}
use vjuga.Queue.Access.{make-Repr, fresh-Repr, swap-Repr}
use vjuga.Queue.Dump.{dump_to_array-Repr, dump_to_array-capacity}
use vjuga.Queue.Deque.{
  Op, push, pop, shift, unshift, peek_front, size, to_array, dump_to_array, run, list_run,
  run_refines, step, done, value, number, values,
}

-- five elements do not fit in the first buffer
abbrev calls : List (Op ℕ)
calls =
    push 1
    ∷ push 2
    ∷ unshift 0
    ∷ push 3
    ∷ push 4
    ∷ shift
    ∷ pop
    ∷ peek_front
    ∷ size
    ∷ to_array
    ∷ dump_to_array
    ∷ pop
    ∷ []

run-calls :
    run fresh calls
    ≡ done
      ∷ done
      ∷ done
      ∷ done
      ∷ done
      ∷ value (some 0)
      ∷ value (some 4)
      ∷ value (some 1)
      ∷ number 3
      ∷ values (some 1 ∷ some 2 ∷ some 3 ∷ [])
      ∷ values (some 1 ∷ some 2 ∷ some 3 ∷ [])
      ∷ value none
      ∷ []
unfolding run step Queue.push Queue.pop Queue.shift Queue.unshift Queue.peek_front Queue.size
    Queue.to_array Queue.dump_to_array Queue.grow_list Queue.copy_loop Queue.move_loop
run-calls = refl

run_refines_example : run fresh calls ≡ list_run [] calls
run_refines_example = run_refines calls fresh-Repr (omega arith)

-- a full buffer, going round its end
abbrev full : Queue ℕ
full = record {
  capacity_mask = 3;
  head = 2;
  tail = 2;
  list = some 7 ∷ some 8 ∷ some 5 ∷ some 6 ∷ [];
  last_dump = 0;
  prev_dump = 0;
}

full-Full : Full full (5 ∷ 6 ∷ 7 ∷ 8 ∷ [])
full-Full = record {
  bits = 2;
  bits_lower = omega arith;
  bits_upper = omega arith;
  capacity = refl;
  mask = refl;
  head_in = omega arith;
  whole = refl;
  tail_at = refl;
  window = shown;
}
  where
    shown :
        (i : ℕ) → i < 4 → read full.list ((2 + i) % 4) ≡ get_elem? {A = ℕ} (5 ∷ 6 ∷ 7 ∷ 8 ∷ []) i
    shown zero h = refl
    shown (suc zero) h = refl
    shown (suc (suc zero)) h = refl
    shown (suc (suc (suc zero))) h = refl
    shown (suc (suc (suc (suc i)))) h = absurd (omega arith)

grow_list-Repr_example : Repr (grow_list full) (5 ∷ 6 ∷ 7 ∷ 8 ∷ [])
grow_list-Repr_example = grow_list-Repr full-Full

-- an empty queue whose buffer has 2 ^ bits slots
sparse : ℕ → Queue ℕ
sparse bits = record {
  capacity_mask = 2 ^ bits - 1;
  head = 0;
  tail = 0;
  list = replicate (2 ^ bits) none;
  last_dump = 5;
  prev_dump = 900;
}

sparse-Repr : (bits : ℕ) → 2 ≤ bits → bits ≤ 30 → Repr (sparse bits) []
unfolding sparse
sparse-Repr bits h k = record {
  bits = bits;
  bits_lower = h;
  bits_upper = k;
  capacity = length-replicate (2 ^ bits) none;
  mask = refl;
  head_in = omega (arith, length-replicate {A = Option ℕ} (2 ^ bits) none, pow_pos bits);
  room = omega (arith, length-replicate {A = Option ℕ} (2 ^ bits) none, pow_pos bits);
  tail_at = ground (
    arith,
    wrap (length (replicate {A = Option ℕ} (2 ^ bits) none)) (0 + 0)
        (omega (arith, length-replicate {A = Option ℕ} (2 ^ bits) none, pow_pos bits)),
    length-replicate {A = Option ℕ} (2 ^ bits) none,
    pow_pos bits,
  );
  window = λ i hi. ground (
    arith,
    read-replicate {A = ℕ} (2 ^ bits) none
        ((0 + i) % length (replicate {A = Option ℕ} (2 ^ bits) none)),
  );
}

try_to_shrink_list-Repr_example : Repr (try_to_shrink_list (sparse 14)) []
try_to_shrink_list-Repr_example =
    try_to_shrink_list-Repr (sparse-Repr 14 (omega arith) (omega arith))

abbrev two : List ℕ
two = 4 ∷ 5 ∷ []

dump_to_array-Repr_example :
    ((Queue.dump_to_array (make two)).0 ≡ some 4 ∷ some 5 ∷ [])
    × Repr (Queue.dump_to_array (make two)).1 []
    × ((Queue.dump_to_array (make two)).1.last_dump ≡ 2)
    × ((Queue.dump_to_array (make two)).1.prev_dump ≡ (make two).last_dump)
dump_to_array-Repr_example = dump_to_array-Repr (make-Repr two (omega arith))

dump_to_array-capacity_example :
    (max (sparse 14).last_dump (sparse 14).prev_dump < length (sparse 14).list
      → max (sparse 14).last_dump (sparse 14).prev_dump
        < length (Queue.dump_to_array (sparse 14)).1.list)
    × (length (Queue.dump_to_array (sparse 14)).1.list
        ≤ max max_kept (2 * max (sparse 14).last_dump (sparse 14).prev_dump))
dump_to_array-capacity_example = dump_to_array-capacity (sparse-Repr 14 (omega arith) (omega arith))

abbrev three : List ℕ
three = 4 ∷ 5 ∷ 6 ∷ []

swap-Repr_example : Repr (Queue.swap (make three) 0 2) (6 ∷ 5 ∷ 4 ∷ [])
swap-Repr_example = swap-Repr (make-Repr three (omega arith)) 0 2 4 6 refl refl
