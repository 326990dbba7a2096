-- ===== src/OrderedMap/Tests.antt =====
-- Runs of src/OrderedMap.ts with numbers as keys, and its theorems there.
use Prim.Native.Nat.{compare, lt, eq}
use vjuga.Base.{ℕ, ◌≡◌, refl, Bool, true, some, List, [], ◌∷◌, ◌+◌, ◌*◌, ◌^◌, ◌≤◌, arith}
use vjuga.OrderedMap.{
  OrderedMap, make, set, slots_from, alloc_from, alloc_node, update_height, rotate_right,
  rotate_left, turn_left_child, turn_right_child, rebalance_by, rebalance, new_node, join_left,
  join_right, insert_node, free_node,
}
use vjuga.OrderedMap.Delete.{
  join_min, delete_min, after_left, after_right, replace_node, remove_node, delete_node, del,
}
use vjuga.OrderedMap.Read.{
  floor, floor_loop, ceiling, ceiling_loop, min, min_from, min_loop, max, max_from, max_loop,
}
use vjuga.OrderedMap.Walk.{push_left, pop_loop, traverse, entries, push_from, pop_range, range}
use vjuga.OrderedMap.Sorted.{IsOrder, flip}
use vjuga.OrderedMap.Calls.{
  Call, set_call, get_call, has_call, del_call, size_call, run, list_run, calls_sorted, floor_call,
  ceiling_call, min_call, max_call, entries_call, range_call, reached, list_reached, Repr,
  make_reached-Repr,
}
use vjuga.OrderedMap.Height.{depth, reached-depth}

compare-below : (a b c : ℕ) → compare a b ≡ lt → compare b c ≡ lt → compare a c ≡ lt
compare-below a b c e f = ground arith

compare-alike : (a b c : ℕ) → compare a b ≡ eq → compare a c ≡ compare b c
compare-alike a b c e = ground arith

compare-flipped : (a b : ℕ) → compare b a ≡ flip (compare a b)
compare-flipped a b = ground arith

compare-IsOrder : IsOrder compare
compare-IsOrder = record { flipped = compare-flipped; below = compare-below; alike = compare-alike }

abbrev new : OrderedMap ℕ ℕ
new = make 0 0

abbrev of_keys : List ℕ → OrderedMap ℕ ℕ
of_keys [] = new
of_keys (k ∷ keys) = set compare (of_keys keys) k k

-- the root of 1, 2, 3, 4, 5 set in this order is 2
abbrev five : OrderedMap ℕ ℕ
five = of_keys (5 ∷ 4 ∷ 3 ∷ 2 ∷ 1 ∷ [])

five_entries : entries five ≡ (1, 1) ∷ (2, 2) ∷ (3, 3) ∷ (4, 4) ∷ (5, 5) ∷ []
unfolding entries traverse pop_loop push_left make set slots_from alloc_from alloc_node
    update_height rotate_right rotate_left turn_left_child turn_right_child rebalance_by rebalance
    new_node join_left join_right insert_node
five_entries = refl

five_root : (five.root ≡ some 14) × (five.height 14 ≡ 3)
unfolding make set slots_from alloc_from alloc_node update_height rotate_right rotate_left
    turn_left_child turn_right_child rebalance_by rebalance new_node join_left join_right
    insert_node
five_root = (refl, refl)

five-range : range compare five 2 4 ≡ (2, 2) ∷ (3, 3) ∷ (4, 4) ∷ []
unfolding range pop_range push_from push_left make set slots_from alloc_from alloc_node
    update_height rotate_right rotate_left turn_left_child turn_right_child rebalance_by rebalance
    new_node join_left join_right insert_node
five-range = refl

-- the node of 2 has two children when it is deleted
abbrev four : Bool × OrderedMap ℕ ℕ
four = del 0 0 compare five 2

four_entries : (four.0 ≡ true) × (entries four.1 ≡ (1, 1) ∷ (3, 3) ∷ (4, 4) ∷ (5, 5) ∷ [])
unfolding entries traverse pop_loop push_left make set slots_from alloc_from alloc_node
    update_height rotate_right rotate_left turn_left_child turn_right_child rebalance_by rebalance
    new_node join_left join_right insert_node del delete_node delete_min remove_node replace_node
    after_left after_right join_min free_node
four_entries = (refl, refl)

four_neighbours :
    (floor compare four.1 2 ≡ some (1, 1))
    × (ceiling compare four.1 2 ≡ some (3, 3))
    × (min four.1 ≡ some (1, 1))
    × (max four.1 ≡ some (5, 5))
unfolding floor floor_loop ceiling ceiling_loop min min_from min_loop max max_from max_loop make set
    slots_from alloc_from alloc_node update_height rotate_right rotate_left turn_left_child
    turn_right_child rebalance_by rebalance new_node join_left join_right insert_node del
    delete_node delete_min remove_node replace_node after_left after_right join_min free_node
four_neighbours = (refl, refl, refl, refl)

abbrev calls : List (Call ℕ ℕ)
calls =
    set_call 3 30
    ∷ set_call 2 20
    ∷ set_call 1 10
    ∷ get_call 2
    ∷ del_call 2
    ∷ has_call 2
    ∷ get_call 3
    ∷ del_call 7
    ∷ size_call
    ∷ floor_call 2
    ∷ ceiling_call 2
    ∷ min_call
    ∷ max_call
    ∷ entries_call
    ∷ range_call 2 9
    ∷ []

calls_sorted_example : run compare 0 0 new calls ≡ list_run compare 0 0 [] calls
calls_sorted_example = calls_sorted compare 0 0 calls compare-IsOrder

make_reached-Repr_example :
    Repr compare 0 0 (reached compare 0 0 new calls) (list_reached compare 0 0 [] calls)
make_reached-Repr_example = make_reached-Repr compare 0 0 calls compare-IsOrder

reached-depth_example :
    (let m = reached compare 0 0 new calls in 2 ^ depth m 5 m.root ≤ (m.size + 1) * (m.size + 1))
reached-depth_example = reached-depth compare 0 0 calls 5 compare-IsOrder
