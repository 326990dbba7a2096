-- ===== src/OrderedMap/Calls.antt =====
-- Sequences of calls of src/OrderedMap.ts, on the map and on a sorted list of keys and values.
use Prim.Native.Nat.{Ordering}
use mathlib.Core.List.{map}
use vjuga.Base.{
  ℕ, ◌+◌, ◌≡◌, refl, Bool, Option, none, List, [], ◌∷◌, ap, ap₂, sym, ◌∙◌, subst, length, inl, inr,
  Bool-cases,
}
use vjuga.OrderedMap.{OrderedMap, make, set}
use vjuga.OrderedMap.Tree.{Tree, leaf, flat}
use vjuga.OrderedMap.Insert.{next_slot}
use vjuga.OrderedMap.TreeInsert.{insert_tree, has_key}
use vjuga.OrderedMap.TreeDelete.{delete_tree}
use vjuga.OrderedMap.Delete.{del}
use vjuga.OrderedMap.Erase.{erase, erase-absent, erase-Sorted, delete_tree-erase, has_key-lookup}
use vjuga.OrderedMap.ValidDelete.{del-IsValid, del-absent}
use vjuga.OrderedMap.Sorted.{IsOrder, Sorted, insert, insert-Sorted, lookup}
use vjuga.OrderedMap.Content.{content, insert_tree-insert}
use vjuga.OrderedMap.Valid.{IsValid, make-IsValid, set-IsValid, enough}
use vjuga.OrderedMap.Read.{get, has, min, max, floor, ceiling}
use vjuga.OrderedMap.Nearest.{last_upto, first_from, floor_loop-upto, ceiling_loop-from}
use vjuga.OrderedMap.Walk.{keys, values, entries, range}
use vjuga.OrderedMap.RangeRead.{from_lo, up_to, range-content}
use vjuga.OrderedMap.Traverse.{keys-content, values-content, entries-content}
use vjuga.OrderedMap.Ends.{first, last, min-first, max-last}
use vjuga.OrderedMap.Lookup.{is_some, get_loop-lookup, has-get}

pub data Call (K V : Type 0) : Type 0 where
  set_call : K → V → Call K V
  get_call : K → Call K V
  has_call : K → Call K V
  del_call : K → Call K V
  size_call : Call K V
  min_call : Call K V
  entries_call : Call K V
  keys_call : Call K V
  values_call : Call K V
  range_call : K → K → Call K V
  max_call : Call K V
  floor_call : K → Call K V
  ceiling_call : K → Call K V

pub data Answer (K V : Type 0) : Type 0 where
  done : Answer K V
  value : Option V → Answer K V
  yes_no : Bool → Answer K V
  number : ℕ → Answer K V
  entry : Option (K × V) → Answer K V
  listed : List (K × V) → Answer K V
  listed_keys : List K → Answer K V
  listed_values : List V → Answer K V

module _ {K V : Type 0} (cmp : K → K → Ordering) (no_key : K) (no_val : V) where
  unfoldable pub call : OrderedMap K V → Call K V → Answer K V × OrderedMap K V
  call m (set_call k v) = (done, set cmp m k v)
  call m (get_call k) = (value (get cmp m k), m)
  call m (has_call k) = (yes_no (has cmp m k), m)
  call m (del_call k) = (yes_no (del no_key no_val cmp m k).0, (del no_key no_val cmp m k).1)
  call m size_call = (number m.size, m)
  call m entries_call = (listed (entries m), m)
  call m keys_call = (listed_keys (keys m), m)
  call m values_call = (listed_values (values m), m)
  call m (range_call lo hi) = (listed (range cmp m lo hi), m)
  call m min_call = (entry (min m), m)
  call m max_call = (entry (max m), m)
  call m (floor_call k) = (entry (floor cmp m k), m)
  call m (ceiling_call k) = (entry (ceiling cmp m k), m)

  unfoldable pub run : OrderedMap K V → List (Call K V) → List (Answer K V)
  run m [] = []
  run m (c ∷ calls) = (call m c).0 ∷ run (call m c).1 calls

  -- the same calls on a sorted list
  unfoldable pub list_call : List (K × V) → Call K V → Answer K V × List (K × V)
  list_call l (set_call k v) = (done, insert cmp k v l)
  list_call l (get_call k) = (value (lookup cmp k l), l)
  list_call l (has_call k) = (yes_no (is_some (lookup cmp k l)), l)
  list_call l (del_call k) = (yes_no (is_some (lookup cmp k l)), erase cmp k l)
  list_call l size_call = (number (length l), l)
  list_call l entries_call = (listed l, l)
  list_call l keys_call = (listed_keys (map (λ e. e.0) l), l)
  list_call l values_call = (listed_values (map (λ e. e.1) l), l)
  list_call l (range_call lo hi) = (listed (up_to cmp hi (from_lo cmp lo l)), l)
  list_call l min_call = (entry (first l), l)
  list_call l max_call = (entry (last l), l)
  list_call l (floor_call k) = (entry (last_upto cmp k l none), l)
  list_call l (ceiling_call k) = (entry (first_from cmp k l none), l)

  unfoldable pub list_run : List (K × V) → List (Call K V) → List (Answer K V)
  list_run l [] = []
  list_run l (c ∷ calls) = (list_call l c).0 ∷ list_run (list_call l c).1 calls

  -- the map stands for the entries of its tree, which are sorted
  abbrev pub Repr : OrderedMap K V → List (K × V) → Type 0
  Repr m l = (t : Tree K V) × IsValid m t × (content t ≡ l) × Sorted cmp l

  make-Repr : Repr (make no_key no_val) []
  unfolding content flat
  make-Repr = (leaf, make-IsValid no_key no_val, refl, tt)

  get-lookup :
      (m : OrderedMap K V) (l : List (K × V)) (key : K)
      → IsOrder cmp
      → Repr m l
      → get cmp m key ≡ lookup cmp key l
  unfolding get
  get-lookup m l key o r =
      get_loop-lookup cmp o (m.size + 1) m key r.0 m.root r.1.avl (enough m r.0 r.1)
        (subst (Sorted cmp) (sym r.2) r.3) r.1.holds
      ∙ ap (lookup cmp key) r.2

  floor-upto :
      (m : OrderedMap K V) (l : List (K × V)) (key : K)
      → IsOrder cmp
      → Repr m l
      → floor cmp m key ≡ last_upto cmp key l none
  unfolding floor
  floor-upto m l key o r =
      floor_loop-upto cmp o (m.size + 1) m key r.0 m.root none r.1.avl (enough m r.0 r.1)
        (subst (Sorted cmp) (sym r.2) r.3) r.1.holds
      ∙ ap (λ c. last_upto cmp key c none) r.2

  ceiling-from :
      (m : OrderedMap K V) (l : List (K × V)) (key : K)
      → IsOrder cmp
      → Repr m l
      → ceiling cmp m key ≡ first_from cmp key l none
  unfolding ceiling
  ceiling-from m l key o r =
      ceiling_loop-from cmp o (m.size + 1) m key r.0 m.root none r.1.avl (enough m r.0 r.1)
        (subst (Sorted cmp) (sym r.2) r.3) r.1.holds
      ∙ ap (λ c. first_from cmp key c none) r.2

  set-Repr :
      (m : OrderedMap K V) (l : List (K × V)) (key : K) (val : V)
      → IsOrder cmp
      → Repr m l
      → Repr (set cmp m key val) (insert cmp key val l)
  set-Repr m l key val o r = (
    insert_tree cmp (next_slot m) key val r.0,
    set-IsValid cmp key val m r.0 r.1,
    insert_tree-insert cmp o (next_slot m) key val r.0 (subst (Sorted cmp) (sym r.2) r.3)
        ∙ ap (insert cmp key val) r.2,
    insert-Sorted cmp o key val l r.3,
  )

  del-Repr :
      (m : OrderedMap K V) (l : List (K × V)) (key : K)
      → IsOrder cmp
      → Repr m l
      → ((del no_key no_val cmp m key).0 ≡ is_some (lookup cmp key l))
        × Repr (del no_key no_val cmp m key).1 (erase cmp key l)
  del-Repr m l key o r = elim (Bool-cases (has_key cmp key r.0)) [
    | inl p ↦
        let d = del-IsValid no_key no_val cmp m key r.0 p r.1 in
        (
          d.0 ∙ sym p ∙ found,
          (
            delete_tree cmp key r.0,
            d.1,
            delete_tree-erase cmp o key r.0 sorted ∙ ap (erase cmp key) r.2,
            erase-Sorted cmp key l r.3,
          ),
        )
    | inr p ↦
        let d = del-absent no_key no_val cmp m key r.0 p r.1 in
        (
          ap (λ out. out.0) d ∙ sym p ∙ found,
          subst (λ out. Repr out.1 (erase cmp key l)) (sym d)
              (subst (Repr m) (sym (erase-absent cmp key l (sym found ∙ p))) r),
        )
  ]
    where
      sorted : Sorted cmp (content r.0)
      sorted = subst (Sorted cmp) (sym r.2) r.3

      found : has_key cmp key r.0 ≡ is_some (lookup cmp key l)
      found = has_key-lookup cmp o key r.0 sorted ∙ ap (λ c. is_some (lookup cmp key c)) r.2

  call-Repr :
      (m : OrderedMap K V) (l : List (K × V)) (c : Call K V)
      → IsOrder cmp
      → Repr m l
      → ((call m c).0 ≡ (list_call l c).0) × Repr (call m c).1 (list_call l c).1
  unfolding call list_call
  call-Repr m l (set_call k v) o r = (refl, set-Repr m l k v o r)
  call-Repr m l (get_call k) o r = (ap value (get-lookup m l k o r), r)
  call-Repr m l (has_call k) o r =
      (ap yes_no (has-get cmp m k ∙ ap is_some (get-lookup m l k o r)), r)
  call-Repr m l (del_call k) o r = let d = del-Repr m l k o r in (ap yes_no d.0, d.1)
  call-Repr m l entries_call o r = (ap listed (entries-content m r.0 r.1 ∙ r.2), r)
  call-Repr m l keys_call o r =
      (ap listed_keys (keys-content m r.0 r.1 ∙ ap (map (λ e. e.0)) r.2), r)
  call-Repr m l values_call o r =
      (ap listed_values (values-content m r.0 r.1 ∙ ap (map (λ e. e.1)) r.2), r)
  call-Repr m l (range_call lo hi) o r = (
    ap listed (
        range-content cmp m lo hi r.0 o (subst (Sorted cmp) (sym r.2) r.3) r.1
        ∙ ap (λ c. up_to cmp hi (from_lo cmp lo c)) r.2),
    r,
  )
  call-Repr m l min_call o r = (ap entry (min-first m r.0 r.1 ∙ ap first r.2), r)
  call-Repr m l max_call o r = (ap entry (max-last m r.0 r.1 ∙ ap last r.2), r)
  call-Repr m l (floor_call k) o r = (ap entry (floor-upto m l k o r), r)
  call-Repr m l (ceiling_call k) o r = (ap entry (ceiling-from m l k o r), r)
  call-Repr m l size_call o r = (ap number (r.1.counted ∙ ap length r.2), r)

  run-list_run :
      (m : OrderedMap K V) (l : List (K × V)) (calls : List (Call K V))
      → IsOrder cmp
      → Repr m l
      → run m calls ≡ list_run l calls
  unfolding run list_run
  run-list_run m l [] o r = refl
  run-list_run m l (c ∷ calls) o r =
      let s = call-Repr m l c o r in
      ap₂ (λ a answers. a ∷ answers) s.0 (run-list_run (call m c).1 (list_call l c).1 calls o s.1)

  -- the map after the calls, and the list
  unfoldable pub reached : OrderedMap K V → List (Call K V) → OrderedMap K V
  reached m [] = m
  reached m (c ∷ calls) = reached (call m c).1 calls

  unfoldable pub list_reached : List (K × V) → List (Call K V) → List (K × V)
  list_reached l [] = l
  list_reached l (c ∷ calls) = list_reached (list_call l c).1 calls

  reached-Repr :
      (m : OrderedMap K V) (l : List (K × V)) (calls : List (Call K V))
      → IsOrder cmp
      → Repr m l
      → Repr (reached m calls) (list_reached l calls)
  unfolding reached list_reached
  reached-Repr m l [] o r = r
  reached-Repr m l (c ∷ calls) o r =
      reached-Repr (call m c).1 (list_call l c).1 calls o (call-Repr m l c o r).1

  -- After any calls on a new map, when the comparator is a total order, its arrays hold an AVL tree
  -- whose entries are those of the list after the calls, sorted by key; the size counts them; and the
  -- slots of the tree and of the free list are apart and within the arrays.
  pub make_reached-Repr :
      (calls : List (Call K V))
      → IsOrder cmp
      → Repr (reached (make no_key no_val) calls) (list_reached [] calls)
  make_reached-Repr calls o = reached-Repr (make no_key no_val) [] calls o make-Repr

  -- When the comparator is a total order, any calls on a new map answer as they do on a list that
  -- starts empty: `set` puts a key in its place in the order or replaces its value, `del` takes it out,
  -- `get` and `has` look it up, `size` is its length, `entries`, `keys` and `values` are the list and its
  -- parts, `range` the part between two keys, `min` and `max` its ends, `floor` and `ceiling` the last
  -- entry up to a key and the first from it on.
  pub calls_sorted :
      (calls : List (Call K V)) → IsOrder cmp → run (make no_key no_val) calls ≡ list_run [] calls
  calls_sorted calls o = run-list_run (make no_key no_val) [] calls o make-Repr
