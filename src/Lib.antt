-- ===== src/Lib.antt =====
-- vjuga, a TypeScript library of data structures, dates, results and tools without dependencies.
-- Its parts are separate modules of src/; a program imports the ones it uses. The parts modelled
-- here, each in a file of its name with the proofs in the folder beside it:
--
--   Queue (src/Queue.ts): a double-ended queue over a circular buffer, a power of two of slots.
--     `Queue.Queue` is the interface of that name, `push` ... `dump_to_array` are `push` ...
--     `dumpToArray`; a function that changes the queue returns the new one, and the result before
--     it. `kept_capacity`, `halve_list`, `copy_loop` and `move_loop` are pieces of their bodies.
--     Queue/Window says which slots a window of the buffer holds, Queue/Repr what it is for a
--     buffer to hold a list, Grow, Shrink, Push, Take, Access, Bulk and Dump treat the functions
--     one by one, and Queue/Deque puts them together: a language of calls with two interpreters,
--     the queue's and a list's.
--   PriorityQueue (src/PriorityQueue.ts): a binary heap in an array. The caller's comparator is a
--     parameter, a function that returns a Boolean or throws. `sift_up` and `sift_down` run their
--     loops (`up_loop`, `down_loop`), which stop with the hole in its place or at the throw, and
--     end with `end_up` or `end_down`, the code after the loop and the `catch` block.
--     PriorityQueue/Order is the hypothesis on a comparator that does not throw, Up and Down
--     treat the two sifts, Calls the exported functions, Atomic the calls whose comparator
--     throws.
--   IsoDate (src/ISODate.ts): calendar dates `YYYY-MM-DD`. `is_iso_date` is the predicate over
--     the UTF-16 units, `to_days` and `from_days` are the conversions to and from days since
--     1970-01-01, `add_days` goes through both.
--   MemoryPool (src/MemoryPool.ts): a pool of reusable objects with a maximum. `factory`, `reset`
--     and `fn` are the caller's, parameters that act on a world and may throw; an object is its
--     reference. The functions named `end_...` are what their callers do past the caller's code.
--     MemoryPool/Held has the borrowers' steps as a relation, Exclusive the invariant of every
--     run, Borrow `withAcquire`, whose promise goes on with `release_on_settle`.
--   LruCache (src/LRUCache.ts): the least-recently-used cache, a doubly linked list in arrays
--     with the sentinel at slot 0, a `Map` from keys to slots and a stack of free slots. `at` and
--     `put_in` are the reads and writes of an `Int32Array`, with its bounds. `get_at`, `set_at`,
--     `set_new` and `del_at` are what `get`, `set` and `del` do after the lookup. LruCache/Ring
--     treats the links, Entries the slots with their keys and values, Ready the state, Refine one
--     call, Calls a sequence of calls against a list of pairs.
--   OrderedMap (src/OrderedMap.ts): the sorted map, an AVL tree in arrays with a stack of free
--     slots. OrderedMap holds the state, the allocation, the rotations and `set`;
--     OrderedMap/Delete `deleteMin`, `deleteNode` and `del`, Read the lookups, Walk the
--     traversals. `join_left`, `after_left`, `replace_node` and the like are what a function does
--     past its recursive call. OrderedMap/Tree has the trees the arrays stand for, with
--     `balanced` for `rebalance`; Memory says what it is for the arrays to hold one; TurnRight,
--     TurnLeft, Bent..., Rebalance, Attach, Insert, Detach, Removed, FreeNode and Remove treat
--     the functions on the arrays, TreeInsert and TreeDelete on trees, Sorted, Content and Erase
--     on sorted lists; Free and Valid have the states, Lookup, Nearest, Ends, Traverse and
--     RangeRead the reads, Calls a sequence of calls against a list, Height the depth.
--   Result (src/Result.ts): a value or an error. The caller's functions act on a world and may
--     throw; a combinator runs them in the world it is given. `is_error`, `to_string` and
--     `new_error` stand for the language's `instanceof Error`, `String` and `new Error`.
--     Result/Laws is about a catch and the throw that follows it.
--   BufferizedFunction (src/BufferizedFunction.ts): a function whose calls are collected until a
--     timer runs its `worker`. `bufferized_fn` is the function that `make` returns; `schedule`
--     counts the timers. BufferizedFunction/Delivery has the runs of calls and timers.
--   BatchExecutor (src/BatchExecutor.ts): calls in batches, each with a promise of its own, on a
--     BufferizedFunction. The state of `makeLimited` is the record `Executor`; `request` is a
--     call, `fire` the callback of the buffer, `release` the end of an invocation, all three with
--     the loop of `pump` they run. `take_chunk` is `take`, `run_chunk` is `runChunk` past the
--     call of `fn`, whose outcome is the environment's. BatchExecutor/Settling treats `runChunk`,
--     Taking and Pumping the loops and the invariant, Steps has the steps as a relation and what
--     each keeps, Ending that they come to an end. BatchExecutor/Unlimited has `make` and the
--     executor without limits, whose worker is `invoke` up to the call of `fn` and `settle` past
--     it; Matching sets it beside the one with limits.
--   ErrorChain (src/ErrorChain.ts): the walks over the causes of an error; an object is its
--     reference, a parameter gives its cause, and another one tells whether it is an `Error` of
--     this realm. ErrorChain/Orbit has the chain as a sequence and the laps of it, Cycle treats
--     `distinctCount`, Walk `toArray`, Search `chain` and `find`.
--   BitSet (src/BitSet.ts): a bit array in words of 32 bits, each its number below 2 ^ 32.
--     `modify` is the write of a word, `extract` the inner loop of `toArray`, `not_set` is `not`.
--     BitSet/Words has the bits of a word under the operators, Points treats `make`, `set`,
--     `clear`, `toggle` and `get`, Algebra the operations on whole sets, Count the parallel sums
--     of `popcount32`, Total `popcount`.
--   Base: what the parts share. Base/Arrays is the JavaScript array as a list of optional values:
--     a hole and `undefined` are both `none`, a write past the end extends the array with holes,
--     as `length = n` does. Base/Bits has the bit operations on patterns of 32 bits, Base/Int the
--     integers, with the division that rounds down.
--
-- Bounds and fuel. Array lengths and indices are natural numbers; the queue's theorems assume its
-- buffer has at most 2 ^ 30 slots, where `<< 1` does not yet lose a bit. The loops of the heap
-- recurse on a number of rounds: the start index going up and the size going down, which the
-- theorems show to be enough; the undo loops get the index reached. `toArray` and the like
-- recurse on their counters. The integers of IsoDate are exact, as JavaScript's are below 2 ^ 53.
-- The indices `(i << 1) + 1` of the heap are taken without the wrap, which begins at 2 ^ 30
-- elements. A capacity of the cache is below 2 ^ 31, by the check of `make`.
--
-- A recursion down the tree of an OrderedMap has the size plus one as fuel, which is above the
-- height. The rounds of `pump` are at most the requests in the queue, since each takes one or
-- more. The loops of ErrorChain are on fuel; for a chain that ends after at most `bound` errors,
-- or goes round in at most `bound` errors after at most `bound` others, 5 * bound + 6 rounds are
-- enough. In BatchExecutor the promises of a chunk are settled and its slot is released in one
-- step: the source does the two in callbacks of which no other code of the module comes in
-- between that reads what they change. The inner loop of `toArray` of BitSet has 32 rounds, one
-- for each bit of a word.
--
-- Not modelled. `today` and `validator` of ISODate, which read the clock and wrap `isISODate`;
-- the sizes of a pool and the capacities of a cache that are not natural numbers; `forRange` and
-- `defaultCmp` of OrderedMap; the promises of Result. The other modules of src/: the trees and
-- tables (RadixTree, SOA, BloomFilter, WeakCache), the other formats (ISOTimestamp,
-- UnixTimestamp, UUID, JSON, HTML, schema), the functional tools (Memoization, TimedFunction,
-- TaggedUnion), the executors (PromiseUtils, WorkerPool), the generators and test runners (PRNG,
-- Arbitrary, Property, StatefulTest, CoverageGuided), and HttpServer, which is sockets.
pub mod Base
pub mod Queue
pub mod PriorityQueue
pub mod IsoDate
pub mod MemoryPool
pub mod LruCache
pub mod OrderedMap
pub mod Result
pub mod BufferizedFunction
pub mod BatchExecutor
pub mod ErrorChain
pub mod BitSet
