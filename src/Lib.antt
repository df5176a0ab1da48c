-- ===== src/Lib.antt =====
-- Colossal: the scheduling simulator (colossal/src) and parts of the library ulib under it
-- (ulib/src/base).
-- A run reads pools of jobs of map and reduce tasks and plays their life on a cluster in
-- simulated time. An event heap drives it: creation events let tasks emerge into the selector,
-- take a slot from a semaphore, pick a task first among the pools and then among the jobs of a
-- pool by fair shares, and launch it; finish events give the slot back; preemption events take
-- slots from pools above their fair share when another one starves.
-- The files, and the code that they model:
--   Prelude, Double: shared names and lemmas on arrays, integers and lists; C doubles as an
--     instance of a record of operations, with laws of IEEE 754 in IsOrdered. fixed_double,
--     integers in millionths, is the instance of the tests.
--   Heap: ulib/src/base/heap_prot.h and sort_heap_prot.h, over any element type and order. A C
--     array is a function from indices, and a routine returns the array after its writes. Order,
--     Push, Adjust, Entries and Sort hold the proofs; Image moves them along a map of entries.
--   Fsched: colossal/src/fsched.hpp and fsched.cpp: fs_context and its comparator (Compare), the
--     shares (Shares), and the search for the ratio (Ratio).
--   Select: the class fs_select of fsched.hpp, whose users are numbers that a memory maps to
--     their contexts, so that ++alloc on a shared context is seen by the heap.
--   State: the objects of task.hpp, job.hpp, pool.hpp, event.hpp, selector.hpp, vsem.hpp and
--     engine.hpp. A pointer to a task, job or pool is a number that the engine's record resolves;
--     what the source keeps twice, for maps and for reduces, is a pair that a task type selects
--     from.
--   Queue: the event heap of engine.cpp. Pool: pool.cpp. Vsem: vsem.hpp. Selector: selector.cpp,
--     with Selector/Pop for pop_map and pop_reduce and Selector/Tree for the hash maps;
--     Tree/Entries has the laws of those, Make, See, Taken and Neediest hold the proofs on the
--     constructor, on see_maps and on pop_map, Select/Pick what they need of fs_select. Engine:
--     engine.cpp and the handlers of event.cpp, with proofs on the fair shares of the pools
--     (Shares), on preemption (Taking, Preempt), and on the slots in a round of the loop: Frame
--     says what leaves them alone, Capacity and ByStart are about slots and entries of running
--     tasks, Keys is about their keys, Within and Rounds about the handlers. Members: the members
--     of these classes by name, for maps and for reduces. Sample: a simulation for the tests.
--   Gcd: ulib/src/base/math_gcd.c and math_lcm.c; Divisor holds the proofs on divisors and
--     multiples, Bezout those on egcd.
--   SortList: ulib/src/base/sort_list.c, a list of nodes being the list of their values; Merge,
--     Sorted, Nodes and Stable hold the proofs on the order, Slots that on the array part[].
--   HashOpen: ulib/src/base/hash_open_prot.h: the two bits of a bucket are a record, the arrays
--     are functions from indices. Probe holds the proofs on triangular probing, Table what a
--     table stands for, Steps, Find, Erase, Site, Fill, Insert and Clear the proofs on the
--     operations; Resize has openhash_resize and openhash_set, with the proofs on the pairs in
--     motion (Carry), the loops (Kick, Wrote, Place, Move), the table after them (Rebuild), and
--     the operations between calls (Set, Calls).
--   StrUtil: ulib/src/base/str_util.c; Pattern says what a pattern means, Regex, Fields and Lines
--     hold the proofs.
--   Tree: ulib/src/base/tree.c, the search trees, with the proofs on their order (Inorder, Order,
--     Insert, Search). A tree is what the links to the children lead to, and the links to the
--     parents are the frames from a node to the root. Tree/Splay: the splay trees, with the
--     proofs Sides, Search and Map. Tree/Avl: the AVL trees; Shape says when a tree is balanced,
--     Rotate, Path, Balance, Keys and Insert hold the proofs on avl_add and avl_map, Shrink and
--     Delete those on avl_del, Height that on the height.
--   Rc4: ulib/src/base/crypt_rc4.c, with the proofs on the key state (Permutation).
-- Fuel: the loop of heap_push has as many rounds as the index of the hole, which halves; those of
-- heap_adjust, fs_select::operator() and see_maps as many as the heap has entries, one of which
-- leaves in each round, so none of these can run out. gcd and egcd recurse on the falling
-- argument, the loops of Rc4 count their 256 rounds down, and those of SortList and StrUtil
-- consume their lists. The searches of HashOpen have twice as many rounds as there are buckets,
-- more than it takes to come to an empty one; in openhash_resize the search for an empty bucket
-- has as many rounds as there are buckets, and the loop that places pairs one more than there are
-- elements, each round but the last taking one up from the old flags. The loops of splay_search
-- and splay_map have as many rounds as the tree has nodes, and one more, for each round goes down
-- by a node at least. The doubling loop of compute_ratio and compute_fairshares may run forever
-- in C; it has fuel, and none stands for its end. Their bisection has the 25 rounds of the
-- source. The loop of process has fuel too, and none stands for its end. In Selector/Pop and
-- Engine, none is also the dereference of a null pointer or an empty queue.
-- In the simulator integers stay in the range of C int and size_t, whose wrap-around is not
-- modelled; Gcd and Rc4 wrap around as unsigned long and uint8_t do. The hash sets and maps are
-- association lists: their order of traversal is the order of insertion here and unspecified in
-- C. A set of running tasks is the list of its entries, found by the ids of the task, its job and
-- its pool as in task.cpp: hlist::insert adds an entry without a search, and erase removes the
-- first one that is found. A snapshot of it is the list as it was; that the walk over a snapshot
-- with two entries of a key would reach a freed entry is not modelled. Reference counts,
-- destructors, logging, metrics, progress output and the reading of workloads are left out, since
-- they do not act on the simulation. `nbucket * 0.7` is taken as a quotient of integers, as it is
-- for powers of two below 2 ^ 50. The back links that list_sort restores, NULL for the buffer of
-- getfield, and buffers of rc4_crypt of 4 GiB or more are not modelled. The job generator, and
-- the other parts of ulib, are not modelled.
pub mod Prelude
pub mod Double
pub mod Heap
pub mod Fsched
pub mod Select
pub mod State
pub mod Queue
pub mod Pool
pub mod Selector
pub mod Vsem
pub mod Engine
pub mod Members
pub mod Sample
pub mod Gcd
pub mod SortList
pub mod StrUtil
pub mod Rc4
pub mod HashOpen
pub mod Tree
