-- ===== src/Lib.antt =====
-- Verification library for the C++ exercises and components of this repository.
--
-- The repository is a collection of self-contained programs under cpp/, each with its own classes
-- and a main. This library models those that carry state and invariants. They do not call one
-- another; what they share here are the specifications in OrderedSet and OrderedBag and the vectors of Vector.
--
-- Prelude     shared names, Boolean tests on numbers, lists, integers, and Prelude.Fault: code that
--             may run into undefined behaviour returns an option, and `none` is that behaviour.
--             `Returns m P` says that the run m is defined and its result satisfies P.
-- OrderedSet  the abstract set of keys, a strictly increasing list with mem, ins and del.
-- OrderedBag  the abstract multiset of keys, an increasing list with put, and del of OrderedSet.
-- Avl         cpp/tree/avl2.cpp, class AVL. Defs holds the methods under the names of the source
--             (insert_real, erase_real, ll_rotate, find_real, loop_find, destory); insert_fix and
--             erase_fix are the code of the first two after the recursive call. Rotate, Balance,
--             Insert, Erase, Lookup and Laws hold the proofs.
-- Bst         cpp/tree/bst.cpp, class BinarySearchTree. `walk` is the loop with an explicit stack
--             that inOrderWithoutRecursion, leaf, parent, predecessor and successor share; each
--             method gives it what it does at a push and at a pop. Its fuel is 2 n + 1 for n nodes,
--             a push and a pop of each and the last test, and Walk proves it enough. A pointer is
--             the subtree at the node; deleteNode's writes go to the node with the parent's key.
-- RbTree      cpp/tree/rbTree.cpp, class RBTree. A pointer to a node is the subtree with the list of
--             its ancestors, which stands for the fields `parent`; a rotation replaces the subtree,
--             and `plug` gives the tree from the root. Defs has the searches, traversals, neighbours
--             and the insertion (insertFixUp is insert_fix_up), Removal has remove and removeFixUp
--             (a round of its loop is cases_left or cases_right). Both loops end because each round
--             shortens the list of ancestors.
-- Lru         cpp/linux/LRU_template.cpp, class LRUCache with int keys. Defs has the constructor, get and
--             put; an iterator in the map is the address of a list node. Recency is the abstract cache,
--             the pairs in the order of use; Cells and Laws hold the proofs.
-- BasicString cpp/string/my_string.cpp, class basic_string<char>. A buffer is the list of its bytes, `none`
--             for one that was never written, and a pointer is an offset; `live` counts the buffers
--             that were allocated and not freed. get_realloc_size has fuel for 62 doublings: 61 take 8
--             past a size_t. `equal_from` has fuel for the length and the last test; `less_from` takes
--             any fuel, since the loop of operator< need not end. The right operand is another object
--             than this one, and lengths are below half of a size_t where a hypothesis says so. Alloc,
--             Buffer, Laws and Compare hold the proofs.
-- SafeQueue   cpp/stl/safeQueue.cpp, class Queue. A section under the mutex is one step, and a run is any
--             interleaving of them; waiting threads are counted.
-- MemPool     cpp/memory/MemPool2.cpp, class MemPool. Nodes are numbers, the blocks one behind the other.
-- TimeCache   cpp/cpp_language/old/gettimeofday/cas_time_cache.cpp (atomic_time_cache.cpp has the same
--             text), class CTimeThread and the conversions. System is the updating thread, a system
--             call or a store at a time; CLOCK_MONOTONIC does not go back. Reads is about readers of
--             CLOCK_REALTIME; those of the other clock read once more without an atomic load, and a data
--             race there is undefined.
-- LockedClock cpp/cpp_language/old/gettimeofday/rwlock_time_cache.cpp, class CTimeThread. Cell is one pair
--             under its reader-writer lock, word by word: pthread gives the write lock where nobody
--             holds the lock and a read lock where no writer does.
-- ThreadPool  cpp/thread/ThreadPool.cpp, class ThreadPool. Workers are counted by where they stand; a run
--             is any order of the sections, notifications and spurious wake-ups.
-- Semaphore   cpp/cpp_language/my_semaphore_impl.cpp, class semaphore; my_sem has the same bodies.
-- Templates   cpp/race/race_template.cpp: quick_pow, gcd, is_prime and the union-find; a loop has fuel, and
--             the fuel of each is proved enough in Gcd, Power, Primes and Unions.
-- BitMap      cpp/algorithm/bitMap.cpp, class BitMap. A failed assert counts as undefined behaviour.
-- Vector      what the sorts and the searches do to a vector<int>; `swap` is std::swap of two elements.
-- Search      cpp/search/binarySearch.cpp. A search has a round for each element and one more.
-- Sorts       cpp/sort/insertSort.cpp, bubleSort.cpp, selectSort.cpp and, in Heap, heapSort.cpp. heapify goes
--             down at least one index a round, so len + 1 rounds are enough. Quick is quick_sort.cpp;
--             a result of rand() is any number, and the depth of the recursion is at most the size.
--             Shell is shellSort.cpp; a gap is halved at most as often as the vector is long. Merge is
--             mergeSort.cpp, with one round of a merge for each element and one more.
--             Agree compares them all.
-- SharePtr    cpp/base/weak_ptr_impl.cpp: a counter, named by a number, stands for the object as well, and
--             a program is the heap with the pointer variables of both classes.
-- Exercises   solutions in cpp/online_judge/leetcode/editor/cn: Sum is addTwoNumbers, StrToInt strToInt,
--             Majority majorityElement, and Range searchRange. The digits of strToInt are those of
--             `decimal`; the searches have a round for each element and one more.
-- Kmp         cpp/string/kmp.cpp: getNext and kmp. A step of the search either moves on in the text or
--             falls back in the pattern, so 2 n + 1 steps are enough for a text of n characters.
-- Trie        cpp/race/Trie.cpp: Insert, Search, Delete and the loop of main that reads commands.
-- HashTable   cpp/stl/myHash.cpp. Defs has the functions; a search has one round for each cell, since a
--             loop that has passed them all does not end, and the recursion between InsertHash
--             and recreateHash is at most seven deep, since `index` then leaves its array. Laws is
--             about the search, Updates about insertion and deletion.
-- Memcpy      cpp/string/memcpy.cpp: memcpy1 and my_memcpy, on a memory with a byte at each address.
-- Philosophers cpp/thread/eat_think.cpp: the five threads, a call of pthread at a time.
--
-- Keys of the trees are int values that they only compare. A key k stands for the number k + 2^31, so the
-- order of the numbers is the order of the keys. Heights and counts are numbers; they are bounded by
-- the number of nodes in memory. `new` does not fail.
--
-- Not modelled: printing, the main functions other than that of Trie, the calls of the operating system
-- (the reactor, the sockets, the clocks beyond the two caches), programs that only show what the
-- language does, and solutions of the online judge that are unfinished. The counting sort, the other
-- smart pointers, the smaller thread pools and the rest of the finished solutions are left out so far.
pub mod Prelude
pub mod OrderedSet
pub mod OrderedBag
pub mod Avl
pub mod RbTree
pub mod Bst
pub mod Lru
pub mod BasicString
pub mod SafeQueue
pub mod MemPool
pub mod TimeCache
pub mod BitMap
pub mod HashTable
pub mod Memcpy
pub mod Philosophers
pub mod SharePtr
pub mod Kmp
pub mod Exercises
pub mod Trie
pub mod Vector
pub mod Search
pub mod Sorts
pub mod LockedClock
pub mod ThreadPool
pub mod Semaphore
pub mod Templates
