-- ===== src/Sorts.antt =====
-- cpp/sort/insertSort.cpp, bubleSort.cpp and selectSort.cpp: Defs has the functions; Insertion, Bubble
-- and Selection hold the proofs of each. Heap is cpp/sort/heapSort.cpp, Quick quick_sort.cpp, Shell
-- shellSort.cpp and Merge mergeSort.cpp. Hole is what insertion and Shell sort share.
pub mod Defs
pub mod Insertion
pub mod Bubble
pub mod Selection
pub mod Heap
pub mod Quick
pub mod Shell
pub mod Merge
pub mod Agree
mod Hole
mod Tests
