-- ===== src/Lib.antt =====
-- Models of the QVCache library (include/qvcache and src) and theorems about them.
--
-- The program keeps a cache of vectors in front of a vector database. It has a list of small
-- in-memory indexes ordered by their last use (lru_cache.h), and for every region of a projected
-- space a distance threshold that decides whether a cached answer is good enough (pca_utils.h).
--
-- Common has lists, maps and tests over the native numbers. A std::unordered_map is an association
-- list; nothing depends on the order of its entries.
-- Floats has the floating-point operations as a parameter; the model computes nothing about them.
-- Lru models include/qvcache/lru_cache.h: the nodes of the list with their addresses, the map from
-- tags to iterators, and each method. A read through a dangling iterator or at the back of an empty
-- list is none. LruPool models the body of a task of include/qvcache/lru_thread_pool.h, and
-- LruPool.Workers the threads, whose accesses interleave on one cache.
-- Merge models merge_and_rerank_results of include/qvcache/qvcache.h; std::sort is a stable sort of an
-- arbitrary rearrangement.
-- Cache has the shards of include/qvcache/qvcache.h: their capacity, the queue of admitted points and
-- the test of an answer; Cache.Admission what makes room and admits, with the tasks of
-- src/insert_thread_pool.cpp, which run in the order of the queue. A DiskANN index and the fetch of
-- vectors from the backend are parameters. DiskANN throws on an insert with tag 0, which is none.
-- GlobalTheta models the thresholds of include/qvcache/qvcache.h that are kept without regions.
-- InsertPool models the threads of src/insert_thread_pool.cpp as steps that interleave in any order:
-- take a task, finish it, lower inflight, notify, return; and for a caller of wait_idle test, sleep
-- and wake. A submission after the stop, which the destructor's contract rules out, is not a step.
-- DeletePool models the threads of src/delete_consolidate_thread_pool.cpp in the same way.
-- SearchPool models the workers and the caller of include/qvcache/search_thread_pool.h in the same way,
-- with the epoch modulo 2 ^ 32; a call with one job or without workers is a loop and is left out.
-- QvCache is the state of QVCache in include/qvcache/qvcache.h with isHit and update_theta. The update
-- of the thresholds that a task of the insert pool carries waits beside the tasks, and is made when a
-- call has waited for the pool or a worker has run the task.
-- Search models search of include/qvcache/qvcache.h, its sequential strategy, and in Search.Parallel
-- the parallel one. The searches of an index and of the backend are parameters. A search of an
-- index for more than memory_L results throws, which is none. A vector that a shard
-- returns is left out, and so are the times.
-- Calls has the construction of QVCache in include/qvcache/qvcache.h and sequences of calls; between the
-- calls the workers of the insert pool run any number of its tasks, and in a call a task runs when the
-- call waits for the pool.
-- Rotation has the methods of include/qvcache/qvcache.h for shards that no other method calls.
-- Recall models the two measures of include/qvcache/utils.h.
-- Writes models insert and remove of include/qvcache/qvcache.h over the shards and the thresholds, with
-- the backend as a parameter; a fetch that throws and a null vector are none.
-- Region.Key models RegionKey, its hash and compute_region_key of include/qvcache/pca_utils.h;
-- Region.Ball the walk over neighbouring regions, where an overflow of the int that its loop counts
-- with is none; Region.Theta the thresholds and discounts, which such a walk is taken to leave alone.
-- Tests has runs on small inputs and an instance of each theorem.
--
-- A method of a class other than the pools holds its lock from start to end, so that it is one step;
-- the calls of users come one after the other, and what threads can do between each other's steps is
-- modelled in the pools. Sizes are natural numbers; where a value is cast to a narrower type the
-- wrap-around is written out. No model needs fuel: the walk recurs on the code, the loops of the cache
-- on their lists and counts, and the threads are relations. The wake-ups of a condition variable that
-- nobody has notified are left out.
-- Not modelled: training of the projection, which Eigen does, files, times and log lines, and the
-- vectors that a search could return. DiskANN, Greator and Aker are other libraries; of them the
-- cache calls an index and a backend, which are parameters.
mod Common
pub mod Lru
pub mod LruPool
pub mod InsertPool
pub mod DeletePool
pub mod SearchPool
pub mod Floats
pub mod Region
mod Tests
pub mod Merge
pub mod Cache
pub mod Writes
pub mod GlobalTheta
pub mod QvCache
pub mod Search
pub mod Recall
pub mod Calls
pub mod Rotation
