-- ===== src/Lib.antt =====
-- A storage engine: pages of records on a heap with a free-space map, and a buffer pool that caches
-- disk pages in frames of memory; a pool of asynchronous tasks; and a benchmark of a disk. This library
-- models src/storage, src/foundations, src/bin and the fuzz target.
--
-- The parts, with the files that model them:
--   Page         src/storage/page/slotted_page.rs: a page as a list of 4096 bytes, read and written as
--                the code does, with a slot directory that grows up and records that grow down.
--                Page.Records says when a page holds a list of records, or is only within its bounds.
--   Page.Fuzz    fuzz/fuzz_targets/slotted_page.rs: the operations that an input stands for, on one page,
--                and the checks after each of them.
--   Fsm          src/storage/fsm/tree.rs: the tree of buckets of free space, one leaf for each page.
--                Fsm.Tree says when a map is such a tree.
--   Heap         src/storage/heap/mod.rs: the pages and their map, with `insert`, which asks the map for
--                a page, and adds one when there is none. Heap.State ties the pages, their records and
--                the map together.
--   Heap.Scan    src/storage/heap/scan.rs and src/storage/access/owned.rs: the scan, record by record.
--   Pool.Frame, Pool.PageTable, Pool.FreeFrames, Pool.Clock, Pool.Metrics
--                the files frame.rs, page_table.rs, free_frames.rs, clock_replacer.rs and metrics.rs of
--                src/storage/buffer_pool: a frame and its pins, the map from pages to frames, the queue
--                of empty frames, the CLOCK policy, the counters. Pool.Frame.History has sequences of calls on a
--                frame, beside what the disk has of its page.
--   Pool.Manager src/storage/buffer_pool/manager.rs: the pool. A fetch looks in the page table, then
--                takes an empty frame, then evicts. Each stretch under `state_lock` is a function of the
--                whole pool: `decide` starts a round of `fetch_page`; `publish`, `keep_victim` and
--                `commit_eviction` end it; `begin_new_page` and `commit_new_page` do so for `new_page`.
--   Pool.Disk    src/storage/buffer_pool/disk.rs: pages of a file. The file is a parameter, a handle and
--                its calls; Pool.Disk.Files says what they are relied on to do.
--   Pool.System  any number of threads on one pool, as a relation: a step is a section of one thread,
--                and a run is any sequence of steps. Pool.System.Invariant gives every frame a role
--                (free, of a page, reserved by a thread), and its sisters show section by section that
--                the roles stay right. Pool.System.Quiet has the rules by which most sections are seen to leave
--                the pages alone.
--   Endianness   src/foundations/endianness.rs: numbers and a record as bytes.
--   Stores       src/foundations/row_vs_col.rs: one table by rows, by columns and by pages of columns, as
--                instances of one interface. Stores.Tables says what a layout shows of its rows.
--   Tasks        what is asked of tokio: its semaphore, a parameter, and the tasks that it runs.
--   Tasks.Limit  src/foundations/task_pool.rs: `run_with_limit`, as the steps of the call and of its tasks.
--   Harness      src/bin/nvme_harness.rs: the offsets, the test file and its blocks, over a file system that
--                is a parameter. Harness.Benchmark is `run_benchmark`, as the steps of the call and of its
--                reads, on the tasks and the semaphore of Tasks.
--   Prelude      how calls end (`Ok`, `Err` or a panic), locks, maps, and lists over native numbers.
--
-- A function keeps its name. A method that changes its object returns the new object, and where an
-- error leaves a change behind, the object comes with the error. A panic is a result of its own: an
-- index out of range, a checked overflow, an `unwrap` of nothing. Widths are written out: `u16` is
-- `% 65536` where the code casts or wraps, a counter of the metrics is `% 2 ^ 64`.
--
-- Bounds and fuel: the loop of `Heap.insert` has as many rounds as there are pages and one more, since
-- each round that goes on excludes another page; the loop of CLOCK has two revolutions, since the first
-- one clears the reference bits; the loops of the map follow the depth of the tree, and `find_leaf` and
-- those of a scan take their fuel as an argument. The loop of the fuzz target has a round for each byte
-- of the input and one more, since a round moves the cursor. A loop without fuel left is a panic, or a
-- run that has failed, so that a call that is shown to return has had enough.
--
-- The answers of the disk are arguments of the manager's functions; the read loop of Pool.Disk has a
-- round for each byte of a page and one more, since a round that goes on has read a byte.
--
-- A run of the task pool or of the benchmark needs no fuel: it is a number of steps, which is bounded.
-- `OPERATIONS` is an argument of the benchmark, so that a run can be written down.
--
-- Not modelled: the condition variables, which only wake threads; poisoned locks of the manager itself
-- and of frames; `fetch_url`, which sleeps and formats a text; the times and rates of the benchmark, and its
-- `main`, which runs it for every configuration and prints; src/main.rs, the benches and the tests.

pub mod Prelude
pub mod Endianness
pub mod Page
pub mod Fsm
pub mod Heap
pub mod Pool
pub mod Stores
pub mod Tasks
pub mod Harness
