-- ===== src/Lib.antt =====
-- Verification library of LabStor.
--
-- LabStor's clients and workers talk through shared memory. A client puts a request into the
-- submission ring of a queue pair; a worker, which holds the pair in its work queue, takes it out,
-- processes it and puts it into the pair's completion map, where the client waits for it. Requests
-- themselves come from allocators that keep their free objects in the same kind of ring. Offsets
-- into a region stand for pointers, since each process maps the region at its own address.
--
-- The files, with the sources that they model (data_structures/c is
-- include/labstor/types/data_structures/c):
-- - Base: shared names, tests, lists, 32-bit and 64-bit words, and `Call`, the outcome of a C call:
--   `done`, `refused` (a return of `false` or `NULL`) or `fault` (undefined behaviour).
-- - Region: LABSTOR_REGION_SUB and LABSTOR_REGION_ADD of include/labstor/constants/macros.h.
-- - Request: shmem_request.h and shmem_qtok.h. `Store` is the memory of the requests by address.
-- - Ring: data_structures/c/shmem_request_ring_buffer.h. `get_size_global`, `init`, `enqueue`,
--   `peek` and `dequeue` are the functions of those names; Fifo is the contract.
-- - RequestMap: data_structures/c/shmem_request_map.h; `insert` is Set.
-- - Spin: the loops of include/labstor/constants/busy_wait.h.
-- - RequestQueue: data_structures/c/shmem_request_queue.h.
-- - QueuePair: data_structures/c/shmem_queue_pair.h.
-- - WorkQueue: data_structures/c/shmem_work_queue.h.
-- - WorkQueueSecure: data_structures/c/shmem_work_queue_secure.h.
-- - PrivateAlloc: include/labstor/types/allocator/private_shmem_allocator.h; `release` is Free.
-- - SegmentAlloc: include/labstor/types/allocator/segment_allocator.h.
-- - ShmemAlloc: include/labstor/types/allocator/shmem_allocator.h, an array of PrivateAlloc;
--   `release` is Free, and `pages` holds the entries' `core_`.
-- - Kernel: ModuleManager is src/kernel/server/module_manager.c, and Server the dispatch of
--   src/kernel/server/kernel_server.c; SecureShmem is
--   labmods/secure_shmem/kernel/secure_shmem_kernel.c, where the addresses of the elements show
--   which memory is freed; WorkOrchestrator is
--   labmods/work_orchestrator/kernel/work_orchestrator_kernel.c, the workers that take the requests
--   out of the queue pairs, with the modules' worker functions as a parameter; IpcManager and
--   BlkdevTable are labmods/ipc_manager/kernel/ipc_manager_kernel.c and
--   labmods/blkdev_table/kernel/blkdev_table_kernel.c.
-- - Bits: laws of `&` and `|` on words of two-bit fields.
-- - Bit2map: include/labstor/types/data_structures/bit2map.h. Atomic says what its loops do at once,
--   and Protocol is the threads' use of it as steps.
-- - Bitmap: include/labstor/types/data_structures/bitmap.h.
-- - UnorderedMap: unordered_map/shmem_unordered_map.h of include/labstor/types/data_structures;
--   `insert` is Set, and IntMap is shmem_int_map.h beside it.
-- - Mpmc: include/labstor/types/data_structures/shmem_ring_buffer.h. `enqueue` and `dequeue` are a
--   call that no other thread interferes with; Mpmc/Threads has the steps of one access each of
--   any number of threads.
-- - BlockAllocator: labmods/labstor_fs/lib/block_allocator.h, over two rings of Mpmc.
-- - Text: include/labstor/types/data_structures/shmem_string.h.
-- - Server: the userspace runtime. QueuePool is include/labstor/userspace/types/queue_pool.h with the
--   queue ids of include/labstor/types/data_structures/queue_pair.h; Namespace is
--   include/labstor/userspace/types/shared_namespace.h, over UnorderedMap/StringMap, which is
--   unordered_map/shmem_string_map.h of include/labstor/types/data_structures; Worker is
--   src/userspace/server/worker.cpp, with the modules' ProcessRequest as a parameter. IpcManager is
--   src/userspace/server/ipc_manager.cpp and the part of src/userspace/client/ipc_manager.cpp that
--   creates the pairs in shared memory: what one side sends is an argument of the other side's
--   function; the sizes and exceptions of its queue pairs are those of the C++ build. A process's
--   pool is the QueuePool's, and the workers' queues are Worker's.
--   ModuleManager is src/userspace/server/module_manager.cpp with the table of constructors of
--   include/labstor/userspace/types/module.h; it updates the instances that Namespace holds.
-- - MqDriver: labmods/mq_driver. Submission and Kernel are kernel/mq_driver_kernel.c there, where
--   what the kernel's calls return is an argument and the calls made are a list of events; Server is
--   server/mq_driver_server.cpp, which takes a client's I/O through the kernel's module. The two
--   sides read the same words of a request by structures that differ in one field.
-- - Tests: runs at concrete inputs, and instances of the theorems.
--
-- A structure in shared memory is a record of its header's fields and the words behind the header,
-- which may be anything before `Init`. Counters and sizes are `uint32_t`: every sum and difference
-- is written with its wrap. Offsets and `int` indices are 32-bit patterns. An access outside the
-- words, or a division by zero, is a `fault`.
--
-- Loops. The loops of the allocators' `Init` recur on the objects, the cores or the blocks left. The
-- search of the per-core `Alloc` has fuel for each core once; it is back at its first core by then.
-- A busy-wait takes a list of what the other threads do between one attempt and the next; it is
-- still `spinning` when the list ends, so a list that is long enough stands for any run of the
-- other threads. Each attempt counts as one step; weaker memory orders are not modelled. The loops
-- around an atomic exchange take a list of what the other threads do between the load and the
-- exchange of each round, and are still spinning when it ends. The outer loop of the unordered map's
-- `Remove` has fuel, since it need not end: `none` is a run that is not over. The loop of a kernel
-- worker takes a list of what happens at its yields, one for each pass until it is told to stop.
--
-- Not modelled: builds with ENABLE_LOCKING, LABSTOR_MEM_DEBUG or LABSTOR_YIELD_SPINWAIT; the
-- exceptions that the C++ builds throw where the C build returns `false`, but for those of the IPC
-- managers' queue pairs; of the C++ code, the sockets, the pairs that the server creates for the
-- kernel, the clients of modules and the modules, but for the blocks of LabFS and the multi-queue
-- driver; the functions of the kernel's block layer that the multi-queue driver has copied;
-- exceptions of the modules that the server's workers call; a thread that changes the unordered map
-- while another uses it; the functions of the MPMC ring that hold its locks across calls.
pub mod Base
pub mod Bits
pub mod BlockAllocator
pub mod Bit2map
pub mod Bitmap
pub mod Fifo
pub mod Region
pub mod Request
pub mod RequestMap
pub mod Ring
pub mod Spin
pub mod RequestQueue
pub mod QueuePair
pub mod Mpmc
pub mod UnorderedMap
pub mod WorkQueue
pub mod WorkQueueSecure
pub mod PrivateAlloc
pub mod Kernel
pub mod MqDriver
pub mod Text
pub mod Server
pub mod SegmentAlloc
pub mod ShmemAlloc
pub mod Tests
