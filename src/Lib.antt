-- ===== src/Lib.antt =====
-- InstantTensor: the C++ core that loads the tensors of safetensors files into device memory.
--
-- A loader (csrc/loader_common.cpp, csrc/instant_tensor/loader.hpp) works on one thread. `open` sets
-- the sizes of the buffers (`init_buffer`) and lays out tensors and chunks in a device buffer that is
-- used again and again (`compute_layout`). `get_tensor_ptr` then posts reads of chunks up to the
-- prefetch id of the tensor asked for, waits until its last chunk is read, and returns its address.
-- A chunk is divided among the ranks of a group and the threads of a rank (`post_read_chunk`), and
-- one of four back ends (csrc/loader_io_*.cpp) reads the parts. The back ends hand work to executors
-- (csrc/instant_tensor/async_executor.hpp), whose workers take tasks from one queue and push results
-- to another, from where they are reaped by request id. A manager (csrc/main.cpp) has a table of
-- loaders, sends a loader's thread requests through one queue and waits for responses in another; the
-- thread (`run`) answers one, and tries to post and poll reads after each.
--
-- Files:
--   Base         names of the libraries, Boolean tests, lists and integers over native numbers,
--                counting, Result.
--   Size         size_t arithmetic, 64 bits wrapping, and ROUND_UP, ROUND_DOWN of common.hpp, with
--                Size/Rounding and Size/Split.
--   Types        the records and enums of csrc/instant_tensor/types.hpp.
--   Environment  what is asked of the machine first: the release of the kernel and the abilities of
--                io_uring (csrc/loader_io_uring.cpp), the file system of a file, variables of the
--                environment, and which backends there are.
--   Layout       Loader::compute_layout. The variables that its lambdas capture are the record
--                Layout; finish_chunk, reset_chunk_buffer_offset and reset_chunk_file keep their
--                names. A body of the loop is place_tensor or next_file. Layout/Valid has the
--                invariant, Layout/Cover what a tensor at its place is, Layout/Prefetch which chunks
--                may be posted while a tensor is in use, Layout/Scan the table of offsets,
--                Layout/Correct the result.
--   Loader       the members of class Loader, as the record Loader. Loader/Sizes has init_buffer's
--                sizes, Loader/Geometry the preamble of post_read_chunk, Loader/Post the four back
--                ends, Loader/Uring the buffers of io_uring, Loader/Submit the loops that hand reads
--                to the kernel, Loader/Completion the waiting for completed reads with io_uring and
--                AIO, Loader/Device the calls of CUDA and NCCL that follow, Loader/Schedule the remaining methods up to get_tensor_ptr. Loader/Open has
--                open and close (whose names are open_loader and close_loader), with open_file,
--                init_buffer and init_threads; the system is the parameter System of Loader/System.
--                Loader/Run has dispatch and run, with Loader/Run/Session for a loader between
--                requests. A method that throws gives a Result; an access out of a vector, undefined
--                in C++, is the error out_of_bounds.
--   Queue        AtomicQueueAdapter of csrc/instant_tensor/queue.hpp over the library atomic_queue,
--                which is the parameter AtomicQueue.
--   Executor     ExecutorCore: the reaper's side, with the calls that wait in Executor/Wait; submit,
--                start and stop in Executor/Lifecycle; the worker loop with FunctionWorkerDriver of
--                csrc/instant_tensor/function_executor.hpp in Executor/Driver, and the executors of
--                functions in Executor/Functions. Executor/Pool has the submitter, all workers and
--                the reaper at once: a step is one operation on a queue. Pool/Phases and Pool/Orderly
--                have its invariant, Pool/Turns and Pool/Moves what a step does, Pool/Account what
--                becomes of results, Pool/Join the end, Pool/Reaping the calls as steps.
--   Binding      csrc/instant_tensor/dl_binding: the search for loaded libraries, and init of the
--                three bindings; Binding/Wrappers the pointers that are called.
--   Cache        HostBufferCache of csrc/instant_tensor/io_context.hpp; Cache/Globals has the other
--                global objects, and their end.
--   Dlpack       csrc/instant_tensor/dlpack_utils.hpp, the description of a tensor for Python, with
--                the names of the types in Dlpack/Names.
--   Manager      class LoaderManager of csrc/main.cpp: Manager/Calls has a caller and the thread in
--                turns, Manager/Table the table of loaders and the functions that Python calls,
--                Manager/Handles what it holds.
--
-- Bounds and fuel: the loops of compute_layout over a tensor run on fuel of the tensor's size
-- and two more, those over tensors to release on the distance of the two indices; both suffice for
-- every valid configuration. wait_step runs on fuel for its rounds, of which it needs one for each
-- chunk left to prefetch and two more. The loops of the reaper run on fuel for the items that wait
-- in the queue, that of a worker on one unit for a round. A call that waits runs on the list of what
-- the other threads do at each of its yields, a loop over a system call on the list of its answers.
-- Sizes are below 2^61, so that no sum or product of them wraps. The ids of loaders and requests, an
-- int each, are natural numbers: fewer than 2^31 of them are given out.
--
-- Not modelled: what CUDA, NCCL, cuFile, libaio and liburing do, but for the order of streams and
-- events, which is a parameter; the debug mode; the start of threads; an exception in a worker, which
-- ends the process; the Python front end. A system call is a parameter. A
-- submission to the kernel, to CUDA or to NCCL on the loader's thread throws when it fails; the loops
-- that submit are in Loader/Submit, and where Loader/Schedule posts a chunk they are taken to
-- succeed. Whether a request is ready is a parameter of a poll. A queue between a caller and a
-- thread of a loader is a list, and a `pop` on an empty one waits: a round of `run` that waits leaves
-- the thread as it is.
pub mod Base
pub mod Size
pub mod Types
pub mod Environment
pub mod Layout
pub mod Loader
pub mod Queue
pub mod Executor
pub mod Binding
pub mod Cache
pub mod Dlpack
pub mod Manager
