-- ===== src/Lib.antt =====
-- A model of the lock of speedysvc, and of the requests that go over shared memory under it. The lock is
-- the extension class HybridLock for Linux, speedysvc/hybrid_lock/linux/HybridLock.c, which Cython makes
-- from HybridLock.pyx beside it; the requests are those of speedysvc/client_server/shared_memory. Clients
-- and workers of a service share a named POSIX semaphore, and a page of shared memory of the same
-- name. The first byte of the page is a char that says LOCKED, UNLOCKED or DESTROYED, so that a
-- process can spin before it sleeps; the int behind it is the pid of the holder.
--
-- The parts.
--   Machine.State  the object (struct __pyx_obj_10HybridLock_HybridLock), the process around it
--                  (descriptors, references to semaphores, errno), and what all processes share
--                  (names, values of semaphores, pages). `Env` is all that the code does not decide:
--                  which call fails with which errno, what the clock shows, what the other processes
--                  do during the spin loop and while this one sleeps.
--   Machine.Flow   how a function ends: a value, a Python exception, a sleep that nobody ends, or
--                  undefined behaviour; and the monad of statements.
--   Machine.Calls  the calls of libc, as POSIX documents them. Each may fail as `Env.fault` says.
--   Machine.Post   postconditions, for total and for partial correctness.
--   HybridLock     a function to each C function, split at its branches: Create (__cinit__), InitMmap
--                  (init_mmap, __exception_occurred), Destroy (destroy, __del__), Value
--                  (get_destroyed, get_value, get_pid_holding_lock), Lock (lock), Unlock (unlock),
--                  Clock (get_current_time_ms, __Pyx_div_long), Python (the __pyx_pf_ wrappers and
--                  tp_new), Except (the try statement of CREATE_NEW_OVERWRITE, on the error state of
--                  a thread). Theorems: Spin, Acquire, Progress, Release, RoundTrip, Refusal,
--                  CleanedOnce, Cleanup, Caught and Classes for the try statement, and Opening for
--                  the constructor, whose child Spec is its specification on the shared state, and
--                  Failing its theorem with any call failing.
--   Interleaving   lock, unlock and destroy as steps between accesses to what is shared, for any
--                  number of processes. Theorems: Exclusion; Liveness, by a measure of the steps
--                  that are left (Forward). Surrounded says what it is for the other processes to
--                  act by such steps around a function; LockRuns relates lock to runs of the steps of
--                  all. Simulation has the runs of one process's own steps, while the others stay,
--                  and ReleaseRuns relates unlock to them.
--   Runtime        from the support code of Cython. The calls from Python: the wrappers of __cinit__,
--                  init_mmap and lock (Wrappers), __Pyx_ParseOptionalKeywords (Arguments), and
--                  __Pyx_PyInt_As_int and __Pyx_PyInt_As_long (IntFromPy), and the way back,
--                  __Pyx_PyInt_From_int and __Pyx_PyInt_From_long (IntToPy); theorems in Binding and
--                  IntBounds. Tracebacks: the cache of code objects, __pyx_bisect_code_objects,
--                  __pyx_find_code_object and __pyx_insert_code_object (CodeCache), and
--                  __Pyx_AddTraceback (Traceback); theorems in Bisect, Insert and Traced. Exceptions:
--                  __Pyx_Raise (Raise), __Pyx_PyErr_ExceptionMatches (ExceptionMatches), and the
--                  error state of a thread (ErrorState); theorems in Raises and Subclasses, and in
--                  HybridLock the two on the try statement. __Pyx_CalculateMetaclass (Metaclass), and
--                  the lookups of global names (GlobalNames), with their theorems.
--   ModuleInit     the creation and the execution of the module: __Pyx_check_single_interpreter and
--                  __pyx_pymod_create (Interpreters; theorem Creation), the static variables and the
--                  table of strings (Globals, Strings), and __pyx_pymod_exec_HybridLock (Exec;
--                  theorem Loaded, with no call failing).
--   Protocol       the client and the server of speedysvc/client_server/shared_memory. Frames: the
--                  formats of SHMBase.py. Memory: get_mmap of shared_params.py, create_pid_mmap and
--                  connect_to_pid_mmap of SHMResourceManager.py, and __resize_mmap and
--                  __reconnect_to_mmap, on a memory of numbered maps of which one is bound to the
--                  name; theorems Sizes and Fits. Client: _send of SHMClient.py, up to the release of
--                  the lock (send_request) and each time it has it again (collect). Server:
--                  handle_command of SHMServer.py; theorems Sends and Answers. Exchange: one request
--                  and the turns of both sides, each a hold of the lock, which other turns do not
--                  enter (Interleaving.Exclusion); theorem Served. Session: a connection from its
--                  creation on. The methods of the service with their serialisers are the parameter
--                  `serve`; the size of a page and the text of struct.error are parameters too.
--   Registry       who takes part. Pids: the lists of servers and of clients that the class
--                  _SHMResourceManager of SHMResourceManager.py keeps, with check_for_missing_pids as a
--                  whole; theorem Kept. Methods: all its methods, call by call, with what other
--                  processes do between two calls: create_resources, create_pid_mmap, get_lock and
--                  unlink_resources run without the lock of the manager, and a method may end after
--                  any call; theorem Strays. Store: _decode and _encode of
--                  speedysvc/ipc/JSONMMapBase.py, on the page in which the lists stand, and lock_fn, which
--                  takes and gives back the lock around a method; theorem Stored, with json and the
--                  methods of the lock as parameters. Workers: a whole call of monitor_pids of
--                  SHMServer.py; theorem Monitored. Steps: _monitor_pids, worker_thread_fn and shutdown,
--                  statement by statement, for any number of threads, which share the flags and the
--                  set of pairs without a lock; theorems Shutdown and Told. Lists and Sets: what
--                  Python's lists and sets do. Which processes are alive is a parameter.
--   Network        NetworkClient.py and NetworkServer.py of speedysvc/client_server/network. Stream: recv,
--                  on a connection that gives its bytes in chunks; theorem Received. Messages: what
--                  _send of the client and run of the server send and read, with ZLibCompression.py
--                  of speedysvc/compression; theorem Answered. zlib is a parameter.
--   Examples       runs of the model and the theorems at concrete inputs.
--
-- Bounds. The spin loop is given 8194 rounds; the test `spin_times > 8192` ends it in round 8194 at
-- the latest, so they are enough. The bisection is given one round more than there are entries; each
-- round makes its interval shorter. Values of C integers are integers without a bound, but for the
-- conversions: an int given to sem_open is read as an unsigned int, and an int stored in the page is
-- cut to a signed char. The walk along the bases of a class is given a height; where the class has an
-- mro no walk is made, and otherwise the height of the chain of its bases is to be below it.
--
-- recv is given a round more than there are bytes to come, of which each round takes one at least.
-- The loop over the sizes of a memory map is given as many rounds as bytes are asked for; each round
-- doubles the size. A side reconnects at most 1000 times, as the assertions in the code have it; one
-- time is enough.
--
-- In the sequential functions the other processes act in the spin loop and during a sleep. That they
-- may act between any two accesses is the subject of Interleaving, where a run of a function is one of
-- the runs.
--
-- Not modelled: permission bits, which only decide faults; in the methods of the class, failures of
-- the Python interpreter itself (no memory for an exception object); a failed clock_gettime leaves `ts`
-- unset, which is an arbitrary time; reference counts, and the texts of the errors that a wrong call
-- raises; the set-up for pickling, the decoding of C strings, and the support code that only calls the
-- interpreter; the page at its real address, where the int stands unaligned behind the char. Of the
-- client and the server: the close of a map that is exchanged, which nobody looks at again but for its
-- size; a shortage of memory; the constructors of the managers, of which one unlocks the lock of the manager
-- where the pid in its page is 0 or has ended; MultiProcessManager;
-- the sockets of the network, a partial send, and the loop that connects again;
-- the meaning of the texts of exceptions. Nothing of the rest of the Python code of the repository.
pub mod Prelude
pub mod Machine
pub mod HybridLock
pub mod Interleaving
pub mod Runtime
pub mod ModuleInit
pub mod Protocol
pub mod Registry
pub mod Network
mod Examples
