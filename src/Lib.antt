-- ===== src/Lib.antt =====
-- ZXFoundation: a verification library for the nucleus of the kernel under zxfoundation/.
--
-- The parts, and the code that each models (paths from the repository's root):
--   * Base: what all parts share. Base.Results has lib/error.cxxm (`kernel_error`) and
--     `std::expected` as Result; Outcome tells a call that returns from one that stops the kernel
--     (`zx_assert`, `panic`, a null dereference). Base.Bits has `&` and `|` on numbers.
--   * Scoms.Kobject: the object header, its lifecycle and its reference count
--     (zxfoundation/scoms/kobject.zcomponent/ and zxfoundation/base/typestate.cxxm). A header stands
--     in a Heap, a function from addresses, so that two handles can share it. try_get, put,
--     transition and initialize are the functions of these names.
--   * Scoms.Metadata: the metadata of registered objects, with parents, dependents and reclamation
--     (zxfoundation/scoms/metadata.zcomponent/). Metadata.Ops has the operations of core.cxx; an
--     object is the address of its header in the heap of Kobject.
--   * Scoms.Robject: the typed handle of zxfoundation/scoms/kobject.zcomponent/ref.cxxm. Its
--     constructors, destructor, assignments and state conversions take the heap and give it back.
--   * Dgp.Cap: the capability table of zxfoundation/dgp/cap.zcomponent/. Cap.Token has the packed
--     64-bit token (types.cxxm); Cap.Slots has the state and the helpers in `detail` (core.cxx);
--     Cap.Ops has the operations in the order of core.cxx.
--   * Dgp.SyncContract: the contracts of zxfoundation/dgp/sync_contract.zcomponent/, and the claim
--     and the phases of a domain's teardown (zxfoundation/dgp/domain.zcomponent/core.cxx).
--   * Dgp.Isolation: storage keys, from zxfoundation/dgp/isolation.zcomponent/. The key table is a
--     record; the routines that take references to a domain's fields take and give a KeyHolder.
--   * Dgp.Admission: what a domain may ask of the scheduler (the same file, on
--     zxfoundation/sched/policy.cxxm).
--   * Dgp.Roots: the address-space root of a domain and the checks on gates and portals (the same
--     file).
--   * Dgp.Rights and Dgp.Authorize: the rights of a domain and the authorization of operations, with
--     the lease that it gives (zxfoundation/dgp/authorize.zcomponent/).
--   * Dgp.Signal: the ring of signals of a domain and their delivery
--     (zxfoundation/dgp/signal.zcomponent/). A handler is a function of its arguments.
--   * Dgp.MemoryContract: what may be mapped, protected and unmapped
--     (zxfoundation/dgp/memory_contract.zcomponent/).
--   * Memory.Numa: the topology (zxfoundation/memory/numa.zcomponent/): the lookups in Memory.Numa,
--     init with its steps in Numa.Building, resolve_policy in Numa.Policies. A node's record is a
--     function of the node's number.
--   * Memory.Pmm: the physical memory manager (zxfoundation/memory/pmm.zcomponent/core.cxx). Memory.Pmm
--     has what one lock protects, a zone of a node, with buddy_zone and alloc_locked; Pmm.Freeing has
--     free_locked, Pmm.Nodes the choice of the node, Pmm.Cpulists the per-CPU lists and free,
--     Pmm.Frames the pins and identities of frames, Pmm.Reservations what init sets aside. The links
--     of the free blocks are functions of the block's address, so that the lists share the memory.
--     Pmm.Folios has alloc, as the running CPU sees it, and Folios.Transactions the transaction
--     (with zxfoundation/base/transaction.cxxm).
--   * Sched.Cpupri: the index of the CPUs by real-time priority
--     (zxfoundation/sched/cpupri.zcomponent/). A mask of CPUs is a predicate.
--   * Sched.Rt: the real-time class (zxfoundation/sched/rt.zcomponent/): admission, budget and
--     priority inheritance in Sched.Rt, run queues and migration in Rt.Ops. A strand is its address;
--     a run queue is the list of the strands linked in it.
--   * Sched.Classed: the class of a strand and admission by class
--     (zxfoundation/sched/classed.zcomponent/), with deadline::admit as a parameter.
--
-- How they meet: a capability slot holds one counted reference to a header of the heap. Issuing
-- takes it by Kobject.try_get, release and revocation give it back by Kobject.put, and the last put
-- runs the finalizer, a field of the state. Every table operation runs under one lock, so a history
-- is a sequence of whole operations; Cap.Reach lets other kernel code change the heap between them
-- as far as that code owns no reference of the table. The last put of a header looks up the
-- metadata of the object (finalize_last_put); authorization reads the headers of two domains; the
-- real-time class asks Dgp.Admission and Dgp.Rights, and its run queues share the priority index.
--
-- The physical memory manager asks Memory.Numa which nodes may serve memory. The zones of all nodes
-- share the frame table and the links, so Pmm.Nodes takes a zone out of the whole state, works on it
-- as under its lock, and puts it back; a per-CPU list stands beside the zone that it is filled from.
-- alloc tries the list of the running CPU, then the nodes, then a reclaim with the nodes again; the
-- reclaim is an argument that may change the whole state.
--
-- Numbers: machine words are natural numbers with their wrap-around written out (`% 2 ^ w`): the
-- reference count, a key's generation and the number of revocations have 32 bits, a slot's generation
-- and the revocation epoch 16, a token 64.
-- Loops count the rounds left, 1023 for the slots 1 to 1023, 8 or 16 for the keys and 16384 for the
-- entries, the orders from the one asked for up to 10, 16 nodes, and the pages of a CPU's list, so
-- they end by their definition; only signal_deliver_all has rounds of its own, and its
-- theorems say when they are enough.
--
-- Parameters: `kmalloc` (whether it grants the array), the registered lookups and the finalizer,
-- which read the tables of other components, the processor block and the interrupt mask of a
-- snapshot, CONFIG_ZX_MAX_CPUS with the width of a mask and the CPUs that are up, the answer of
-- smt::isolation_violation, which reads the topology, deadline::admit, the boot protocol's maps, the
-- range that the HHDM maps, and whether a caller is in an interrupt. A theorem that needs them says
-- what it assumes.
--
-- Not modelled: interleavings inside one atomic operation or inside the table's lock, weak memory
-- order, the name tables for printing, privileged instructions and device I/O; of the real-time
-- class the period timer and the wake-up that enters sched/core.cxx; of the physical memory manager
-- the walk of init that fills the zones and reserve; of the topology the source of the distance
-- matrix; and the components not named above.
pub mod Base
pub mod Memory
pub mod Sched
pub mod Scoms
pub mod Dgp
