-- ===== src/Lib.antt =====
-- dcontext carries typed context values along the flow of execution: a store of scoped values per
-- thread, which futures swap in on each poll, which snapshots copy from one place to another, and
-- which wire bytes take to another process. dcontext-dactor does the last two for actor messages.
--
-- The parts, by file, with the code that each is about:
--   Error       dcontext/src/error.rs: ContextError and its texts.
--   Config      dcontext/src/config.rs: the two limits, and check_size.
--   Value       dcontext/src/value.rs: type-erased values. A Rust type is a number, its TypeId. All
--               values are elements of one type D, a parameter of the model.
--   Registry    dcontext/src/registry.rs and macros.rs: Options is RegistrationOptions, Register has
--               do_register_with, do_register_migration and RegistryBuilder, Reads is the view
--               Registry, Globals has the statics FROZEN and BUILD. Outcomes and Phases have theorems.
--               Locks has with_global_registry once more as the steps of threads that interleave,
--               with the mutex of BUILD, and its children are about waiting. UnitTests has the tests
--               of registry.rs.
--   Scope       dcontext/src/scope.rs: ScopeNode, ScopeGarbage, ScopeGuard.
--   Store       dcontext/src/store.rs: ContextStore. Lookup has set_value, get_value and
--               collect_values, Push has push_scope, Pop has pop_scope and Chain has scope_chain.
--               Shape is the well-formedness of a store and Keeps that operations keep it; Rewind is
--               the description of pop_scope without a loop and Rounds its loop round by round;
--               Scoped and Order are about guards, DepthLimit and DeadScopes have two of the tests of
--               store.rs, Visible and Snapshots are about values, Names about the chain of names,
--               Barrier about the field scope_barrier. Spec is the store as a stack of scopes
--               without its representation, and Refines relates the two.
--   Snapshot    dcontext/src/snapshot.rs with capture_with_registry and
--               store_from_snapshot_with_registry of dcontext/src/lib.rs.
--   Wire        dcontext/src/wire.rs: Encode has serialize_from and make_wire_bytes, Decode has
--               deserialize_to_snapshot. Sound, Size, Outcomes, RoundTrip, Migration, Unknown,
--               Safe and Untrusted have theorems.
--   Context     dcontext/src/lib.rs, attach.rs, context_key.rs and try_apply of store.rs: the public
--               functions on the cell of a thread; Typed has those at a type. Variables, Guards and
--               Transfer have theorems. Relay is context that goes through several processes
--               (Limits is their limits), Sent is how serializing ends, Received is bytes of any origin.
--               Reach has the calls of a client as a step relation, Process those of all threads;
--               Typing and TypedReach are about the types of variables. Reentry has the calls once
--               more with the user code that runs inside them: Scripts is sequences of such calls,
--               Busy what they see, Panics what a panic leaves.
--   Future      dcontext/src/future_ext.rs: WithContext and its adapters; Turns and Fair have
--               theorems, on executors that poll by a finite and by an infinite schedule.
--               Unwinding has the poll of a future that may panic.
--   Dactor      dcontext-dactor/src: Headers is header.rs, Outbound is outbound.rs, Inbound is
--               inbound.rs and propagation.rs. Pipeline, Hops, Journey, Policies and Extract
--               have theorems.
--   Samples     samples/src/bin: the example programs, one file each (RegisterMacro is macros.rs).
--               Program has the calls, lines and panics they are made of. Runs, Remote and Local
--               have theorems.
--   Benches     dcontext/benches/context_propagation.rs: what the benchmarks run. Scopes, Tasks and
--               Rounds have theorems.
--   Base        what the code uses of Rust's standard library, and lemmas.
--   Tests       concrete runs.
--
-- How they interact: the public functions of Context take the thread's store out of its cell, apply
-- an operation of Store with the registry that Globals gives, and put the store back. A snapshot is
-- made from collect_values, goes over the wire by Wire, and becomes a store again. The interceptors
-- of Dactor put a snapshot or bytes into the headers, and attach a snapshot to the handler's future.
--
-- How code becomes definitions:
--   - A function that takes &mut self returns the changed state beside its result. A panic is none.
--   - The statics and the thread's cell are arguments; Env has the process-wide ones. A cell that
--     is none is a cell whose store an operation has taken out. Several processes have the
--     same registry and codecs: those of Context.Relay and Dactor.Journey have limits of their own
--     (Context.Limits), two that exchange one message have one Env.
--   - HashMap is an association list, which an insertion changes at the key's place. Theorems on it
--     look keys up, so they do not depend on the order of iteration; where one is about a wire record
--     of two entries, in Samples.Remote, the order is a parameter.
--   - An Arc is its content, since what it holds never changes; the two branches of Arc::try_unwrap
--     in pop_scope then give the same store. A linked list of ScopeNode is a list.
--   - usize has 64 bits and wraps around, in add_usize and sub_usize, as in a release build.
--   - The loop of pop_scope is a recursion on the chain and the depth together. Rounds has it cut
--     off after a number of rounds, with the number that it takes. The decimal digits in Error are on
--     fuel, and the number itself is enough. `nested` of Context.Reentry.Busy has user code inside
--     user code to a depth; what goes deeper panics, as for a stack that overflows, and theorems on
--     it assume that the depth is enough.
--   - A sample is a function of the process and the current thread; println! keeps its format and
--     its arguments apart. A block that is awaited is polled once, by the poll of its wrapper; a
--     thread that is joined at once runs in place, with a cell of its own; the workers of
--     worker_pool run once everything has been sent to them. A task that a benchmark spawns is
--     polled on a thread with any store. How often a closure is measured is a parameter.
--   - In Registry.Locks a thread that locks the mutex that it has locked waits or panics, which is a
--     parameter (Relock): the standard library says only that such a call does not return. FROZEN is
--     read and BUILD is locked in two steps.
--   - MAX_SCOPE_DEPTH is 1024, as in the code.
--
-- Parameters, for code outside the repository: Serde is the codec and name of each type, Bincode
-- the codec of the wire record, HeaderMap the headers of dactor with the laws of a map by type, and
-- the poll functions of user futures; Base64 and Json are crates that the samples use. Theorems that
-- need it assume that bincode reads back what it wrote (ReadsBack) and that codecs decode what they
-- encode (IsInverse), or that one record and its values are read back.
--
-- Not modelled: the mutex of BUILD outside Registry.Locks; what a thread does while its local
-- storage is torn down; a second panic while a first unwinds; tracing output; on_reply and
-- on_complete, which do nothing; the sleeps of the samples and the two interceptors that
-- dactor_propagation makes and does not use; the clock of the benchmarks; the first test of
-- store.rs, and the test suites in tests.rs.
--
-- In the results: a store is well-formed if its depth, its linked scopes, its barrier and the keys
-- of its maps fit together (Store.Shape.IsWellFormed), and well-typed if its values have the types
-- that their keys are registered with (Context.Transfer.IsTyped); a registry is sound if each entry
-- stands under its own key and decodes at its version what it encodes, or is local-only and has no
-- deserializer (Wire.Sound.RegistryIsSound); a value may cross if its key is registered with its
-- type and is not local-only (Context.Transfer.transferable).
pub mod Base
pub mod Error
pub mod Config
pub mod Value
pub mod Registry
pub mod Scope
pub mod Store
pub mod Snapshot
pub mod Wire
pub mod Context
pub mod Future
pub mod Dactor
pub mod Samples
pub mod Benches
pub mod Tests
