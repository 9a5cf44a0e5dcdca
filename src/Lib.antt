-- ===== src/Lib.antt =====
-- Verification of the host-side core of the tensor library iom.
--
-- The library runs language models on several backends. A backend owns one byte range and hands
-- out pieces of it through an allocator (src/alloc.cpp, include/iom/alloc.hpp). A tensor has a
-- shape and a specification (src/tensor.cpp, include/iom/tensor.hpp), which fix its bytes and the
-- slot of each element in the standard layout of 16 x 16 tiles; a view (src/tensor_view.cpp) names
-- planes of a tensor by an offset and a stride for each leading dimension. All sizes go through
-- the checked arithmetic of src/iom_internal.hpp.
--
-- Base holds what the parts share: Boolean tests, lists (Base/Lists), 64-bit words and the results
-- of throwing functions (Base/Words), and bitwise `and` against a power of two (Base/Bits).
--
-- Alloc models src/alloc.cpp.
--   Alloc/Buffer is `SingleBufferAllocatorBase`: Align is about `align_up_addr`, Bounds about the
--   constructor.
--   Alloc/Linear is `LinearAllocator`, with the blocks that it serves in Linear/Serve.
--   Alloc/FreeList is `ListAllocator`: Table is the map of live blocks, Shape the order of free
--   ranges, Amount what a list of ranges adds up to, Scan the search, Inv the invariant, Grant and
--   Keep `alloc`, Release `free`, Canonical the round trip, Bytes the byte count, and History any
--   series of calls.
--   Alloc/Fixed is `FixedSizeAllocator`: Inv is the invariant, Calls `alloc`, Release `free` and
--   `index_of`, History the constructor, `reset` and any series of calls.
--
-- Tensor models the checked arithmetic (Checked), `TensorShape` and `TensorSpec` (Shape, with the
-- counts in Shape/Counts), `standard_plane_slot` and `standard_layout_slot` (Layout; Layout/Slots
-- is about one plane, Layout/Numbers about plane numbers and coordinates, Layout/Planes about a
-- whole tensor), and `TensorView` (View; View/Address says which plane coordinates select,
-- View/Slice, View/Select, View/Permute with View/Scatter, and View/Reshape are about the
-- transforms). The loops of `reshape_leading` from the last dimension to the first are recursion
-- on the list of dimensions.
--
-- Selection models the host side of src/token_selection.cpp: Order is the comparison of finite
-- floating-point values, Scan the choice of the token, Admission the checks of the shape and of
-- the host scratch. A BF16 value is an exact number: its sign and its magnitude in units of the
-- least subnormal of a single.
--
-- Pool models `MetadataSlotPool` of src/shared/metadata_slot_pool.hpp: Inv is its invariant, Held a
-- history of calls, Cleared the release of all protected slots. The condition variable of `acquire`
-- and the addresses of slots are left out.
--
-- Operand models the operand checks of src/device_ops.cpp: Reach is about the greatest plane and the
-- storage, Sound about an accepted view. Tensor/Codes compares data types and formats. A tensor is
-- found under its identity, which stands for its address.
--
-- Binary models the four binary operations of src/device_ops_binary.cpp on top of Operand and
-- Workspace: Broadcast is about the shape of the result, Planes about the strides of a stretched
-- input, Axes about its rows and columns, Reads about a snapshot, Accept about a request. The loops
-- over axes are recursion over the lists of extents, aligned at their ends as the code aligns them.
--
-- Workspace models src/workspace.cpp and `WorkspaceValidation` of src/device_ops.cpp: Ranges is
-- about subranges, Disjoint about an accepted workspace and its operands, which are those of
-- Operand.
--
-- EventRing models `EventRingState` of src/shared/event_ring.hpp, whose submissions hold a completion
-- event and a metadata slot of the pool: Change is the invariant and what keeps it when a submission
-- and its slot change, Steps, Destroy and Acquire are about the operations, History about any series
-- of them up to the drain, Events and Reuse about the events that such a series leaves and gives out
-- again, Drain about the drain, Settle about the metadata slot. The pool is a field of the ring, as
-- the ring holds a pointer to it. A policy of a backend (activation, waiting for an
-- event, the status words) is an argument of the operations that ask it. A submission is a number.
-- The steps of a history have the conditions under which shared/gpu_queue_operations.inl and the
-- worker call the operations: a task marks one of recorded, drained and unknown, and completes once.
--
-- Queue models the admission of operations in src/device_ops.cpp (`DeviceOps`): each function is
-- one section under the queue's mutex. Nodes is the map of admitted sequences, Tokens the encoding
-- of a submission, Pick the choice of the next dispatch, Credits the invariant of the credits,
-- Sections the sections that change them, History any interleaving of sections as a step relation,
-- Complete what a completion changes, Drain the closing of a queue. The step relation keeps the
-- sequence that the pump dispatches beside the queue.
--
-- Tokenizer models encoding and decoding of src/tokenizer.cpp, on texts that are lists of bytes.
-- Utf8 is the check of the input (Utf8/Scalars says what UTF-8 is). Pieces is `decode`: Bytes is
-- about byte pieces, Sizes about the size that is computed first, Decode about the text. Bpe is
-- `apply_encode_bpe`, with a count of its rounds in Bpe/Rounds. Bpe/Greedy says what the merges are
-- meant to be, on lists of ids; Bpe/Heap is about the heap, Bpe/Chain about the linked list,
-- Bpe/Merged, Bpe/Relinked and Bpe/Renamed about a merge, Bpe/Built and Bpe/Listed about the nodes
-- of the initial symbols, Bpe/Start about the first loop, Bpe/Current, Bpe/Invariant, Bpe/Pick and
-- Bpe/Loop about the second, and Bpe/Applied about both. Encode is `encode` and
-- `encode_pair`: Normalize is about the normalizer, Grows about results that are only appended to,
-- Special and Pair about the templates, Symbols and Merged about a span of plain text. The maps of a tokenizer are lookup functions, the limits
-- of the standard containers (`max_size`) are arguments. The priority queue is the list of its
-- entries in order; of entries that the comparison does not tell apart, the one pushed last is on
-- top, which the code leaves open. The rounds of merging are fuel: one for each heap push that the
-- limit of three times the nodes lets through, and one to find the heap empty.
--
-- How the code is read. A `size_t` or `uintptr_t` is a natural number below 2 ^ 64; sums,
-- differences and products wrap around (`add_word`, `sub_word`, `mul_word`), and complement is
-- `max_word - x`. A pointer is its address, and null is 0. A function that throws returns
-- `throws e`, where `e` keeps the exception's class and drops its text; a member function that
-- throws and changes state returns the state beside the result. The hash map of live blocks is an
-- association list; `std::lower_bound` on the sorted ranges is a linear search for the same place;
-- the in-place loop of `coalesce` is recursion that emits a range once it is final. The back of
-- the free stack of `FixedSizeAllocator` is the head of its list. Every loop but the
-- one of merging is structural recursion over its list or its count of rounds. An enumeration has its
-- declared values only, and the checks for other values have no case. A view's owner is a number
-- that stands for the identity of the tensor.
--
-- A failure that a queue keeps is an exception's class.
--
-- Not modelled: failures to allocate inside the standard containers; the host copies of a view,
-- which call a backend; the waiting in a slot pool and in an event ring; the destruction of native
-- events; the lease of a workspace; the other files of src/ (sessions, model loading, the other
-- operations of the queues and the backends); the calls of the queue and the backend in token
-- selection; floating-point arithmetic.
pub mod Base
pub mod Alloc
pub mod Tensor
pub mod Selection
pub mod Pool
pub mod EventRing
pub mod Operand
pub mod Workspace
pub mod Binary
pub mod Queue
pub mod Tokenizer
