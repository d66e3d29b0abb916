-- ===== src/Lib.antt =====
-- Verification of gulf, the workspace of crates under crates/: alignments, address masks and powers of
-- two, raw pointers and the construction of shared pointers (crates/core), descriptors, error numbers and
-- DMA buffers of Linux (crates/platform-linux), and the channel, the page size and the screen casts of the
-- screen capture (crates/capture-linux).
--
-- How the parts interact. `Mask` is made of `Align` and back, and `Align::round_up_size` uses both;
-- the page size of capture-linux is an `Align`. `AtomicFd` holds the two descriptors of a capture
-- channel; `Errno` is the error of the calls of platform-linux. `unreachable_unchecked!` and
-- `assert_unchecked!` of core stand on the paths that a crate takes to be impossible.
--
-- Which file models which part:
--   Prelude, Word, Checked, Outcome  names shared by all, machine words of any width, the checked and
--       strict operations of Rust's integers, and what a call does: returns, panics or is undefined.
--   Hint  crates/core/src/hint.rs (`ub_checks` and the two macros) and the build: the pointer width and
--       the flags that `ub_checks` reads.
--   Macros, Ty, Abort  crates/core/src/macros.rs, ty.rs and lib.rs: `first!` and `last!`, the type-level
--       assertions that two types are the same, and `abort`.
--   Mem.Repr, Mem.Private  crates/core/src/mem/layout_private.rs: the generated enums by the index of a
--       variant, with a `transmute` that is undefined at a number that is no discriminant; the helpers.
--   Mem.Align, Mem.Layout, Mem.Convert, Mem.Traits  crates/core/src/mem/align.rs: the constructors and
--       accessors of `Align`, the sizes of layouts, and the trait implementations.
--   Mem.Mask  crates/core/src/mem/mask.rs, with `Align::mask`, `from_mask` and `round_up_size`.
--   Mem.Documented  the constants of layout_private.rs that the documentation names, and the assertions of
--       align.rs and mask.rs at compile time.
--   Mem.Types  align.rs: the alignments of types and values, and `AlignError`.
--   Ptr.Metadata  crates/core/src/ptr/metadata.rs: the metadata of C strings, and casts of metadata.
--   Ptr.Pointer  crates/core/src/ptr/pointee.rs and pointer.rs: the pointees, the layout of each, and
--       composing, decomposing and casting pointers; in Typed, the casts that the types allow.
--   Refcount  crates/core/src/arc.rs and rc.rs. Cell is an allocation of the standard library and what a
--       program does with pointers into it, Creation the standard constructor and the state of a call, Arc
--       and Rc the fallible constructors. A call of `init` is the row of events that it causes, in its own
--       thread or another, and how it ends; a schedule has the events at the other points of the code.
--   SliceIter  `core::slice::Iter`, by its documentation: the operations that the iterator over the sources
--       of a screen cast is made of.
--   Ptr.Layout  crates/core/src/ptr/layout.rs and components.rs: a raw pointer as its words.
--   Num.PowerOfTwo  crates/core/src/num/pow2.rs.
--   Platform.AtomicFd  crates/platform-linux/src/atomic_fd.rs: a cell with one access for each method;
--       what is dropped is closed, so a drop returns the raw descriptors that it closes.
--   Platform.Errno  crates/platform-linux/src/errno.rs: `write_message` and `format_message`; in
--       Conversions, the conversions and the comparisons with numbers and with `io::Error`; in Formatting,
--       what is displayed, with the buffers on the stack.
--   Platform.DmaBuf  crates/platform-linux/src/dma_buf.rs: rights, options, flags and the IOCTLs.
--   Platform.CoreDmaBuf  crates/core/src/platform/linux/dma_buf.rs, the same for crates/core, in a module
--       that its lib.rs comments out.
--   Capture.Channel  crates/capture-linux/src/pw/channel.rs: the shared channel and the number of handles
--       at each place of their destructors; `step` makes one shared access of one handle, and `run` any
--       interleaving of them. Open is `channel`, Sequential the uninterrupted destructor, Abstract what a
--       channel promises by its ends alone, Sending `send_many`, SendError the errors of sending and, in
--       Format, how they are written.
--   Capture.Memory  crates/capture-linux/src/memory.rs: `page_size` and its cache; in Conversions, what
--       becomes a `Memory`.
--   Capture.SharedCache  the same cache, and that of the cursor modes of screen.rs, shared by calls: `access` is
--       one access of one call, a load, a question or a store, and `run` any interleaving of them. PageSize
--       and CursorModes are the two clients of one invariant.
--   Capture.Screen  crates/capture-linux/src/screen.rs: the options of a request, the cursor mode and its
--       cache, the sources; in Portal, `run_body`, whose calls of the portal are recorded; in
--       Futures, what is awaited; in Stream, `stream_inner`.
--   Capture.Sources  the same file: `SelectedSources`, and its iterator with every method.
--   Tests modules  runs at concrete inputs.
--
-- Bounds. A `usize` has 16, 32 or 64 bits, as the build says, and every theorem on words is for each of
-- them; a power of two has an exponent below 128. No definition has fuel: every loop is over a list or
-- over the bits of a word.
--
-- Parameters, for code outside the repository: `strerror_r` and the division of bytes into UTF-8 chunks,
-- the IOCTLs of the kernel, `pipe2`, `sysconf` and `fcntl`, the answers of the screen cast portal and the
-- numbers of its sets of modes, how a compiler stores the pointer of a slice, the constructors of
-- `Bytes`, `set` of bitflags, `pw::init`, and what formatters and hashers do. `core::alloc::Layout`,
-- `core::slice::Iter`, `Arc::new_cyclic` and `Rc::new_cyclic`, `io::Error` and the operations of Rust's
-- integers are modelled by their documentation.
--
-- A panic unwinds, as with `panic = "unwind"`; a build that aborts at a panic ends there instead. Offsets in
-- a pointer are counted in words.
--
-- Not modelled: memory orderings, beyond the fences of a loaded count; formatting that the compiler
-- derives; the message buffer of a channel, which the source never uses; crates/core/src/video.rs, one
-- variant, and crates/list, a template; and what is commented out, as all of
-- crates/core/src/platform/linux/ioctl.rs and crates/capture/src/linux.rs is.
pub mod Prelude
pub mod Word
pub mod Outcome
pub mod Checked
pub mod Hint
pub mod Macros
pub mod Ty
pub mod Abort
pub mod Mem
pub mod Num
pub mod Ptr
pub mod Refcount
pub mod SliceIter
pub mod Platform
pub mod Capture
