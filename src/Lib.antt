-- ===== src/Lib.antt =====
-- Popcorn, an operating system kernel with its boot loader: a model of its memory allocators, its
-- scheduler, its locks and its font tables, and what they guarantee.
--
-- The kernel boots on a frame allocator that only goes downwards
-- (kernel/src/memory/watermark_allocator.rs), from which the real frame allocator,
-- bitmap_allocator, is set up and told what is taken. Virtual pages come from
-- ranged_btree_allocator, which keeps the regions in use in the map of ranges of ranged_btree.
-- Frames, pages and their arithmetic are those of kernel_api/src/memory. The threads of a
-- processor take turns in kernel/src/threading. Kernel data is guarded by the locks of
-- kernel_api/src/sync: the spinlock, the readers-writer lock, and the cells that are set once.
-- The boot loader draws text with the fonts under fonts/, through LVGL.
--
-- Which file models what, function by function under the source's names in snake_case:
-- RangedBtree is ranged_btree/src/lib.rs: `insert`, `get_entry_at_point`, `remove` and the rest,
-- and `cmp` of its keys; a `BTreeMap` is the list of its entries in the order of `cmp`, keys are
-- numbers. RangedBtreeAllocator is ranged_btree_allocator/src/lib.rs: each method takes the state
-- and returns the outcome with the state after. WatermarkAllocator is the boot allocator: a call
-- returns its outcome and, since an error leaves changes behind, always the state after.
-- BootstrapPages is kernel/src/memory/virtual.rs, which gives out virtual pages until
-- RangedBtreeAllocator can.
-- BitmapAllocator is bitmap_allocator/src/lib.rs, the frame allocator of the running kernel: its
-- bitmap, `allocate_one`, `allocate_at`, `deallocate_contiguous`, `push` and the constructor,
-- with `allocate_contiguous` and its fast and slow paths in BitmapAllocator.Contiguous. Memory is
-- kernel_api/src/memory/{mod,type_ops}.rs: a frame, a page or an address is the number it wraps;
-- the alignment of addresses is Memory.Align.
-- Threading.Scheduler is kernel/src/threading/scheduler.rs with `init` of
-- kernel/src/threading/mod.rs, and Threading.Yield has `IrqCell` and `thread_yield`; Interrupts
-- is the interrupt flag of kernel/src/hal/arch/amd64/mod.rs. Sync.RwLock, Sync.Mutex and
-- Sync.Once are the files of kernel_api/src/sync: threads interleave at each atomic access, and
-- functions say what a round of a loop does with the word it found;
-- `BootstrapOnceLock` is Sync.Once.Bootstrap. Fonts holds
-- fonts/open_sans_48.c, fonts/sf_symbols_48.c and fonts/quicksand_200.c whole, a list of bytes
-- for each glyph, the last one's as runs of equal bytes. Prelude has the shared tests, lists,
-- bits, integers, checked words and outcomes; Tests has runs of the models and the theorems at
-- concrete inputs.
--
-- Words are 64 bits wide. Arithmetic that overflows, `expect`, `unwrap` and `todo!` end in
-- `panic`, as in a build with overflow checks and debug assertions. Loops recur on the list of
-- regions or words, or on the number of rounds that their range has, so no fuel is needed. The
-- mutex around each allocator is not part of it: a call is one step. Memory orderings are not
-- modelled: accesses are interleaved, in one order that all threads see.
--
-- Not modelled: LVGL, whose way to read a character map is a parameter, with its documented
-- format as a hypothesis; the switch of registers and stacks; hardware access, start-up, drawing
-- and the build tools. The list of parts beside this library says what else is still open.
pub mod Prelude
pub mod BootstrapPages
pub mod Fonts
pub mod Interrupts
pub mod Memory
pub mod RangedBtree
pub mod RangedBtreeAllocator
pub mod WatermarkAllocator
pub mod BitmapAllocator
pub mod Sync
pub mod Threading
pub mod Tests
