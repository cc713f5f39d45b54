-- ===== src/Tests.antt =====
-- Tests by evaluation, and each theorem at a concrete input.

mod FontTables
mod RangeMap
mod PageArithmetic
mod PageAllocator
mod BootAllocator
mod ReadersWriter
mod FrameBitmap
mod OnceCell
mod BootstrapCell
mod Spinlock
mod RunQueue
mod EarlyPages
