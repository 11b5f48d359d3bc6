-- ===== src/Memory.antt =====
-- The address, page, frame and range types of uefi-bootloader/src/memory.rs. The source builds each
-- of them twice by a macro; here the macro's arguments are a section's parameter.
pub mod Address
pub mod Chunk
pub mod Range
mod Tests
