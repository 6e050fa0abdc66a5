-- ===== src/Kmap.antt =====
-- src/kernel/kmap.c and src/kernel/kmap.h, the memory management of the kernel.
pub mod State
pub mod Addr
pub mod Boot
pub mod Pages
pub mod Table
pub mod Entry
pub mod Vm
pub mod FreeList
pub mod Alloc
pub mod Init
pub mod Entrypgdir
pub mod Setup
pub mod Check
pub mod Directory
pub mod Memory
pub mod References
mod Tests
