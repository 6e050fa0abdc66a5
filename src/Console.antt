-- ===== src/Console.antt =====
-- src/kernel/console.c and src/kernel/console.h, the console of the kernel.
pub mod Ring
pub mod Screen
pub mod Keyboard
pub mod Getc
pub mod Setup
