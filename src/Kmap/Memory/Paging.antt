-- ===== src/Kmap/Memory/Paging.antt =====
-- The flags that `initialize_memory` leaves in the control register CR0.
use cezos.Base.{ℕ, ◌/◌, ◌%◌, ◌^◌, ◌≡◌, ◌∙◌, min, max, arith}
use cezos.Bits.{flags_digit}
use cezos.Kmap.Memory.{Control, enable_paging}

-- PE, MP, NE, WP, AM and PG are set, EM and TS are not.
pub record IsEnabled (c : Control) : Type 0 where
  pub pe : c.cr0 / 2 ^ 0 % 2 ≡ 1
  pub mp : c.cr0 / 2 ^ 1 % 2 ≡ 1
  pub em : c.cr0 / 2 ^ 2 % 2 ≡ 0
  pub ts : c.cr0 / 2 ^ 3 % 2 ≡ 0
  pub ne : c.cr0 / 2 ^ 5 % 2 ≡ 1
  pub wp : c.cr0 / 2 ^ 16 % 2 ≡ 1
  pub am : c.cr0 / 2 ^ 18 % 2 ≡ 1
  pub pg : c.cr0 / 2 ^ 31 % 2 ≡ 1

on : (x : ℕ) → min (max (x % 2) 1) 1 ≡ 1
on x = omega arith

off : (x : ℕ) → min (max (x % 2) 0) 0 ≡ 0
off x = omega arith

pub enable_paging-IsEnabled :
    (kern_page_directory : ℕ) (c : Control) → IsEnabled (enable_paging kern_page_directory c)
unfolding enable_paging
enable_paging-IsEnabled kern_page_directory c = record {
  pe = flags_digit 0 c.cr0 0x8005_0023 0xffff_fff3 ∙ on (c.cr0 / 2 ^ 0);
  mp = flags_digit 1 c.cr0 0x8005_0023 0xffff_fff3 ∙ on (c.cr0 / 2 ^ 1);
  em = flags_digit 2 c.cr0 0x8005_0023 0xffff_fff3 ∙ off (c.cr0 / 2 ^ 2);
  ts = flags_digit 3 c.cr0 0x8005_0023 0xffff_fff3 ∙ off (c.cr0 / 2 ^ 3);
  ne = flags_digit 5 c.cr0 0x8005_0023 0xffff_fff3 ∙ on (c.cr0 / 2 ^ 5);
  wp = flags_digit 16 c.cr0 0x8005_0023 0xffff_fff3 ∙ on (c.cr0 / 2 ^ 16);
  am = flags_digit 18 c.cr0 0x8005_0023 0xffff_fff3 ∙ on (c.cr0 / 2 ^ 18);
  pg = flags_digit 31 c.cr0 0x8005_0023 0xffff_fff3 ∙ on (c.cr0 / 2 ^ 31);
}
