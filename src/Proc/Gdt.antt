-- ===== src/Proc/Gdt.antt =====
-- The segment descriptors of src/inc/mmu.h and `global_descriptor_table` of proc.c.
use cezos.Base.{ℕ, ◌+◌, ◌*◌, ◌/◌, ◌%◌, ◌^◌, ◌<◌, ◌==◌, ◌≡◌, refl, if◌then◌else◌, arith}

-- `struct Segdesc`
pub record Segdesc : Type 0 where
  pub lim_15_0 : ℕ
  pub base_15_0 : ℕ
  pub base_23_16 : ℕ
  pub kind : ℕ
  pub s : ℕ
  pub dpl : ℕ
  pub p : ℕ
  pub lim_19_16 : ℕ
  pub avl : ℕ
  pub rsv1 : ℕ
  pub db : ℕ
  pub g : ℕ
  pub base_31_24 : ℕ

-- SEG_NULL
abbrev pub seg_null : Segdesc
seg_null = record {
  lim_15_0 = 0;
  base_15_0 = 0;
  base_23_16 = 0;
  kind = 0;
  s = 0;
  dpl = 0;
  p = 0;
  lim_19_16 = 0;
  avl = 0;
  rsv1 = 0;
  db = 0;
  g = 0;
  base_31_24 = 0;
}

-- SEG, with what the widths of the fields keep; `kind` is the field `type`.
unfoldable pub seg : ℕ → ℕ → ℕ → ℕ → Segdesc
seg kind base lim dpl = record {
  lim_15_0 = lim / 2 ^ 12 % 2 ^ 16;
  base_15_0 = base % 2 ^ 16;
  base_23_16 = base / 2 ^ 16 % 2 ^ 8;
  kind = kind % 2 ^ 4;
  s = 1;
  dpl = dpl % 2 ^ 2;
  p = 1;
  lim_19_16 = lim / 2 ^ 28 % 2 ^ 4;
  avl = 0;
  rsv1 = 0;
  db = 1;
  g = 1;
  base_31_24 = base / 2 ^ 24 % 2 ^ 8;
}

-- `global_descriptor_table`: the indices 0, GD_KERNEL_TEXT, which is the selector 8, GD_KD_INDEX,
-- GD_UT_INDEX, GD_UD_INDEX and GD_TSS_INDEX; the elements between are zero.
unfoldable pub global_descriptor_table : ℕ → Segdesc
unfolding seg
global_descriptor_table i =
    if i == 8
    then seg 10 0 0xffffffff 0
    else if i == 2
    then seg 2 0 0xffffffff 0
    else if i == 3
    then seg 10 0 0xffffffff 3
    else if i == 4
    then seg 2 0 0xffffffff 3
    else seg_null

-- How the processor reads a descriptor: the address of the segment, and its last offset.
unfoldable pub base_of : Segdesc → ℕ
base_of d = d.base_15_0 + d.base_23_16 * 2 ^ 16 + d.base_31_24 * 2 ^ 24

unfoldable pub last_offset : Segdesc → ℕ
last_offset d =
    let lim = d.lim_15_0 + d.lim_19_16 * 2 ^ 16 in if d.g == 1 then lim * 2 ^ 12 + 4095 else lim

-- A descriptor that SEG makes reads back as the base, the limit up to the end of its page, and the
-- privilege level that it was made of.
pub seg-base_of :
    (kind base lim dpl : ℕ)
    → base < 2 ^ 32
    → lim < 2 ^ 32
    → dpl < 4
    → (base_of (seg kind base lim dpl) ≡ base)
      × (last_offset (seg kind base lim dpl) ≡ lim / 4096 * 4096 + 4095)
      × ((seg kind base lim dpl).dpl ≡ dpl)
unfolding seg base_of last_offset
seg-base_of kind base lim dpl hb hl hd = (omega arith, omega arith, omega arith)

-- The element that the selector of the kernel's text, 8, selects.
kernel_text : global_descriptor_table (8 / 8) ≡ seg_null
unfolding global_descriptor_table
kernel_text = refl
