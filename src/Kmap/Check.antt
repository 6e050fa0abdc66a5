-- ===== src/Kmap/Check.antt =====
-- `check_page_list` of kmap.c: pages of the first 4 MB to the front of the free list, and a pattern in
-- the free pages. The code follows the links; the model does so on fuel, and hangs when it is used up.
pub mod Places
pub mod Split
pub mod Poison
pub mod Parts
pub mod Sorted
mod Tests
use cezos.Base.{
  ℕ, zero, suc, ◌+◌, ◌*◌, ◌^◌, ◌==◌, leb, ltb, if◌then◌else◌, Bool, true, false, Option, none, some,
}
use cezos.Mmu.{pdx, pgnum}
use cezos.Kmap.State.{Kernel, Run, ok, hang, fault, fill_frame}
use cezos.Kmap.Addr.{paddr, page2pa, page2kva}
use cezos.Kmap.Pages.{set_next, set_free_list}
use cezos.Str.Memory.{mask}

-- What the pointers `tp[0]` and `tp[1]` point to: `ps1`, `ps2` or the link of a page.
pub data Place : Type 0 where
  at_ps1 at_ps2 : Place
  at_link : ℕ → Place

-- The kernel, and the variables `ps1` and `ps2`.
pub record Lists : Type 0 where
  pub kernel : Kernel
  pub ps1 : Option ℕ
  pub ps2 : Option ℕ

-- `*tp = q`
unfoldable pub assign : Place → Option ℕ → Lists → Lists
unfolding set_next
assign at_ps1 q st = record st { ps1 = q }
assign at_ps2 q st = record st { ps2 = q }
assign (at_link p) q st = record st { kernel = set_next p q st.kernel }

-- `PDX(paddr) >= pdx_limit`
unfoldable pub is_high : ℕ → ℕ → Bool
unfolding pdx page2pa
is_high pdx_limit p = leb pdx_limit (pdx (page2pa p))

-- `*tp[1] = 0; *tp[0] = ps2`
unfoldable pub close_lists : Place → Place → Lists → Lists
unfolding assign
close_lists tp0 tp1 st = let cut = assign tp1 none st in assign tp0 cut.ps2 cut

-- The first loop from the page `ps` on, and the two assignments behind it.
unfoldable pub split_list : ℕ → ℕ → Option ℕ → Place → Place → Lists → Option Lists
unfolding is_high close_lists
split_list pdx_limit fuel none tp0 tp1 st = some (close_lists tp0 tp1 st)
split_list pdx_limit zero (some p) tp0 tp1 st = none
split_list pdx_limit (suc fuel) (some p) tp0 tp1 st = elim (is_high pdx_limit p) [
  | true ↦
      let st' = assign tp1 (some p) st in
      split_list pdx_limit fuel (st'.kernel.pages p).next_free tp0 (at_link p) st'
  | false ↦
      let st' = assign tp0 (some p) st in
      split_list pdx_limit fuel (st'.kernel.pages p).next_free (at_link p) tp1 st'
]

-- The word that `memset` of an `int` puts everywhere: its bytes in turn.
unfoldable pub fill_word : ℕ → ℕ
unfolding mask
fill_word c = mask c 0 + mask c 1 * 2 ^ 8 + mask c 2 * 2 ^ 16 + mask c 3 * 2 ^ 24

-- `memset(vaddr, 0x97, PAGE_SIZE)` for a page below the limit.
unfoldable pub poison : ℕ → ℕ → Kernel → Run (Unit {0})
unfolding is_high fill_word page2kva
poison pdx_limit p s = if is_high pdx_limit p then ok tt s else elim (page2kva s p) [
  | none ↦ fault
  | some vaddr ↦
      ok tt (record s { frame = fill_frame s.frame (pgnum (paddr vaddr)) (fill_word 0x97) })
]

-- The second loop.
unfoldable pub poison_list : ℕ → ℕ → Option ℕ → Kernel → Run (Unit {0})
unfolding poison
poison_list pdx_limit fuel none s = ok tt s
poison_list pdx_limit zero (some p) s = hang
poison_list pdx_limit (suc fuel) (some p) s = elim (poison pdx_limit p s) [
  | ok _ t ↦ poison_list pdx_limit fuel (t.pages p).next_free t
  | hang ↦ hang
  | fault ↦ fault
]

unfoldable pub check_page_list : ℕ → ℕ → Kernel → Run (Unit {0})
unfolding split_list poison_list set_free_list
check_page_list fuel only_low_memory s =
    if only_low_memory == 1
    then elim (split_list 1 fuel s.page_free_list at_ps1 at_ps2
        (record { kernel = s; ps1 = none; ps2 = none })) [
          | none ↦ hang
          | some st ↦ poison_list 1 fuel st.ps1 (set_free_list st.ps1 st.kernel)
        ]
    else poison_list (if only_low_memory == 0 then 1024 else 1) fuel s.page_free_list s
