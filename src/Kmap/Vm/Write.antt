-- ===== src/Kmap/Vm/Write.antt =====
-- A write to the table entry of one address, and what it does to the mappings of the others.
use cezos.Base.{ℕ, ◌==◌, ◌&&◌, ◌≡◌, ◌≢◌, ◌⊎◌, refl, ◌∙◌, ap, List, arith, if◌then◌else◌}
use mathlib.Core.Path.{fun_ext}
use native.Mathlib.Decide.{ℕ_discrete}
use cezos.Mmu.{pdx, ptx, pgnum, pte_addr}
use cezos.Kmap.State.{Kernel, ok, set_word}
use cezos.Kmap.Table.{write_word, check_va2pa, load_pte}
use cezos.Kmap.Entry.{present_of_odd, entry_of-kaddr}
use cezos.Kmap.FreeList.{IsFreeList}
use cezos.Kmap.Vm.{Odd, table, leaf, Maps, IsTable, IsVm, Keeps}

-- Two addresses on different pages.
abbrev pub Apart : ℕ → ℕ → Type 0
Apart w va = (pdx w ≢ pdx va) ⊎ (ptx w ≢ ptx va)

module _ (d self : ℕ) where
  -- A mapping survives where its two entries do.
  Maps-same :
      {s t : Kernel} {w q : ℕ}
      → t.frame d (pdx w) ≡ s.frame d (pdx w)
      → leaf d t w ≡ leaf d s w
      → Maps d s w q
      → Maps d t w q
  Maps-same e f m = record {
    directory = rw e m.directory;
    entry = rw f m.entry;
    target = rw f m.target;
  }

  pub Maps-Keeps :
      {s t : Kernel} {w q : ℕ} → Keeps d self s t → pdx w ≢ self → Maps d s w q → Maps d t w q
  Maps-Keeps {s} {t} {w} keeps ne m =
      let dir = keeps.entries (pdx w) ne m.directory in
      Maps-same {s = s} {t = t} dir
        (ap (λ (e : ℕ). t.frame (pgnum e) (ptx w)) dir ∙ keeps.words (pdx w) (ptx w) ne m.directory)
        m

  -- `check_va2pa` reads what is mapped.
  pub check_va2pa-Maps :
      {s : Kernel} {xs : List ℕ} {va pa : ℕ}
      → IsVm d self s xs
      → pdx va ≢ self
      → Maps d s va pa
      → check_va2pa d va s ≡ ok pa s
  unfolding check_va2pa load_pte
  check_va2pa-Maps {s} {va} vm ne m = rw (
    present_of_odd _ m.directory,
    entry_of-kaddr s (s.frame d (pdx va)) (ptx va) (vm.tables (pdx va) ne m.directory).within,
    present_of_odd _ m.entry,
    m.target,
  )

  module _ {s : Kernel} {xs : List ℕ} (vm : IsVm d self s xs) (va v : ℕ) (ne : pdx va ≢ self)
      (odd : Odd (s.frame d (pdx va))) where
    -- the state after `*pte = v`
    abbrev pub written : Kernel
    written = write_word (table d s (pdx va)) (ptx va) v s

    word :
        (q j : ℕ)
        → written.frame q j
          ≡ (if (q == table d s (pdx va)) && (j == ptx va) then v else s.frame q j)
    unfolding write_word set_word
    word q j = refl

    pub row_same : written.frame d ≡ s.frame d
    row_same = fun_ext λ i. ground (arith, word d i, (vm.tables (pdx va) ne odd).ne_directory)

    count_same : written.pages_count ≡ s.pages_count
    unfolding write_word
    count_same = refl

    IsTable-written : {q : ℕ} → IsTable d s xs q → IsTable d written xs q
    IsTable-written tab = record {
      within = omega (arith, count_same, tab.within);
      ne_directory = tab.ne_directory;
      in_use = tab.in_use;
    }

    free-written : IsFreeList written xs
    unfolding write_word
    free-written = record { chain = vm.free.chain; within = vm.free.within }

    pub written-IsVm : IsVm d self written xs
    written-IsVm = record {
      few = omega (arith, vm.few, count_same);
      free = free-written;
      directory = vm.directory;
      room = rw row_same vm.room;
      tables = rw row_same (λ i ni o. IsTable-written (vm.tables i ni o));
      distinct = rw row_same vm.distinct;
    }

    leaf_row : (w : ℕ) → leaf d written w ≡ written.frame (table d s (pdx w)) (ptx w)
    leaf_row w = ap (λ (row : ℕ → ℕ). written.frame (pgnum (row (pdx w))) (ptx w)) row_same

    pub leaf-written : leaf d written va ≡ v
    leaf-written = leaf_row va ∙ ground (arith, word (table d s (pdx va)) (ptx va))

    leaf-other :
        (w : ℕ)
        → pdx w ≢ self
        → Odd (s.frame d (pdx w))
        → Apart w va
        → leaf d written w ≡ leaf d s w
    leaf-other w nw ow apart = leaf_row w ∙ elim (ℕ_discrete (pdx w) (pdx va)) [
      | yes e ↦ ground (arith, word (table d s (pdx w)) (ptx w))
      | no e ↦
          ground
            (arith, word (table d s (pdx w)) (ptx w), vm.distinct (pdx w) (pdx va) nw ne e ow odd)
    ]

    pub written-Odd : Odd (written.frame d (pdx va))
    written-Odd = rw row_same odd

    pub Maps-written_other :
        {w q : ℕ} → pdx w ≢ self → Apart w va → Maps d s w q → Maps d written w q
    Maps-written_other {w} nw apart m =
        Maps-same {s = s} {t = written} (ap (λ (row : ℕ → ℕ). row (pdx w)) row_same)
          (leaf-other w nw m.directory apart) m

    pub Maps-written : {pa : ℕ} → Odd v → pte_addr v ≡ pa → Maps d written va pa
    Maps-written ov target = record {
      directory = rw row_same odd;
      entry = rw leaf-written ov;
      target = rw leaf-written target;
    }
