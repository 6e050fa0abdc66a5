-- ===== src/Kmap/Memory/Selftest.antt =====
-- What the steps of `check_kern_pgdir_installed` do to a directory in order.
use cezos.Base.{ℕ, ◌≡◌, ◌≢◌, sym, ap, ◌∙◌, false, List, ◌∷◌, arith, fun_ext}
use cezos.Mmu.{pdx, ptx, pgnum}
use cezos.Kmap.State.{Kernel, fill_frame, null_status}
use cezos.Kmap.FreeList.{has, Chain-cons}
use cezos.Kmap.Alloc.{Allocated, Freed}
use cezos.Kmap.Vm.{table, leaf, Maps, IsVm, Spare}
use cezos.Kmap.Vm.Remove.{IsData}

module _ (d self : ℕ) where
  -- The first two free pages are taken, and the first one is given back.
  pub record IsPair (s : Kernel) (p0 p1 : ℕ) (xs : List ℕ) (t : Kernel) : Type 0 where
    pub vm : IsVm d self t (p0 ∷ xs)
    pub memory : t.frame ≡ s.frame
    pub status : t.pages p1 ≡ null_status
    pub count : t.pages_count ≡ s.pages_count

  pub Freed-IsPair :
      {s t u v : Kernel} {p0 p1 r r' : ℕ} {xs : List ℕ}
      → IsVm d self s (p0 ∷ p1 ∷ xs)
      → Spare d 1 s (p0 ∷ p1 ∷ xs)
      → Allocated 0 s p0 (p1 ∷ xs) r t
      → Allocated 0 t p1 xs r' u
      → Freed u p0 xs v
      → IsPair s p0 p1 xs v
  Freed-IsPair {s} {t} {u} {v} {p0} {p1} {xs = xs} vm spare a b f =
      let memory : v.frame ≡ s.frame = f.memory ∙ b.memory ∙ a.memory in
      let count : v.pages_count ≡ s.pages_count = f.count ∙ b.count ∙ a.count in
      record {
        vm = record {
          few = omega (arith, vm.few, count);
          free = record {
            chain = f.chain;
            within = λ q h. omega (arith, count, vm.free.within q (ground arith));
          };
          directory = ground (arith, vm.directory);
          room = rw memory (omega arith);
          tables = rw memory (λ i ni o. record {
            within = omega (arith, count, (vm.tables i ni o).within);
            ne_directory = (vm.tables i ni o).ne_directory;
            in_use = still_used (table d s i) (vm.tables i ni o).in_use;
          });
          distinct = rw memory vm.distinct;
        };
        memory = memory;
        status = f.others p1 (λ e. new_ne vm (sym e)) ∙ b.cleared;
        count = count;
      }
    where
      still_used : (q : ℕ) → has q (p0 ∷ p1 ∷ xs) ≡ false → has q (p0 ∷ xs) ≡ false
      still_used q h = ground arith

      new_ne : IsVm d self s (p0 ∷ p1 ∷ xs) → p0 ≢ p1
      new_ne vm = ground (arith, (Chain-cons vm.free.chain).2)

  -- A page that is neither the directory nor a table is filled.
  module _ {s : Kernel} {xs : List ℕ} (p w : ℕ) (vm : IsVm d self s xs)
      (own : IsData d self s p) where
    abbrev pub filled : Kernel
    filled = record s { frame = fill_frame s.frame p w }

    pub row-filled : filled.frame d ≡ s.frame d
    unfolding fill_frame
    row-filled = fun_ext λ i. ground (arith, own.ne_directory)

    pub filled-IsVm : IsVm d self filled xs
    filled-IsVm = record {
      few = vm.few;
      free = record { chain = vm.free.chain; within = vm.free.within };
      directory = vm.directory;
      room = rw row-filled vm.room;
      tables = rw row-filled (λ i ni o. record {
        within = (vm.tables i ni o).within;
        ne_directory = (vm.tables i ni o).ne_directory;
        in_use = (vm.tables i ni o).in_use;
      });
      distinct = rw row-filled vm.distinct;
    }

    filled_other : (q j : ℕ) → q ≢ p → filled.frame q j ≡ s.frame q j
    unfolding fill_frame
    filled_other q j ne = ground arith

    pub filled-Maps : {va pa : ℕ} → pdx va ≢ self → Maps d s va pa → Maps d filled va pa
    filled-Maps {va} {pa} ne m =
        let same : leaf d filled va ≡ leaf d s va =
          ap (λ (row : ℕ → ℕ). filled.frame (pgnum (row (pdx va))) (ptx va)) row-filled
          ∙ filled_other (table d s (pdx va)) (ptx va) (own.ne_table (pdx va) ne m.directory) in
        record {
          directory = rw row-filled m.directory;
          entry = rw same m.entry;
          target = rw same m.target;
        }
