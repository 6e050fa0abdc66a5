-- ===== src/Kmap/Memory/Regions.antt =====
-- The three regions of `initialize_memory`, one after the other. The second one is longer than the stack
-- and runs into the third one, which is mapped over it.
use cezos.Base.{ℕ, ◌+◌, ◌-◌, ◌*◌, ◌%◌, ◌≤◌, ◌<◌, ◌≡◌, ◌≢◌, ◌∙◌, refl, true, false, sym, List, arith}
use cezos.Mmu.{
  word_size, page_size, page_table_size, pdx, kernel_base_address, kernel_stack_size, u_pages,
  pte_u, pte_w,
}
use cezos.Kmap.State.{Kernel}
use cezos.Kmap.Addr.{paddr}
use cezos.Kmap.FreeList.{has, Ends, Ends-and_then, Ends-mono}
use cezos.Kmap.Memory.{map_regions, remaining_mem}
use cezos.Kmap.Memory.Listed.{self, is_region, IsReady}
use cezos.Kmap.Vm.{Odd, Maps, IsLow, IsVm, Spare, IsWritable}
use cezos.Kmap.Vm.Region.{Rounds, map_memory_region-Rounds, Apart-pages}

abbrev pub stack_bottom : ℕ
stack_bottom = kernel_base_address - kernel_stack_size

-- The regions are apart from the self map.
pub pages_outside : (j : ℕ) → j < 1024 → pdx (u_pages + j * page_size) ≢ self
unfolding pdx
pages_outside j h = omega arith

pub stack_outside : (j : ℕ) → j < 1024 → pdx (stack_bottom + j * page_size) ≢ self
unfolding pdx
stack_outside j h = omega arith

pub memory_outside : (j : ℕ) → j < 65535 → pdx (kernel_base_address + j * page_size) ≢ self
unfolding pdx
memory_outside j h = omega arith

pages_region : (j : ℕ) → j < 1024 → is_region (pdx (u_pages + j * page_size)) ≡ true
unfolding pdx
pages_region j h = ground arith

stack_region : (j : ℕ) → j < 1024 → is_region (pdx (stack_bottom + j * page_size)) ≡ true
unfolding pdx
stack_region j h = ground arith

memory_region : (j : ℕ) → j < 65535 → is_region (pdx (kernel_base_address + j * page_size)) ≡ true
unfolding pdx
memory_region j h = ground arith

-- Every directory entry that no region uses.
abbrev IsUnused : ℕ → Type 0
IsUnused e = (e < 959) × (e ≢ self) × (e ≢ 956)

module _ (e : ℕ) (unused : IsUnused e) where
  pages_unused : (j : ℕ) → j < 1024 → e ≢ pdx (u_pages + j * page_size)
  unfolding pdx
  pages_unused j h = omega arith

  stack_unused : (j : ℕ) → j < 1024 → e ≢ pdx (stack_bottom + j * page_size)
  unfolding pdx
  stack_unused j h = omega arith

  memory_unused : (j : ℕ) → j < 65535 → e ≢ pdx (kernel_base_address + j * page_size)
  unfolding pdx
  memory_unused j h = omega arith

-- What the three regions make of a directory that maps only itself.
pub record IsMapped (d n pages bootstack : ℕ) (t : Kernel) : Type 0 where
  pub left : List ℕ
  pub vm : IsVm d self t left
  pub spare : Spare d 1 t left
  pub low : IsLow is_region self (t.frame d) left
  pub page_zero : has 0 left ≡ false
  pub writable : IsWritable d self t
  pub own : Odd (t.frame d self)
  pub unused : (e : ℕ) → IsUnused e → t.frame d e ≡ 0
  pub count : t.pages_count ≡ n
  pub descriptors :
      (j : ℕ) → j < 1024 → Maps d t (u_pages + j * page_size) (paddr pages + j * page_size)
  pub stack :
      (j : ℕ) → j < 8 → Maps d t (stack_bottom + j * page_size) (paddr bootstack + j * page_size)
  pub memory : (j : ℕ) → j < 65535 → Maps d t (kernel_base_address + j * page_size) (j * page_size)

module _ (d n pages bootstack : ℕ) where
  abbrev First : (s : Kernel) → List ℕ → Kernel → Type 0
  First s xs = Rounds d self u_pages (paddr pages) pte_u s xs 0 1024

  abbrev Second : (s : Kernel) → List ℕ → Kernel → Type 0
  Second s xs = Rounds d self stack_bottom (paddr bootstack) pte_u s xs 0 1024

  abbrev Third : (s : Kernel) → List ℕ → Kernel → Type 0
  Third s xs = Rounds d self kernel_base_address 0 pte_w s xs 0 65535

  module _ {s t u v : Kernel} (r : IsReady d n s) (a : First s r.left t) (b : Second t a.left u)
      (c : Third u b.left v) where
    entry-same :
        (e : ℕ)
        → ((j : ℕ) → j < 1024 → e ≢ pdx (u_pages + j * page_size))
        → ((j : ℕ) → j < 1024 → e ≢ pdx (stack_bottom + j * page_size))
        → ((j : ℕ) → j < 65535 → e ≢ pdx (kernel_base_address + j * page_size))
        → v.frame d e ≡ s.frame d e
    entry-same e p q m =
        c.untouched e (λ j lo hi. m j hi)
        ∙ b.untouched e (λ j lo hi. q j hi)
        ∙ a.untouched e (λ j lo hi. p j hi)

    own-entry : v.frame d self ≡ s.frame d self
    own-entry =
        entry-same self (λ j h e. pages_outside j h (sym e)) (λ j h e. stack_outside j h (sym e))
          (λ j h e. memory_outside j h (sym e))

    IsWritable-ready : IsWritable d self s
    IsWritable-ready i ne odd = absurd (omega (arith, r.empty i ne))

    Third-IsMapped : IsMapped d n pages bootstack v
    Third-IsMapped = record {
      left = c.left;
      vm = c.vm;
      spare = c.spare 1 (b.spare 1 (a.spare 1 r.spare));
      low =
          c.low is_region (λ j lo hi. memory_region j (omega arith))
            (b.low is_region (λ j lo hi. stack_region j (omega arith))
              (a.low is_region (λ j lo hi. pages_region j (omega arith)) r.low));
      page_zero = c.out 0 (b.out 0 (a.out 0 r.page_zero));
      writable = c.writable (b.writable (a.writable IsWritable-ready));
      own = omega (arith, r.own, own-entry);
      unused = λ e out.
          entry-same e (pages_unused e out) (stack_unused e out) (memory_unused e out)
          ∙ r.empty e out.1;
      count = c.count ∙ b.count ∙ a.count ∙ r.count;
      descriptors = λ j h.
          c.keeps _ _ (pages_outside j h)
            (λ k lo hi. Apart-pages _ _ (omega arith) (omega arith) (omega arith))
            (b.keeps _ _ (pages_outside j h)
              (λ k lo hi. Apart-pages _ _ (omega arith) (omega arith) (omega arith))
              (a.maps j (omega arith) (omega arith)));
      stack = λ j h.
          c.keeps _ _ (stack_outside j (omega arith))
            (λ k lo hi. Apart-pages _ _ (omega arith) (omega arith) (omega arith))
            (b.maps j (omega arith) (omega arith));
      memory = λ j h.
          let same : 0 + j * page_size ≡ j * page_size = omega arith in
          rw same at (c.maps j (omega arith) (omega arith));
    }

  -- From a directory that maps only itself, with free pages for the tables, the three calls end. The
  -- descriptors, the eight pages of the stack and memory from KERNEL_BASE_ADDRESS on but for the
  -- last page are then mapped.
  pub map_regions-IsMapped :
      {s : Kernel}
      → IsReady d n s
      → paddr pages % 4096 ≡ 0
      → paddr pages + page_table_size ≤ word_size
      → paddr bootstack % 4096 ≡ 0
      → paddr bootstack + page_table_size ≤ word_size
      → Ends (λ _. IsMapped d n pages bootstack) (map_regions d pages bootstack s)
  unfolding map_regions
  map_regions-IsMapped r aligned low aligned' low' =
      Ends-and_then
        (map_memory_region-Rounds d self u_pages (paddr pages) page_table_size pte_u r.vm aligned
          (omega arith) (omega arith) low pages_outside)
        λ _ t a.
          Ends-and_then
            (map_memory_region-Rounds d self stack_bottom (paddr bootstack) page_table_size pte_u
              a.vm aligned' (omega arith) (omega arith) low' stack_outside)
            λ _ u b.
              Ends-mono
                (map_memory_region-Rounds d self kernel_base_address 0 remaining_mem pte_w b.vm refl
                  (omega arith) (omega arith) (omega arith) memory_outside)
                λ _ v c. Third-IsMapped r a b c
