-- ===== src/Kmap/Memory/Listed.antt =====
-- The free list that `initialize_memory` makes, as the page tables need it.
use cezos.Base.{
  ◌==◌, leb, ltb, Bool, if◌then◌else◌, Bool-cases, inl, inr, ◌++◌, ℕ, zero, suc, ◌+◌, ◌-◌, ◌/◌, ◌≤◌,
  ◌<◌, ◌||◌, ◌≡◌, ◌≢◌, refl, ap, ◌∙◌, sym, true, false, none, List, [], ◌∷◌, length, arith,
}
use cezos.Mmu.{page_size, pdx, u_virtual_page_table}
use cezos.Kmap.State.{Kernel, and_then}
use cezos.Kmap.Addr.{paddr}
use cezos.Kmap.Addr.Laws.{max_pages}
use cezos.Kmap.Boot.{first_address}
use cezos.Kmap.Pages.{init_pages}
use cezos.Kmap.FreeList.{Ends, Ends-mono, Ends-and_then, has, IsFreeList}
use cezos.Kmap.Init.{push_range, in_range, top, initial_list, Initial, init_pages-Initial}
use cezos.Kmap.Check.{check_page_list}
use cezos.Kmap.Check.Places.{low, high}
use cezos.Kmap.Check.Parts.{sorted, has-sorted, length-sorted}
use cezos.Kmap.Check.Sorted.{Sorted, check_page_list-Sorted}
use cezos.Kmap.Vm.{Odd, absent, wanted, AllLow, IsLow, IsVm, Spare}
use cezos.Kmap.Vm.Absent.{absent-le, absent-eq}

length-push_range : (n i : ℕ) (xs : List ℕ) → length (push_range i n xs) ≡ n + length xs
length-push_range zero i xs = omega arith
length-push_range (suc n) i xs = omega (arith, length-push_range n (i + 1) (i ∷ xs))

-- Directory entry of the self map.
abbrev pub self : ℕ
self = pdx u_virtual_page_table

-- The directory entries of the regions that initialize_memory maps, 66 of them.
abbrev pub is_region : ℕ → Bool
is_region k = k == 956 || leb 959 k

region_count : absent (λ k. if is_region k then 0 else 1) 1024 ≡ 66
unfolding absent
region_count = refl

-- A directory that maps only itself has none of these.
wanted_all : (row : ℕ → ℕ) → ((i : ℕ) → i ≢ self → row i ≡ 0) → wanted is_region row ≡ 66
unfolding pdx
wanted_all row empty =
    absent-eq {f = λ k. if is_region k then 0 else 1} {g = λ k. if is_region k then row k else 1}
      1024
      (λ k lt. elim (Bool-cases (is_region k)) [
        | inl used ↦ rw (used) (empty k (ground arith))
        | inr other ↦ rw (other) refl
      ])
    ∙ region_count

-- How many pages of the first 4 MB the list has.
low-push_range_le : (n i : ℕ) (xs : List ℕ) → length (low xs) ≤ length (low (push_range i n xs))
low-push_range_le zero i xs = omega arith
low-push_range_le (suc n) i xs = ground (arith, low-push_range_le n (i + 1) (i ∷ xs))

low-push_range :
    (n i k : ℕ) (xs : List ℕ)
    → k ≤ n
    → i + k ≤ 1024
    → k + length (low xs) ≤ length (low (push_range i n xs))
low-push_range n i zero xs le below = omega (arith, low-push_range_le n i xs)
low-push_range zero i (suc k) xs le below = absurd (omega arith)
low-push_range (suc n) i (suc k) xs le below =
    let rest = low-push_range n (i + 1) k (i ∷ xs) (omega arith) (omega arith) in
    ground (arith, rest)

AllLow-low : (n : ℕ) (xs ys : List ℕ) → n ≤ length (low xs) → AllLow n (low xs ++ ys)
AllLow-low zero xs ys le = tt
AllLow-low (suc n) [] ys le = absurd (omega arith)
AllLow-low (suc n) (x ∷ xs) ys le = elim (Bool-cases (ltb x 1024)) [
  | inl is_low ↦ rw (is_low) (ground arith, AllLow-low n xs ys (ground arith))
  | inr above ↦ rw (above) (AllLow-low (suc n) xs ys (ground arith))
]

-- A directory `d` that maps only itself, and a free list with a page for every table, and one more.
pub record IsReady (d n : ℕ) (t : Kernel) : Type 0 where
  pub left : List ℕ
  pub vm : IsVm d self t left
  pub spare : Spare d 1 t left
  pub low : IsLow is_region self (t.frame d) left
  pub page_zero : has 0 left ≡ false
  pub own : Odd (t.frame d self)
  pub empty : (i : ℕ) → i ≢ self → t.frame d i ≡ 0
  pub count : t.pages_count ≡ n

-- The state `s` before init_pages, with a directory behind base memory and below the next address of
-- boot_alloc.
module _ (end_bss d : ℕ) (s : Kernel) (unlisted : s.page_free_list ≡ none)
    (behind : s.pages_basemem_count ≤ d) (nonzero : 0 < d)
    (inside : d < paddr (first_address end_bss s) / page_size)
    (near : paddr (first_address end_bss s) / page_size ≤ 1024) (enough : 2049 ≤ s.pages_count)
    (few : s.pages_count ≤ max_pages) (own : Odd (s.frame d self))
    (empty : (i : ℕ) → i ≢ self → s.frame d i ≡ 0)
    (room : 66 + paddr (first_address end_bss s) / page_size
      ≤ 1024 + (s.pages_basemem_count - 1)) where
  abbrev listed : List ℕ
  listed = initial_list end_bss s

  listed-directory : {t : Kernel} → Initial end_bss s t → has d listed ≡ false
  listed-directory init = init.members d ∙ ground arith

  -- Page 0 is never free.
  listed-zero : {t : Kernel} → Initial end_bss s t → has 0 listed ≡ false
  listed-zero init = init.members 0 ∙ ground arith

  listed-IsFreeList : {t : Kernel} → Initial end_bss s t → IsFreeList t listed
  listed-IsFreeList init = record {
    chain = init.chain;
    within = λ p h. omega (arith, init.count, member p (sym (init.members p) ∙ h));
  }
    where
      member :
          (p : ℕ)
          → (in_range (top end_bss s) (s.pages_count - top end_bss s) p
              || in_range 1 (s.pages_basemem_count - 1) p)
            ≡ true
          → p < s.pages_count
      member p h = ground arith

  length-listed : (1025 ≤ length listed) × (length listed ≤ s.pages_count)
  length-listed = omega (
    arith,
    length-push_range (s.pages_count - top end_bss s) (top end_bss s)
        (push_range 1 (s.pages_basemem_count - 1) []),
    length-push_range (s.pages_basemem_count - 1) 1 [],
  )

  low-listed : 66 ≤ length (low listed)
  low-listed = omega (
    arith,
    low-push_range (s.pages_count - top end_bss s) (top end_bss s) (1024 - top end_bss s)
        (push_range 1 (s.pages_basemem_count - 1) []) (omega arith) (omega arith),
    low-push_range (s.pages_basemem_count - 1) 1 (s.pages_basemem_count - 1) [] (omega arith)
        (omega arith),
  )

  Sorted-IsReady :
      {t u : Kernel} → Initial end_bss s t → Sorted t listed u → IsReady d s.pages_count u
  Sorted-IsReady {t} {u} init srt =
      let out = listed-directory init in
      let row : (i : ℕ) → u.frame d i ≡ s.frame d i =
        λ i. srt.cells d i ∙ rw (out, init.memory) refl in
      let count : u.pages_count ≡ s.pages_count =
        ap (λ (k : Kernel). k.pages_count) srt.rest ∙ init.count in
      let none_there : (i : ℕ) → i ≢ self → Odd (u.frame d i) → ⊥ =
        λ i ne odd. omega (arith, row i, empty i ne) in
      record {
        left = sorted listed;
        vm = record {
          few = omega (arith, count);
          free = srt.free;
          directory = has-sorted d listed ∙ out;
          room = omega (arith, absent-le (u.frame d) 1024, length-sorted listed, length-listed);
          tables = λ i ne odd. absurd (none_there i ne odd);
          distinct = λ i j ni nj ne oi oj. absurd (none_there i ni oi);
        };
        low = record {
          tables = λ i ne odd. absurd (none_there i ne odd);
          front =
              rw (wanted_all (u.frame d) (λ i ne. row i ∙ empty i ne))
                (AllLow-low 66 listed (high listed) low-listed);
        };
        spare = omega (arith, absent-le (u.frame d) 1024, length-sorted listed, length-listed);
        page_zero = has-sorted 0 listed ∙ listed-zero init;
        own = omega (arith, row self);
        empty = λ i ne. row i ∙ empty i ne;
        count = count;
      }

  pub list_pages-IsReady :
      Ends
        (λ _. IsReady d s.pages_count)
        (and_then (init_pages end_bss s) (λ _. check_page_list s.pages_count 1))
  list_pages-IsReady = Ends-and_then (init_pages-Initial end_bss s unlisted) λ _ t init.
      Ends-mono
        (check_page_list-Sorted t listed s.pages_count (omega (arith, init.count))
          (listed-IsFreeList init) (omega (arith, length-listed)))
        (λ _ u srt. Sorted-IsReady init srt)
