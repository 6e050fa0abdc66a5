-- ===== src/Kmap/Check/Tests.antt =====
-- A machine of 2000 pages with the free pages 1500, 6, 1024 and 8, in this order.
use cezos.Base.{ℕ, ◌==◌, refl, if◌then◌else◌, some, [], ◌∷◌, arith}
use cezos.Kmap.State.{PageStatus, Kernel, null_status}
use cezos.Kmap.FreeList.{Ends, stop, link, IsFreeList}
use cezos.Kmap.Check.{check_page_list}
use cezos.Kmap.Check.Sorted.{Sorted, check_page_list-Sorted}

abbrev statuses : ℕ → PageStatus
statuses p =
    if p == 1500
    then record { next_free = some 6; refs = 0 }
    else if p == 6
    then record { next_free = some 1024; refs = 0 }
    else if p == 1024
    then record { next_free = some 8; refs = 0 }
    else null_status

abbrev mixed : Kernel
mixed = record {
  pages = statuses;
  page_free_list = some 1500;
  pages_count = 2000;
  pages_basemem_count = 160;
  frame = λ p i. 0;
  next_free = 0;
  invalidated = [];
}

mixed-IsFreeList : IsFreeList mixed (1500 ∷ 6 ∷ 1024 ∷ 8 ∷ [])
mixed-IsFreeList = record {
  chain =
      link refl refl refl (link refl refl refl (link refl refl refl (link refl refl refl stop)));
  within = λ p h. ground arith;
}

check_page_list-Sorted_example :
    Ends (λ _ t. Sorted mixed (1500 ∷ 6 ∷ 1024 ∷ 8 ∷ []) t) (check_page_list 4 1 mixed)
check_page_list-Sorted_example =
    check_page_list-Sorted mixed (1500 ∷ 6 ∷ 1024 ∷ 8 ∷ []) 4 (omega arith) mixed-IsFreeList
      (omega arith)
