-- ===== src/Kmap/References/Tests.antt =====
-- A client of the allocator on a machine of ten pages, of which 6 and 8 are free.
use cezos.Base.{ℕ, ◌==◌, refl, if◌then◌else◌, some, none, List, [], ◌∷◌, arith}
use cezos.Kmap.State.{Kernel, null_status}
use cezos.Kmap.FreeList.{Ends, stop, link, IsFreeList}
use cezos.Kmap.References.{Call, acquire, share, release, perform_all}
use cezos.Kmap.References.Counted.{IsCounted}
use cezos.Kmap.References.Calls.{perform_all-IsCounted}

abbrev small : Kernel
small = record {
  pages = λ p.
      if p == 6
      then record { next_free = some 8; refs = 0 }
      else if p == 8
      then null_status
      else record { next_free = none; refs = 1 };
  page_free_list = some 6;
  pages_count = 10;
  pages_basemem_count = 4;
  frame = λ p i. 0x97;
  next_free = 0;
  invalidated = [];
}

small-IsFreeList : IsFreeList small (6 ∷ 8 ∷ [])
small-IsFreeList = record {
  chain = link refl refl refl (link refl refl refl stop);
  within = λ p h. ground arith;
}

-- page 6 is taken, shared, given back twice and taken again behind page 8
abbrev calls : List Call
calls = acquire 1 ∷ share 6 ∷ release 6 ∷ acquire 0 ∷ release 6 ∷ release 6 ∷ release 8 ∷ []

perform_all-IsCounted_example :
    Ends
      (λ held t. (left : List ℕ) × IsCounted (6 ∷ 8 ∷ []) small held left t)
      (perform_all calls [] small)
perform_all-IsCounted_example =
    perform_all-IsCounted (6 ∷ 8 ∷ []) calls (omega arith) small-IsFreeList (omega arith)
      (omega arith)
