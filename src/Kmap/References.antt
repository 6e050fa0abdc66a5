-- ===== src/Kmap/References.antt =====
-- What the page allocator of kmap.c promises to its clients: references to pages. A client takes a page by
-- page_alloc and counts itself, as get_page_table and proc_init_vm do, counts another reference to a page
-- as insert_page does, and gives a reference back by page_decref, as remove_page does.
pub mod Counted
pub mod Calls
mod Tests
use cezos.Base.{ℕ, suc, ◌+◌, ◌==◌, if◌then◌else◌, List, [], ◌∷◌}
use cezos.Kmap.State.{Cmd, pure, ◌>>=◌, ◌>>◌}
use cezos.Kmap.Pages.{modify, page_alloc, incref, page_decref}
use cezos.Kmap.FreeList.{has}

pub data Call : Type 0 where
  acquire share release : ℕ → Call

-- How often a page is on a list, and the list with one place of the page less.
abbrev pub count : ℕ → List ℕ → ℕ
count p [] = 0
count p (q ∷ xs) = (if p == q then 1 else 0) + count p xs

abbrev pub remove : ℕ → List ℕ → List ℕ
remove p [] = []
remove p (q ∷ xs) = let rest = remove p xs in if p == q then xs else q ∷ rest

-- One call of a client that holds the references of the list, with their new list. A client does not
-- share or release a page that it does not hold.
unfoldable pub perform : Call → List ℕ → Cmd (List ℕ)
perform (acquire flags) held = do p ← page_alloc flags; modify (incref p); pure (p ∷ held)
perform (share p) held =
    if count p held == 0 then pure held else do modify (incref p); pure (p ∷ held)
perform (release p) held =
    if count p held == 0 then pure held else do page_decref p; pure (remove p held)

unfoldable pub perform_all : List Call → List ℕ → Cmd (List ℕ)
perform_all [] held = pure held
perform_all (call ∷ calls) held = perform call held >>= perform_all calls

abbrev pub acquires : List Call → ℕ
acquires [] = 0
acquires (acquire flags ∷ calls) = suc (acquires calls)
acquires (share p ∷ calls) = acquires calls
acquires (release p ∷ calls) = acquires calls
