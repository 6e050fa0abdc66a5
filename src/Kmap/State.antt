-- ===== src/Kmap/State.antt =====
-- The state that kmap.c works on, and the outcomes of its functions.
-- A `struct page_status *` is the index of its element in `pages`, and `none` is NULL. Physical
-- memory is a table: `frame p i` is the 32-bit word `i` of the physical page `p`. A `pde_t *` that
-- is the start of a page is the number of that page. The array `pages` is kept
-- apart from the physical memory that holds it. Information that `cprintf` prints is left out.
use cezos.Base.{ℕ, ◌==◌, ◌&&◌, if◌then◌else◌, Option, none, List}

pub record PageStatus : Type 0 where
  pub next_free : Option ℕ
  pub refs : ℕ

pub record Kernel : Type 0 where
  pub pages : ℕ → PageStatus
  pub page_free_list : Option ℕ
  pub pages_count : ℕ
  pub pages_basemem_count : ℕ
  pub frame : ℕ → ℕ → ℕ
  -- the static `next_free` of `boot_alloc`, 0 for NULL
  pub next_free : ℕ
  -- the addresses given to `invlpg`, newest first
  pub invalidated : List ℕ

-- `hang` is the endless loop of MEM_ERROR_LOOP, `fault` an access through a pointer to no object.
pub data Run (A : Type 0) : Type 0 where
  ok : A → Kernel → Run A
  hang : Run A
  fault : Run A

abbrev pub Cmd : Type 0 → Type 0
Cmd A = Kernel → Run A

abbrev pub pure : {A : Type 0} → A → Cmd A
pure = ok

module _ {A B : Type 0} where
  abbrev pub and_then : Run A → (A → Cmd B) → Run B
  and_then (ok a s) k = k a s
  and_then hang k = hang
  and_then fault k = fault

  infixl 5 ◌>>=◌ ◌>>◌
  abbrev pub ◌>>=◌ : Cmd A → (A → Cmd B) → Cmd B
  m >>= k = λ s. and_then (m s) k

  abbrev pub ◌>>◌ : Cmd A → Cmd B → Cmd B
  m >> n = m >>= λ _. n

abbrev pub get : Cmd Kernel
get s = ok s s

abbrev pub put : Kernel → Cmd (Unit {0})
put s _ = ok tt s

-- An array with one element replaced.
unfoldable pub update {ℓ} : {A : Type ℓ} → (ℕ → A) → ℕ → A → ℕ → A
update f i v j = if j == i then v else f j

-- Physical memory with one word, or with every word of a page, replaced.
unfoldable pub set_word : (ℕ → ℕ → ℕ) → ℕ → ℕ → ℕ → ℕ → ℕ → ℕ
set_word f p i v q j = if (q == p) && (j == i) then v else f q j

unfoldable pub fill_frame : (ℕ → ℕ → ℕ) → ℕ → ℕ → ℕ → ℕ → ℕ
fill_frame f p v q j = if q == p then v else f q j

abbrev pub null_status : PageStatus
null_status = record { next_free = none; refs = 0 }
