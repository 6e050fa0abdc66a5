-- ===== src/Str/Memory.antt =====
-- The functions of string.c that write, over a memory of bytes: the byte at each address. Addresses
-- are below 2 ^ 32, and no region of the calls goes round at the end of the address space.
pub mod Fill
pub mod Copy
pub mod Strings
pub mod Concat
use cezos.Base.{
  ℕ, zero, suc, ◌+◌, ◌/◌, ◌%◌, ◌*◌, ◌^◌, ◌==◌, if◌then◌else◌, Option, none, some, ◌∷◌, List, [],
}
use cezos.Base.Int.{ℤ, pos, sub_ℕ}

abbrev pub Mem : Type 0
Mem = ℕ → ℕ

abbrev pub poke : Mem → ℕ → ℕ → Mem
poke m a v b = if b == a then v else m b

-- `mask[i % 4]` of `memset`: the bytes of the `int` in turn.
unfoldable pub mask : ℕ → ℕ → ℕ
mask c i = c / 2 ^ (8 * (i % 4)) % 256

-- The loop of `memset` from round `i` on.
unfoldable pub memset_loop : Mem → ℕ → ℕ → ℕ → ℕ → Mem
unfolding mask
memset_loop m p c i zero = m
memset_loop m p c i (suc n) = memset_loop (poke m p (mask c i)) (p + 1) c (i + 1) n

unfoldable pub memset : Mem → ℕ → ℕ → ℕ → Mem
unfolding memset_loop
memset m dst c len = memset_loop m dst c 0 len

-- `memcpy`, byte by byte upwards, and `memmove`, which is a call of it
unfoldable pub memcpy : Mem → ℕ → ℕ → ℕ → Mem
memcpy m dst src zero = m
memcpy m dst src (suc n) = memcpy (poke m dst (m src)) (dst + 1) (src + 1) n

unfoldable pub memmove : Mem → ℕ → ℕ → ℕ → Mem
memmove m dst src len = memcpy m dst src len

unfoldable pub memcmp : Mem → ℕ → ℕ → ℕ → ℤ
memcmp m v1 v2 zero = pos 0
memcmp m v1 v2 (suc len) =
    let rest = memcmp m (v1 + 1) (v2 + 1) len in if m v1 == m v2 then rest else sub_ℕ (m v1) (m v2)

-- `memfind`: the address of the first byte `c`, or the end of the region.
unfoldable pub memfind : Mem → ℕ → ℕ → ℕ → ℕ
memfind m s c zero = s
memfind m s c (suc n) = let rest = memfind m (s + 1) c n in if m s == c % 256 then s else rest

-- `strcpy` and `strncpy`, whose loops run while the source byte is not NUL, on fuel.
unfoldable pub strcpy : ℕ → Mem → ℕ → ℕ → Option Mem
strcpy zero m dst src = none
strcpy (suc fuel) m dst src =
    let rest = strcpy fuel (poke m dst (m src)) (dst + 1) (src + 1) in
    if m src == 0 then some (poke m dst 0) else rest

unfoldable pub strncpy : Mem → ℕ → ℕ → ℕ → Mem
strncpy m dst src zero = poke m dst 0
strncpy m dst src (suc size) =
    let rest = strncpy (poke m dst (m src)) (dst + 1) (src + 1) size in
    if m src == 0 then poke m dst 0 else rest
