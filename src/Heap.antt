-- ===== src/Heap.antt =====
-- include/stdlib.h: the kernel's heap, a first-fit allocator over a list of blocks.
pub mod Layout
pub mod Free
use anaga.Prelude.{
  ℕ, zero, suc, ◌+◌, ◌-◌, ◌*◌, ◌/◌, ◌%◌, ◌^◌, List, [], ◌∷◌, Option, none, some, Bool, true, false,
  ◌&&◌, ◌==◌, ltb, leb, if◌then◌else◌,
}

abbrev pub kernel_heap_start : ℕ
kernel_heap_start = 0x100000

abbrev pub kernel_heap_size : ℕ
kernel_heap_size = 0x400000

-- `sizeof(kblock_t)` on the 32-bit target: a `size_t`, an `int` and a pointer
abbrev pub header_size : ℕ
header_size = 12

-- A `kblock_t`, and the address it stands at. The list that the `next` pointers link is a list.
pub record Block : Type 0 where
  pub addr : ℕ
  pub size : ℕ
  pub free : Bool

-- `kheap_init`; `heap_start` is NULL, an empty list here, before the first call.
unfoldable pub kheap_init : List Block → List Block
kheap_init [] =
    record { addr = kernel_heap_start; size = kernel_heap_size - header_size; free = true } ∷ []
kheap_init (b ∷ heap) = b ∷ heap

-- `(size + 7) & ~7` in 32 bits
unfoldable pub round_up : ℕ → ℕ
round_up size = (size + 7) % 2 ^ 32 / 8 * 8

-- What is left behind an allocation of `size` bytes in `b`
abbrev pub new_block : Block → ℕ → Block
new_block b size = record {
  addr = b.addr + header_size + size;
  size = b.size - size - header_size;
  free = true;
}

-- The block that `kmalloc` has found, split where a header fits behind it. `size + sizeof(kblock_t)`
-- does not wrap: `size` is at most the size of the block.
unfoldable pub split_block : Block → ℕ → List Block → List Block
split_block b size next =
    if ltb (size + header_size) b.size
    then (record b { size = size; free = false } ∷ new_block b size ∷ next)
    else record b { free = false } ∷ next

-- The loop of `kmalloc`: the address it returns, 0 for NULL, and the heap.
unfoldable pub first_fit : ℕ → List Block → ℕ × List Block
unfolding split_block
first_fit size [] = (0, [])
first_fit size (b ∷ next) =
    let rest = first_fit size next in
    if b.free && leb size b.size
    then (b.addr + header_size, split_block b size next)
    else (rest.0, b ∷ rest.1)

unfoldable pub kmalloc : ℕ → List Block → ℕ × List Block
unfolding kheap_init round_up first_fit
kmalloc size heap =
    if size == 0 then (0, kheap_init heap) else first_fit (round_up size) (kheap_init heap)

-- `block->free = 1` at the block in front of `ptr`
unfoldable pub release : ℕ → List Block → Option (List Block)
release ptr [] = none
release ptr (b ∷ heap) =
    let rest = release ptr heap in
    if b.addr + header_size == ptr
    then some (record b { free = true } ∷ heap)
    else elim rest [ none ↦ none | some heap' ↦ some (b ∷ heap') ]

-- The loop of `kfree` at `current`: it merges the blocks behind it while they are free, then goes on.
unfoldable pub merge_from : Block → List Block → List Block
merge_from current [] = current ∷ []
merge_from current (b ∷ next) =
    let merged = merge_from (record current { size = current.size + header_size + b.size }) next in
    let kept = current ∷ merge_from b next in if current.free && b.free then merged else kept

unfoldable pub coalesce : List Block → List Block
unfolding merge_from
coalesce [] = []
coalesce (b ∷ next) = merge_from b next

-- `none` is a pointer that `kmalloc` has not returned.
unfoldable pub kfree : ℕ → List Block → Option (List Block)
unfolding release coalesce
kfree ptr heap =
    if ptr == 0
    then some heap
    else elim (release ptr heap) [ none ↦ none | some heap' ↦ some (coalesce heap') ]
