-- ===== src/Heap/Layout.antt =====
-- How the blocks fill the heap, and what `kmalloc` does to them.
use anaga.Prelude.{
  get_elem?, some, ℕ, ◌+◌, ◌-◌, ◌^◌, ◌≤◌, ◌<◌, ◌≡◌, ◌≢◌, ◌⊎◌, ap, refl, inl, inr, List, [], ◌∷◌,
  ◌++◌, true, false, ◌&&◌, arith, ◌==◌, ltb, leb, Bool-cases,
}
use anaga.Heap.{
  kernel_heap_start, kernel_heap_size, header_size, Block, kheap_init, round_up, split_block,
  first_fit, kmalloc,
}

-- The blocks fill the memory from `start` up to `end`.
unfoldable pub Tiles : ℕ → ℕ → List Block → Type 0
Tiles start end [] = start ≡ end
Tiles start end (b ∷ next) = (b.addr ≡ start) × Tiles (start + header_size + b.size) end next

-- A block that is in use, of at least `size` bytes, whose memory begins at `ptr`.
unfoldable pub Holds : ℕ → ℕ → List Block → Type 0
Holds ptr size [] = ⊥
Holds ptr size (b ∷ next) =
    ((b.addr + header_size ≡ ptr) × (b.free ≡ false) × (size ≤ b.size)) ⊎ Holds ptr size next

-- No block is free and large enough.
unfoldable pub IsFull : ℕ → List Block → Type 0
IsFull size [] = Unit {0}
IsFull size (b ∷ next) = ((b.free ≡ true) → b.size < size) × IsFull size next

split_block-Tiles :
    (b : Block) (size start end : ℕ) (next : List Block)
    → size ≤ b.size
    → Tiles start end (b ∷ next)
    → Tiles start end (split_block b size next)
unfolding split_block Tiles
split_block-Tiles b size start end next h (at, rest) =
    elim (Bool-cases (ltb (size + header_size) b.size)) [
      | inl e ↦
          let fit : size + header_size < b.size = ground arith in
          let same : start + header_size + size + header_size + (b.size - size - header_size)
              ≡ start + header_size + b.size =
            omega arith in
          rw e (at, (omega arith, rw same rest))
      | inr e ↦ rw e (at, rest)
    ]

first_fit-Tiles :
    (size start end : ℕ) (heap : List Block)
    → Tiles start end heap
    → Tiles start end (first_fit size heap).1
unfolding first_fit Tiles
first_fit-Tiles size start end [] h = h
first_fit-Tiles size start end (b ∷ next) (at, rest) =
    elim (Bool-cases (b.free && leb size b.size)) [
      | inl e ↦
          let fits : size ≤ b.size = ground arith in
          rw e (split_block-Tiles b size start end next fits (at, rest))
      | inr e ↦ rw e (at, first_fit-Tiles size (start + header_size + b.size) end next rest)
    ]

-- A block is taken for `size` bytes: the first of the free ones that are large enough. It is in use
-- then, and every block that was in use still is, with its size.
pub record Taken (size : ℕ) (heap : List Block) (r : ℕ × List Block) : Type 0 where
  pub front : List Block
  pub block : Block
  pub back : List Block
  pub split : heap ≡ front ++ block ∷ back
  pub passed : IsFull size front
  pub was_free : block.free ≡ true
  pub fits : size ≤ block.size
  pub result : r.0 ≡ block.addr + header_size
  pub held : Holds r.0 size r.1
  pub others : (ptr n : ℕ) → Holds ptr n heap → Holds ptr n r.1

-- The outcome of the search: NULL and the same heap where no free block is large enough, else
-- the first that is.
abbrev pub Outcome : ℕ → List Block → ℕ × List Block → Type 0
Outcome size heap r = ((r.0 ≡ 0) × IsFull size heap × (r.1 ≡ heap)) ⊎ Taken size heap r

split_block-Holds :
    (b : Block) (size : ℕ) (next : List Block)
    → size ≤ b.size
    → Holds (b.addr + header_size) size (split_block b size next)
unfolding split_block Holds
split_block-Holds b size next h = elim (Bool-cases (ltb (size + header_size) b.size)) [
  | inl e ↦ rw e (inl (refl, refl, omega arith))
  | inr e ↦ rw e (inl (refl, refl, h))
]

split_block-others :
    (b : Block) (size : ℕ) (next : List Block) (ptr n : ℕ)
    → b.free ≡ true
    → Holds ptr n (b ∷ next)
    → Holds ptr n (split_block b size next)
unfolding split_block Holds
split_block-others b size next ptr n free (inl k) = absurd (let q = k.1 in cc)
split_block-others b size next ptr n free (inr k) =
    elim (Bool-cases (ltb (size + header_size) b.size)) [
      | inl e ↦ rw e (inr (inr k))
      | inr e ↦ rw e (inr k)
    ]

-- A block in front that is in use or too small.
Taken-cons :
    (size : ℕ) (b : Block) (next : List Block) (r : ℕ × List Block)
    → (b.free ≡ true → b.size < size)
    → Taken size next r
    → Taken size (b ∷ next) (r.0, b ∷ r.1)
unfolding IsFull Holds
Taken-cons size b next r passed t = record {
  front = b ∷ t.front;
  block = t.block;
  back = t.back;
  split = ap (λ l. b ∷ l) t.split;
  passed = (passed, t.passed);
  was_free = t.was_free;
  fits = t.fits;
  result = t.result;
  held = inr t.held;
  others = λ ptr n k. elim k [ inl k ↦ inl k | inr k ↦ inr (t.others ptr n k) ];
}

first_fit-Outcome : (size : ℕ) (heap : List Block) → Outcome size heap (first_fit size heap)
unfolding first_fit IsFull
first_fit-Outcome size [] = inl (refl, tt, refl)
first_fit-Outcome size (b ∷ next) = elim (Bool-cases (b.free && leb size b.size)) [
  | inl e ↦
      let fits : size ≤ b.size = ground arith in
      let free : b.free ≡ true = ground arith in
      rw e (
        inr (record {
          front = [];
          block = b;
          back = next;
          split = refl;
          passed = tt;
          was_free = free;
          fits = fits;
          result = refl;
          held = split_block-Holds b size next fits;
          others = λ ptr n k. split_block-others b size next ptr n free k;
        }))
  | inr e ↦ rw e (elim (first_fit-Outcome size next) [
    | inl n ↦ inl (n.0, ((λ free. ground arith), n.1), ap (λ l. b ∷ l) n.2)
    | inr t ↦ inr (Taken-cons size b next (first_fit size next) (λ free. ground arith) t)
  ])
]

-- A heap before its first use, or one whose blocks fill its memory.
unfoldable pub IsHeap : List Block → Type 0
IsHeap heap = (heap ≡ []) ⊎ Tiles kernel_heap_start (kernel_heap_start + kernel_heap_size) heap

kheap_init-Tiles :
    (heap : List Block)
    → IsHeap heap
    → Tiles kernel_heap_start (kernel_heap_start + kernel_heap_size) (kheap_init heap)
unfolding kheap_init Tiles IsHeap
kheap_init-Tiles [] h = (refl, refl)
kheap_init-Tiles (b ∷ next) (inl e) = cc
kheap_init-Tiles (b ∷ next) (inr h) = h

round_up-le : (size : ℕ) → size + 7 < 2 ^ 32 → size ≤ round_up size
unfolding round_up
round_up-le size h = omega arith

-- `kmalloc` of a size that is not 0, and does not wrap when it is rounded up, keeps the blocks
-- filling the heap, and rounds up to no less than the size. It takes the first free block that is as
-- large as the rounded size, returns where its memory begins, and leaves every block that was in use
-- in use, with its size; or no free block is as large, it returns NULL and the heap is what it was.
pub kmalloc_lem :
    (size : ℕ) (heap : List Block)
    → IsHeap heap
    → size ≢ 0
    → size + 7 < 2 ^ 32
    → IsHeap (kmalloc size heap).1
      × (size ≤ round_up size)
      × Outcome (round_up size) (kheap_init heap) (kmalloc size heap)
unfolding kmalloc IsHeap
kmalloc_lem size heap h ne small =
    let init = kheap_init heap in
    let tiles = kheap_init-Tiles heap h in
    let e : (size == 0) ≡ false = ground arith in
    rw e (
      inr (
          first_fit-Tiles (round_up size) kernel_heap_start (kernel_heap_start + kernel_heap_size)
            init tiles),
      round_up-le size small,
      first_fit-Outcome (round_up size) init,
    )

round_up-wrap : (size : ℕ) → size < 2 ^ 32 → 2 ^ 32 ≤ size + 7 → round_up size ≡ 0
unfolding round_up
round_up-wrap size h k = omega arith

-- For each of the seven greatest sizes of a `size_t`, far beyond the whole heap, `kmalloc` on the
-- unused heap returns the address behind the first header, and that block then has no bytes.
pub kmalloc-wrap :
    (size : ℕ)
    → size < 2 ^ 32
    → 2 ^ 32 ≤ size + 7
    → ((kmalloc size []).0 ≡ kernel_heap_start + header_size)
      × (get_elem? (kmalloc size []).1 0
          ≡ some (record { addr = kernel_heap_start; size = 0; free = false }))
unfolding kmalloc kheap_init first_fit split_block
kmalloc-wrap size h k =
    let e : (size == 0) ≡ false = ground arith in rw (e, round_up-wrap size h k) (refl, refl)
