-- ===== src/Heap/Free.antt =====
-- `kfree`: its search, and its merge of free neighbours.
use anaga.Prelude.{
  ℕ, ◌+◌, ◌≤◌, ◌≡◌, ◌≢◌, ◌⊎◌, ◌∙◌, refl, sym, subst, inl, inr, List, [], ◌∷◌, none, some, true,
  false, ◌&&◌, arith, ◌==◌, Returns, Bool-cases, Option-cases,
}
use anaga.Heap.{
  header_size, kernel_heap_start, kernel_heap_size, Block, release, merge_from, coalesce, kfree,
}
use anaga.Heap.Layout.{Tiles, Holds, IsHeap}

-- The block at the head of the list is in use, or there is none.
HeadUsed : List Block → Type 0
HeadUsed [] = Unit {0}
HeadUsed (b ∷ next) = b.free ≡ false

-- No free block stands in front of a free block.
pub NoPair : List Block → Type 0
NoPair [] = Unit {0}
NoPair (b ∷ next) = ((b.free ≡ false) ⊎ HeadUsed next) × NoPair next

merge_from-Tiles :
    (current : Block) (next : List Block) (start end : ℕ)
    → Tiles start end (current ∷ next)
    → Tiles start end (merge_from current next)
unfolding merge_from Tiles
merge_from-Tiles current [] start end h = h
merge_from-Tiles current (b ∷ next) start end (at, (at_b, rest)) =
    elim (Bool-cases (current.free && b.free)) [
      | inl e ↦
          let same : start + header_size + current.size + header_size + b.size
              ≡ start + header_size + (current.size + header_size + b.size) =
            omega arith in
          rw e (
            merge_from-Tiles (record current { size = current.size + header_size + b.size }) next
              start end (at, rw (sym same) rest))
      | inr e ↦
          rw e (at, merge_from-Tiles b next (start + header_size + current.size) end (at_b, rest))
    ]

merge_from-HeadUsed :
    (current : Block) (next : List Block)
    → current.free ≡ false
    → HeadUsed (merge_from current next)
unfolding merge_from HeadUsed
merge_from-HeadUsed current [] h = h
merge_from-HeadUsed current (b ∷ next) h =
    let kept : (current.free && b.free) ≡ false = ground arith in rw kept h

merge_from-NoPair : (current : Block) (next : List Block) → NoPair (merge_from current next)
unfolding merge_from NoPair HeadUsed
merge_from-NoPair current [] = (inr tt, tt)
merge_from-NoPair current (b ∷ next) = elim (Bool-cases (current.free && b.free)) [
  | inl e ↦
      rw e (merge_from-NoPair (record current { size = current.size + header_size + b.size }) next)
  | inr e ↦ rw e (
    elim (Bool-cases current.free) [
      | inl c ↦ inr (merge_from-HeadUsed b next (ground arith))
      | inr c ↦ inl c
    ],
    merge_from-NoPair b next,
  )
]

merge_from-Holds :
    (current : Block) (next : List Block) (ptr size : ℕ)
    → Holds ptr size (current ∷ next)
    → Holds ptr size (merge_from current next)
unfolding merge_from Holds
merge_from-Holds current [] ptr size h = h
merge_from-Holds current (b ∷ next) ptr size h = elim (Bool-cases (current.free && b.free)) [
  | inl e ↦
      let merged = record current { size = current.size + header_size + b.size } in
      rw e (
        merge_from-Holds merged next ptr size (elim h [
          | inl k ↦ absurd (let q = k.1 in ground arith)
          | inr (inl k) ↦ absurd (let q = k.1 in ground arith)
          | inr (inr k) ↦ inr k
        ]))
  | inr e ↦ rw e (elim h [ inl k ↦ inl k | inr k ↦ inr (merge_from-Holds b next ptr size k) ])
]

release-Tiles :
    (ptr start end : ℕ) (heap : List Block)
    → Tiles start end heap
    → {r : List Block} → release ptr heap ≡ some r
    → Tiles start end r
unfolding release Tiles
release-Tiles ptr start end [] h e = absurd cc
release-Tiles ptr start end (b ∷ next) h {r} e = elim (Bool-cases (b.addr + header_size == ptr)) [
  | inl here ↦
      let q : some (record b { free = true } ∷ next) ≡ some r = rw here at e in
      let same : record b { free = true } ∷ next ≡ r = cc in subst (Tiles start end) same h
  | inr past ↦ elim (Option-cases (release ptr next)) [
    | inl n ↦ absurd (let q : none ≡ some r = rw (past, n) at e in cc)
    | inr (next', n) ↦
        let q : some (b ∷ next') ≡ some r = rw (past, n) at e in
        let same : b ∷ next' ≡ r = cc in
        subst (Tiles start end) same
          (h.0, release-Tiles ptr (start + header_size + b.size) end next h.1 n)
  ]
]

-- A free block has the `n` bytes from `ptr` on.
unfoldable pub IsFree : ℕ → ℕ → List Block → Type 0
IsFree ptr n [] = ⊥
IsFree ptr n (b ∷ next) =
    ((b.free ≡ true) × (b.addr + header_size ≤ ptr) × (ptr + n ≤ b.addr + header_size + b.size))
    ⊎ IsFree ptr n next

-- Every block in use begins behind the first header.
Holds-ge :
    (ptr n start end : ℕ) (heap : List Block)
    → Tiles start end heap
    → Holds ptr n heap
    → start + header_size ≤ ptr
unfolding Tiles Holds
Holds-ge ptr n start end [] t h = absurd h
Holds-ge ptr n start end (b ∷ next) (at, rest) (inl k) = omega (arith, at, k.0)
Holds-ge ptr n start end (b ∷ next) (at, rest) (inr k) =
    omega (arith, Holds-ge ptr n (start + header_size + b.size) end next rest k)

-- A pointer that a block in use holds is found, its block becomes free, and the others stay in use.
release-Holds :
    (ptr n start end : ℕ) (heap : List Block)
    → Tiles start end heap
    → Holds ptr n heap
    → (r : List Block) × (release ptr heap ≡ some r)
      × IsFree ptr n r
      × ((other size : ℕ) → other ≢ ptr → Holds other size heap → Holds other size r)
unfolding release Holds IsFree Tiles
release-Holds ptr n start end [] t h = absurd h
release-Holds ptr n start end (b ∷ next) (tile, rest) h =
    elim (Bool-cases (b.addr + header_size == ptr)) [
      | inl here ↦
          let begin : b.addr + header_size ≡ ptr = ground arith in
          (
            record b { free = true } ∷ next,
            rw here,
            elim h [
              | inl k ↦ inl (refl, omega arith, omega (arith, k.2))
              | inr k ↦ absurd (
                  let far = Holds-ge ptr n (start + header_size + b.size) end next rest k in
                  omega arith)
            ],
            λ other size ne k. elim k [ inl k ↦ absurd (ne (sym k.0 ∙ begin)) | inr k ↦ inr k ],
          )
      | inr past ↦ elim h [
        | inl k ↦ absurd (let q = k.0 in ground arith)
        | inr k ↦
            let (next', found, freed, others) =
              release-Holds ptr n (start + header_size + b.size) end next rest k in
            (
              b ∷ next',
              rw (past, found),
              inr freed,
              λ other size ne k. elim k [ inl k ↦ inl k | inr k ↦ inr (others other size ne k) ],
            )
      ]
    ]

Holds-ne_zero : (ptr n : ℕ) (heap : List Block) → Holds ptr n heap → ptr ≢ 0
unfolding Holds
Holds-ne_zero ptr n [] h = absurd h
Holds-ne_zero ptr n (b ∷ next) (inl k) = λ z. let q = k.0 in omega arith
Holds-ne_zero ptr n (b ∷ next) (inr k) = Holds-ne_zero ptr n next k

Tiles-IsHeap :
    (heap : List Block)
    → Tiles kernel_heap_start (kernel_heap_start + kernel_heap_size) heap
    → IsHeap heap
unfolding IsHeap
Tiles-IsHeap heap h = inr h

Holds-Tiles :
    (heap : List Block) (ptr n : ℕ)
    → IsHeap heap
    → Holds ptr n heap
    → Tiles kernel_heap_start (kernel_heap_start + kernel_heap_size) heap
unfolding IsHeap Holds
Holds-Tiles [] ptr n h k = absurd k
Holds-Tiles (b ∷ next) ptr n (inl e) k = cc
Holds-Tiles (b ∷ next) ptr n (inr h) k = h

-- The merges keep what is free free.
merge_from-IsFree :
    (current : Block) (next : List Block) (ptr n start end : ℕ)
    → Tiles start end (current ∷ next)
    → IsFree ptr n (current ∷ next)
    → IsFree ptr n (merge_from current next)
unfolding merge_from IsFree Tiles
merge_from-IsFree current [] ptr n start end t h = h
merge_from-IsFree current (b ∷ next) ptr n start end (at, (at_b, rest)) h =
    elim (Bool-cases (current.free && b.free)) [
      | inl e ↦
          let merged = record current { size = current.size + header_size + b.size } in
          let free : current.free ≡ true = ground arith in
          let same : start + header_size + current.size + header_size + b.size
              ≡ start + header_size + (current.size + header_size + b.size) =
            omega arith in
          rw e (
            merge_from-IsFree merged next ptr n start end (at, rw (sym same) rest)
              (elim h [
                | inl k ↦ inl (free, k.1, omega (arith, k.2))
                | inr (inl k) ↦
                    inl (free, omega (arith, k.1, at_b, at), omega (arith, k.2, at_b, at))
                | inr (inr k) ↦ inr k
              ]))
      | inr e ↦ rw e (elim h [
        | inl k ↦ inl k
        | inr k ↦
            inr (
              merge_from-IsFree b next ptr n (start + header_size + current.size) end (at_b, rest)
                k)
      ])
    ]

-- What `kfree` leaves: the blocks fill the heap, no free block stands in front of a free one, the
-- bytes of the pointer are in a free block, and every other pointer in use stays in use with its size.
pub record Freed (ptr n : ℕ) (heap r : List Block) : Type 0 where
  pub layout : IsHeap r
  pub apart : NoPair r
  pub released : IsFree ptr n r
  pub others : (other size : ℕ) → other ≢ ptr → Holds other size heap → Holds other size r

coalesce-Holds :
    (heap : List Block) (other size : ℕ) → Holds other size heap → Holds other size (coalesce heap)
unfolding coalesce Holds
coalesce-Holds [] other size h = absurd h
coalesce-Holds (b ∷ next) other size h = merge_from-Holds b next other size h

coalesce_lem :
    (start end ptr n : ℕ) (heap : List Block)
    → Tiles start end heap
    → IsFree ptr n heap
    → Tiles start end (coalesce heap) × NoPair (coalesce heap) × IsFree ptr n (coalesce heap)
unfolding coalesce IsFree
coalesce_lem start end ptr n [] h k = absurd k
coalesce_lem start end ptr n (b ∷ next) h k = (
  merge_from-Tiles b next start end h,
  merge_from-NoPair b next,
  merge_from-IsFree b next ptr n start end h k,
)

-- `kfree` of a pointer that a block in use holds returns. The blocks fill the heap still, no free
-- block stands in front of a free block, the bytes that the pointer had are in a free block, and every
-- other pointer in use stays in use with its size.
pub kfree_lem :
    (ptr n : ℕ) (heap : List Block)
    → IsHeap heap
    → Holds ptr n heap
    → Returns (Freed ptr n heap) (kfree ptr heap)
unfolding kfree
kfree_lem ptr n heap h k =
    let first = kernel_heap_start in
    let last = kernel_heap_start + kernel_heap_size in
    let whole = Holds-Tiles heap ptr n h k in
    let (r, found, freed, others) = release-Holds ptr n first last heap whole k in
    let (t, apart, released) =
      coalesce_lem first last ptr n r (release-Tiles ptr first last heap whole found) freed in
    elim (Bool-cases (ptr == 0)) [
      | inl z ↦ absurd (let q = Holds-ne_zero ptr n heap k in ground arith)
      | inr z ↦
          rw (z, found)
            (record {
              layout = Tiles-IsHeap (coalesce r) t;
              apart = apart;
              released = released;
              others = λ other size ne o. coalesce-Holds r other size (others other size ne o);
            })
    ]
