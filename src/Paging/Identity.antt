-- ===== src/Paging/Identity.antt =====
-- How the processor translates an address through the tables that `paging_init` and
-- `paging_map_page` write.
use Prim.Native.Nat.{bit_and, bit_or}
use anaga.Prelude.{
  ℕ, ◌+◌, ◌-◌, ◌*◌, ◌/◌, ◌%◌, ◌^◌, ◌≤◌, ◌<◌, ◌≡◌, refl, ap, ◌∙◌, inl, inr, Option, none, some,
  arith, ◌==◌, if◌then◌else◌, ◌>>=◌, get_elem?, get_elem?_of_lt, get_elem?-set_self, set, ltb,
  ltb-true, ltb-false, store_lem, length, length-set, lt-cases, eq→==, ne→==, Returns, Returns-elim,
}
use anaga.Prelude.Bits.{bit_and-split, bit_or-split, bit_and-zero, bit_or-zero, bit_and-ones}
use anaga.Prelude.Fill.{fill, Filled, fill_lem}
use anaga.Paging.{page_size, page_entries, with_flags, Paging, paging_init}

-- The upper part of a word, and the part below bit 12.
and_page : (h l : ℕ) → h < 2 ^ 20 → l < 4096 → bit_and (h * 4096 + l) 0xFFFFF000 ≡ h * 4096
and_page h l p q =
    bit_and-split 12 h l 0xFFFFF 0 q (omega arith)
    ∙ omega (arith, bit_and-ones 20 h p, bit_and-zero l)

pub and_word : (x : ℕ) → x < 2 ^ 32 → bit_and x 0xFFFFF000 ≡ x / 4096 * 4096
and_word x p =
    ap (λ w. bit_and w 0xFFFFF000) (let e : x ≡ x / 4096 * 4096 + x % 4096 = omega arith in e)
    ∙ and_page (x / 4096) (x % 4096) (omega arith) (omega arith)

pub or_page : (h l m : ℕ) → l < 4096 → m < 4096 → bit_or (h * 4096 + l) m ≡ h * 4096 + bit_or l m
or_page h l m p q =
    let e : bit_or (h * 4096 + l) (0 * 4096 + m) ≡ bit_or h 0 * 4096 + bit_or l m =
      bit_or-split 12 h l 0 m p q in
    omega (
      arith,
      e,
      bit_or-zero h,
      ap (bit_or (h * 4096 + l)) (let z : 0 * 4096 + m ≡ m = omega arith in z),
    )

with_flags_page : (h : ℕ) → with_flags (h * 4096) ≡ h * 4096 + 7
with_flags_page h =
    let start : h * 4096 ≡ h * 4096 + 0 = omega arith in
    ap with_flags start
    ∙ ap (λ x. bit_or (bit_or x 2) 4) (or_page h 0 1 (omega arith) (omega arith))
    ∙ ap (λ x. bit_or x 4) (or_page h 1 2 (omega arith) (omega arith))
    ∙ or_page h 3 4 (omega arith) (omega arith)

-- The processor's translation: the directory's entry for the upper ten bits of an address leads to
-- a page table, whose entry for the next ten bits has the page's frame. The result is `none`, a page
-- fault, where an entry is not present.
unfoldable pub walk : ℕ → Paging → ℕ → Option ℕ
walk base p virt = get_elem? p.page_directory (virt / 2 ^ 22) >>= λ pde.
    get_elem? p.first_page_table (virt / 4096 % 1024) >>= λ pte.
    if pde % 2 == 0
    then none
    else if pde / 4096 * 4096 == base
    then if pte % 2 == 0 then none else some (pte / 4096 * 4096 + virt % 4096)
    else none

-- The directory has one entry, the first page table at `base`.
pub record IsMapped (base : ℕ) (p : Paging) : Type 0 where
  pub entries : length p.page_directory ≡ page_entries
  pub pages : length p.first_page_table ≡ page_entries
  pub first : get_elem? p.page_directory 0 ≡ some (base + 7)
  pub others : (j : ℕ) → 0 < j → j < page_entries → get_elem? p.page_directory j ≡ some 0

-- What a table at an aligned address gives for an address in its range.
pub walk_first :
    (base : ℕ) (p : Paging) (virt pte : ℕ)
    → base % page_size ≡ 0
    → IsMapped base p
    → virt < 0x400000
    → get_elem? p.first_page_table (virt / 4096) ≡ some pte
    → walk base p virt ≡ (if pte % 2 == 0 then none else some (pte / 4096 * 4096 + virt % 4096))
unfolding walk
walk_first base p virt pte h m small at =
    let top : virt / 2 ^ 22 ≡ 0 = omega arith in
    let low : virt / 4096 % 1024 ≡ virt / 4096 = omega arith in
    rw
      (
        top,
        m.first,
        low,
        at,
        ne→== ((base + 7) % 2) 0 (omega arith),
        eq→== ((base + 7) / 4096 * 4096) base (omega arith),
      )
      refl

pub walk_other :
    (base : ℕ) (p : Paging) (virt : ℕ)
    → IsMapped base p
    → 0x400000 ≤ virt
    → virt < 2 ^ 32
    → walk base p virt ≡ none
unfolding walk
walk_other base p virt m high small =
    let (pte, at) =
      get_elem?_of_lt p.first_page_table (virt / 4096 % 1024) (omega (arith, m.pages)) in
    rw (m.others (virt / 2 ^ 22) (omega arith) (omega arith), at) refl

-- `paging_init`, wherever the page table stands at an aligned address, maps every address below 4 MiB
-- to itself, and leaves every other one unmapped.
pub paging_init_lem :
    (base : ℕ) (p : Paging) (virt : ℕ)
    → base % page_size ≡ 0
    → length p.page_directory ≡ page_entries
    → length p.first_page_table ≡ page_entries
    → virt < 2 ^ 32
    → Returns
        (λ q.
          IsMapped base q × (walk base q virt ≡ (if ltb virt 0x400000 then some virt else none)))
        (paging_init base p)
unfolding paging_init
paging_init_lem base p virt h d t small =
    let (table, e, k) =
      Returns-elim (Filled (λ i. with_flags (i * page_size)) page_entries 0 p.first_page_table)
        (fill (λ i. with_flags (i * page_size)) page_entries 0 p.first_page_table)
        (fill_lem (λ i. with_flags (i * page_size)) page_entries 0 p.first_page_table
          (omega (arith, t))) in
    let first = set p.page_directory 0 (with_flags base) in
    let size = length-set p.page_directory 0 (with_flags base) in
    let (directory, e', k') =
      Returns-elim (Filled (λ i. 0) (page_entries - 1) 1 first)
        (fill (λ i. 0) (page_entries - 1) 1 first)
        (fill_lem (λ i. 0) (page_entries - 1) 1 first (omega (arith, size, d))) in
    let q : Paging = record { page_directory = directory; first_page_table = table } in
    let entry : with_flags base ≡ base + 7 =
      ap with_flags (let a : base ≡ base / 4096 * 4096 = omega arith in a)
      ∙ with_flags_page (base / 4096)
      ∙ omega arith in
    let m : IsMapped base q = record {
      entries = k'.size ∙ size ∙ d;
      pages = k.size ∙ t;
      first =
          k'.kept 0 (omega arith)
          ∙ get_elem?-set_self p.page_directory 0 (with_flags base) (omega (arith, d))
          ∙ ap some entry;
      others = λ j lo hi. k'.set j lo (omega arith);
    } in
    rw (e, store_lem p.page_directory 0 (with_flags base) (omega (arith, d)), e')
      (
        m,
        elim (lt-cases virt 0x400000) [
          | inl low ↦
              let at : get_elem? table (virt / 4096) ≡ some (virt / 4096 * 4096 + 7) =
                k.set (virt / 4096) (omega arith) (omega arith)
                ∙ ap some (with_flags_page (virt / 4096)) in
              walk_first base q virt (virt / 4096 * 4096 + 7) h m low at
              ∙ rw
                  (ne→== ((virt / 4096 * 4096 + 7) % 2) 0 (omega arith), ltb-true virt 0x400000 low)
                  (ap some (
                    let whole : (virt / 4096 * 4096 + 7) / 4096 * 4096 + virt % 4096 ≡ virt =
                      omega arith in
                    whole))
          | inr high ↦ rw (ltb-false virt 0x400000 high) (walk_other base q virt m high small)
        ],
      )
