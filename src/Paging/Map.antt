-- ===== src/Paging/Map.antt =====
-- `paging_map_page` in the tables that `paging_init` has made.
use Prim.Native.Nat.{bit_and, bit_or}
use anaga.Prelude.{
  ℕ, ◌+◌, ◌*◌, ◌/◌, ◌%◌, ◌^◌, ◌≤◌, ◌<◌, ◌≡◌, ◌≢◌, refl, sym, ap, ◌∙◌, inl, inr, Option, some, arith,
  ◌==◌, if◌then◌else◌, get_elem?, get_elem?-set_self, get_elem?-set_ne, set, ltb, ltb-true,
  ltb-false, store_lem, length-set, eq-cases, lt-cases, eq→==, ne→==, Returns,
}
use anaga.Prelude.Bits.{bit_and-low, bit_or-one, zero-bit_or}
use anaga.Paging.{page_size, page_present, Paging, paging_map_page, store_entry}
use anaga.Paging.Identity.{and_word, or_page, walk, IsMapped, walk_first, walk_other}

-- The entry that `paging_map_page` writes.
abbrev entry_of : ℕ → ℕ → ℕ
entry_of phys flags = bit_or (bit_or (bit_and phys 0xFFFFF000) (bit_and flags 0xFFF)) page_present

entry_of_value :
    (phys flags : ℕ)
    → phys < 2 ^ 32
    → entry_of phys flags ≡ phys / 4096 * 4096 + (flags % 4096 / 2 * 2 + 1)
entry_of_value phys flags h =
    let low : bit_and flags 0xFFF ≡ flags % 4096 = bit_and-low 12 flags in
    let plain : phys / 4096 * 4096 ≡ phys / 4096 * 4096 + 0 = omega arith in
    let joined : bit_or (phys / 4096 * 4096) (flags % 4096) ≡ phys / 4096 * 4096 + flags % 4096 =
      ap (λ x. bit_or x (flags % 4096)) plain
      ∙ or_page (phys / 4096) 0 (flags % 4096) (omega arith) (omega arith)
      ∙ ap (λ x. phys / 4096 * 4096 + x) (zero-bit_or (flags % 4096)) in
    rw (and_word phys h, low, joined, bit_or-one (phys / 4096 * 4096 + flags % 4096)) (omega arith)

-- What an address translates to, once the page of `virt` is mapped to that of `phys`.
unfoldable pub mapped : ℕ → Paging → ℕ → ℕ → ℕ → Option ℕ
mapped base p virt phys v =
    if ltb virt 0x400000
    then if v / 4096 == virt / 4096 then some (phys / 4096 * 4096 + v % 4096) else walk base p v
    else walk base p v

untouched :
    (base : ℕ) (p : Paging) (virt phys v : ℕ)
    → 0x400000 ≤ virt
    → walk base p v ≡ mapped base p virt phys v
unfolding mapped
untouched base p virt phys v high = rw (ltb-false virt 0x400000 high) refl

IsMapped-set :
    (base : ℕ) (p : Paging) (i entry : ℕ)
    → IsMapped base p
    → IsMapped base (record p { first_page_table = set p.first_page_table i entry })
IsMapped-set base p i entry m = record {
  entries = m.entries;
  pages = length-set p.first_page_table i entry ∙ m.pages;
  first = m.first;
  others = m.others;
}

walk_set_other :
    (base : ℕ) (p : Paging) (i entry v : ℕ)
    → i ≢ v / 4096 % 1024
    → walk base (record p { first_page_table = set p.first_page_table i entry }) v ≡ walk base p v
unfolding walk
walk_set_other base p i entry v ne = rw (get_elem?-set_ne p.first_page_table entry ne) refl

walk_set :
    (base : ℕ) (p : Paging) (virt phys flags v : ℕ)
    → base % page_size ≡ 0
    → IsMapped base p
    → virt < 0x400000
    → phys < 2 ^ 32
    → v < 2 ^ 32
    → walk base
        (record p { first_page_table = set p.first_page_table (virt / 4096) (entry_of phys flags) })
        v
      ≡ mapped base p virt phys v
unfolding mapped
walk_set base p virt phys flags v h m low word small =
    let i = virt / 4096 in
    let q : Paging = record p {
      first_page_table = set p.first_page_table i (entry_of phys flags);
    } in
    let mq = IsMapped-set base p i (entry_of phys flags) m in
    rw (ltb-true virt 0x400000 low) (elim (eq-cases (v / 4096) i) [
      | inl e ↦
          let value = entry_of_value phys flags word in
          let at : get_elem? q.first_page_table (v / 4096) ≡ some (entry_of phys flags) =
            ap (get_elem? q.first_page_table) e
            ∙ get_elem?-set_self p.first_page_table i (entry_of phys flags)
                (omega (arith, m.pages)) in
          walk_first base q v (entry_of phys flags) h mq (omega arith) at
          ∙ rw (eq→== (v / 4096) i e, ne→== (entry_of phys flags % 2) 0 (omega (arith, value)))
              (ap (λ x. some (x + v % 4096))
                (let page : entry_of phys flags / 4096 * 4096 ≡ phys / 4096 * 4096 =
                    omega (arith, value) in
                  page))
      | inr ne ↦ rw (ne→== (v / 4096) i ne) (elim (lt-cases v 0x400000) [
        | inl near ↦ walk_set_other base p i (entry_of phys flags) v (λ e. omega arith)
        | inr far ↦ walk_other base q v mq far small ∙ sym (walk_other base p v m far small)
      ])
    ])

-- `paging_map_page` in tables as `paging_init` leaves them: for a virtual address below 4 MiB, the page
-- of that address translates to the page of the physical one, and every other page as before; for a
-- higher address nothing changes, since no table is there. The tables keep their shape.
pub paging_map_page_lem :
    (base : ℕ) (p : Paging) (virt phys flags v : ℕ)
    → base % page_size ≡ 0
    → base < 2 ^ 32
    → IsMapped base p
    → virt < 2 ^ 32
    → phys < 2 ^ 32
    → v < 2 ^ 32
    → Returns
        (λ q. IsMapped base q × (walk base q v ≡ mapped base p virt phys v))
        (paging_map_page base virt phys flags p)
unfolding paging_map_page store_entry
paging_map_page_lem base p virt phys flags v h below m wide word small =
    elim (lt-cases virt 0x400000) [
      | inl low ↦
          let i = virt / 4096 in
          let index : bit_and (virt / 2 ^ 12) 0x3FF ≡ i =
            bit_and-low 10 (virt / 4096) ∙ omega arith in
          let top : virt / 2 ^ 22 ≡ 0 = omega arith in
          let present : bit_and (base + 7) 1 ≡ 1 = bit_and-low 1 (base + 7) ∙ omega arith in
          let frame : bit_and (base + 7) 0xFFFFF000 ≡ base =
            and_word (base + 7) (omega arith) ∙ omega arith in
          rw
            (
              top,
              m.first,
              present,
              frame,
              eq→== base base refl,
              index,
              store_lem p.first_page_table i (entry_of phys flags) (omega (arith, m.pages)),
            )
            (
              IsMapped-set base p i (entry_of phys flags) m,
              walk_set base p virt phys flags v h m low word small,
            )
      | inr high ↦
          rw (m.others (virt / 2 ^ 22) (omega arith) (omega arith))
            (m, untouched base p virt phys v high)
    ]
