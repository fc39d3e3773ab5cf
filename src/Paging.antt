-- ===== src/Paging.antt =====
-- mm/paging.h and mm/paging.c: the page directory and its first page table.
pub mod Identity
pub mod Map
use Prim.Native.Nat.{bit_and, bit_or}
use anaga.Prelude.{
  ℕ, ◌*◌, ◌/◌, ◌^◌, ◌-◌, List, Option, none, some, ◌==◌, if◌then◌else◌, ◌>>=◌, get_elem?, store,
}
use anaga.Prelude.Fill.{fill}

abbrev pub page_size : ℕ
page_size = 4096

abbrev pub page_entries : ℕ
page_entries = 1024

abbrev pub page_present : ℕ
page_present = 0x001

abbrev pub page_rw : ℕ
page_rw = 0x002

abbrev pub page_user : ℕ
page_user = 0x004

pub record Paging : Type 0 where
  pub page_directory : List ℕ
  pub first_page_table : List ℕ

-- `entry | PAGE_PRESENT | PAGE_RW | PAGE_USER`
abbrev pub with_flags : ℕ → ℕ
with_flags entry = bit_or (bit_or (bit_or entry page_present) page_rw) page_user

-- `paging_init`, where `base` is the address of `first_page_table`.
unfoldable pub paging_init : ℕ → Paging → Option Paging
paging_init base p = do
  table ← fill (λ i. with_flags (i * page_size)) page_entries 0 p.first_page_table
  first ← store p.page_directory 0 (with_flags base)
  directory ← fill (λ i. 0) (page_entries - 1) 1 first
  some (record { page_directory = directory; first_page_table = table })

-- `pt[pt_idx] = entry;`, where `pt` is `first_page_table` and nothing else.
unfoldable pub store_entry : ℕ → ℕ → ℕ → ℕ → Paging → Option Paging
store_entry base pt pt_idx entry p =
    if pt == base
    then (store p.first_page_table pt_idx entry >>= λ table.
        some (record p { first_page_table = table }))
    else none

unfoldable pub paging_map_page : ℕ → ℕ → ℕ → ℕ → Paging → Option Paging
unfolding store_entry
paging_map_page base virt phys flags p =
    let pt_idx = bit_and (virt / 2 ^ 12) 0x3FF in
    let entry = bit_or (bit_or (bit_and phys 0xFFFFF000) (bit_and flags 0xFFF)) page_present in
    get_elem? p.page_directory (virt / 2 ^ 22) >>= λ pde.
    if bit_and pde page_present == 0
    then some p
    else store_entry base (bit_and pde 0xFFFFF000) pt_idx entry p
