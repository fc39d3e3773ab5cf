-- ===== src/Tss.antt =====
-- mm/tss.h and mm/tss.c: the task state segment, the 104 bytes of a packed `tss_t`.
pub mod Fields
use anaga.Prelude.{ℕ, zero, suc, ◌+◌, ◌/◌, ◌%◌, ◌^◌, List, Option, some, ◌>>=◌, store}

-- `sizeof(tss)`
abbrev pub tss_size : ℕ
tss_size = 104

-- A 16-bit and a 32-bit field are written in little-endian order at their offset.
unfoldable pub store_half : ℕ → ℕ → List ℕ → Option (List ℕ)
store_half offset v bytes =
    store bytes offset (v % 2 ^ 8) >>= λ b. store b (offset + 1) (v / 2 ^ 8 % 2 ^ 8)

unfoldable pub store_word : ℕ → ℕ → List ℕ → Option (List ℕ)
unfolding store_half
store_word offset v bytes = store_half offset v bytes >>= store_half (offset + 2) (v / 2 ^ 16)

-- `((uint8_t*)&tss)[i] = 0`, `n` rounds from byte `i` on
unfoldable pub clear_bytes : ℕ → ℕ → List ℕ → Option (List ℕ)
clear_bytes zero i tss = some tss
clear_bytes (suc n) i tss = store tss i 0 >>= clear_bytes n (i + 1)

abbrev pub esp0_offset : ℕ
esp0_offset = 4

abbrev pub ss0_offset : ℕ
ss0_offset = 8

abbrev pub es_offset : ℕ
es_offset = 72

abbrev pub cs_offset : ℕ
cs_offset = 76

abbrev pub ss_offset : ℕ
ss_offset = 80

abbrev pub ds_offset : ℕ
ds_offset = 84

abbrev pub fs_offset : ℕ
fs_offset = 88

abbrev pub gs_offset : ℕ
gs_offset = 92

abbrev pub iomap_base_offset : ℕ
iomap_base_offset = 102

-- The assignments behind the loop; of `tss.ss = … = tss.gs = 0x13` the last is made first.
unfoldable pub set_fields : ℕ → List ℕ → Option (List ℕ)
unfolding store_word store_half
set_fields kernel_stack tss = do
  tss ← store_word ss0_offset 0x10 tss
  tss ← store_word esp0_offset kernel_stack tss
  tss ← store_word cs_offset 0x0B tss
  tss ← store_word gs_offset 0x13 tss
  tss ← store_word fs_offset 0x13 tss
  tss ← store_word es_offset 0x13 tss
  tss ← store_word ds_offset 0x13 tss
  tss ← store_word ss_offset 0x13 tss
  store_half iomap_base_offset tss_size tss

unfoldable pub tss_init : ℕ → List ℕ → Option (List ℕ)
tss_init kernel_stack tss = clear_bytes tss_size 0 tss >>= set_fields kernel_stack

unfoldable pub tss_set_kernel_stack : ℕ → List ℕ → Option (List ℕ)
unfolding store_word store_half
tss_set_kernel_stack stack tss = store_word esp0_offset stack tss
