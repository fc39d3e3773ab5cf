-- ===== src/Tss/Fields.antt =====
-- The task state segment as a structure, and what the operations make of it.
use anaga.Prelude.{
  ℕ, zero, suc, ◌+◌, ◌<◌, ◌≡◌, refl, ◌∙◌, ap, List, [], ◌∷◌, ◌++◌, some, arith, ◌/◌, ◌%◌, ◌^◌,
  replicate, length, set, store, store_lem, length-append, length-replicate, append-nil, ◌>>=◌,
}
use anaga.Tss.{tss_size, clear_bytes, set_fields, tss_init, tss_set_kernel_stack}

-- `tss_t`
pub record Tss : Type 0 where
  pub prev_tss : ℕ
  pub esp0 : ℕ
  pub ss0 : ℕ
  pub esp1 : ℕ
  pub ss1 : ℕ
  pub esp2 : ℕ
  pub ss2 : ℕ
  pub cr3 : ℕ
  pub eip : ℕ
  pub eflags : ℕ
  pub eax : ℕ
  pub ecx : ℕ
  pub edx : ℕ
  pub ebx : ℕ
  pub esp : ℕ
  pub ebp : ℕ
  pub esi : ℕ
  pub edi : ℕ
  pub es : ℕ
  pub cs : ℕ
  pub ss : ℕ
  pub ds : ℕ
  pub fs : ℕ
  pub gs : ℕ
  pub ldt : ℕ
  pub trap : ℕ
  pub iomap_base : ℕ

abbrev half_bytes : ℕ → List ℕ → List ℕ
half_bytes v rest = v % 2 ^ 8 ∷ v / 2 ^ 8 % 2 ^ 8 ∷ rest

abbrev field : ℕ → List ℕ → List ℕ
field v rest = half_bytes v (half_bytes (v / 2 ^ 16) rest)

-- The bytes of the structure in memory.
unfoldable pub tss_bytes : Tss → List ℕ
tss_bytes t = field t.prev_tss (
    field t.esp0 (
      field t.ss0 (
        field t.esp1 (
          field t.ss1 (
            field t.esp2 (
              field t.ss2 (
                field t.cr3 (
                  field t.eip (
                    field t.eflags (
                      field t.eax (
                        field t.ecx (
                          field t.edx (
                            field t.ebx (
                              field t.esp (
                                field t.ebp (
                                  field t.esi (
                                    field t.edi (
                                      field t.es (
                                        field t.cs (
                                          field t.ss (
                                            field t.ds (
                                              field t.fs (
                                                field t.gs (
                                                  field t.ldt (
                                                    half_bytes t.trap (
                                                      half_bytes t.iomap_base
                                                        []))))))))))))))))))))))))))

-- What the processor finds when it enters the kernel: its stack, and the segments of the kernel and
-- of the user.
pub ready : ℕ → Tss
ready kernel_stack = record {
  prev_tss = 0;
  esp0 = kernel_stack;
  ss0 = 0x10;
  esp1 = 0;
  ss1 = 0;
  esp2 = 0;
  ss2 = 0;
  cr3 = 0;
  eip = 0;
  eflags = 0;
  eax = 0;
  ecx = 0;
  edx = 0;
  ebx = 0;
  esp = 0;
  ebp = 0;
  esi = 0;
  edi = 0;
  es = 0x13;
  cs = 0x0B;
  ss = 0x13;
  ds = 0x13;
  fs = 0x13;
  gs = 0x13;
  ldt = 0;
  trap = 0;
  iomap_base = 104;
}

-- One more zero behind those that are there.
set_behind :
    (i : ℕ) (x : ℕ) (rest : List ℕ)
    → set (replicate i 0 ++ x ∷ rest) i 0 ≡ replicate (suc i) 0 ++ rest
unfolding replicate
set_behind zero x rest = refl
set_behind (suc i) x rest = ap (λ l. 0 ∷ l) (set_behind i x rest)

clear_from :
    (n i : ℕ) (rest : List ℕ)
    → length rest ≡ n
    → clear_bytes n i (replicate i 0 ++ rest) ≡ some (replicate (i + n) 0)
unfolding clear_bytes
clear_from zero i [] h = let e : i + 0 ≡ i = omega arith in rw (e, append-nil)
clear_from zero i (x ∷ rest) h = absurd (omega arith)
clear_from (suc n) i [] h = absurd (omega arith)
clear_from (suc n) i (x ∷ rest) h =
    let inside : i < length (replicate i 0 ++ x ∷ rest) =
      omega (arith, length-append (replicate i 0) (x ∷ rest), length-replicate {A = ℕ} i 0) in
    let next : i + 1 ≡ suc i = omega arith in
    let total : suc i + n ≡ i + suc n = omega arith in
    rw (store_lem (replicate i 0 ++ x ∷ rest) i 0 inside, set_behind i x rest, next)
      (clear_from n (suc i) rest (omega arith) ∙ ap (λ m. some (replicate m 0)) total)

set_fields_lem :
    (kernel_stack : ℕ)
    → set_fields kernel_stack (replicate tss_size 0) ≡ some (tss_bytes (ready kernel_stack))
unfolding set_fields store replicate tss_bytes ready
set_fields_lem k = refl

-- The loop clears every byte, and the assignments write the fields.
pub tss_init_lem :
    (kernel_stack : ℕ) (tss : List ℕ)
    → length tss ≡ tss_size
    → tss_init kernel_stack tss ≡ some (tss_bytes (ready kernel_stack))
unfolding tss_init replicate
tss_init_lem k tss h = rw (clear_from tss_size 0 tss h) (set_fields_lem k)

-- `tss_set_kernel_stack` in the bytes of any segment changes its `esp0` and nothing else.
pub tss_set_kernel_stack_lem :
    (stack : ℕ) (t : Tss)
    → tss_set_kernel_stack stack (tss_bytes t) ≡ some (tss_bytes (record t { esp0 = stack }))
unfolding tss_set_kernel_stack store tss_bytes
tss_set_kernel_stack_lem stack t = refl

-- `tss_init` of any segment makes the bytes of the ready one with that kernel stack, whatever they
-- were, and `tss_set_kernel_stack` behind it makes those of the ready one with the new stack.
pub tss_init-set :
    (kernel_stack stack : ℕ) (tss : List ℕ)
    → length tss ≡ tss_size
    → (tss_init kernel_stack tss ≡ some (tss_bytes (ready kernel_stack)))
      × ((tss_init kernel_stack tss >>= tss_set_kernel_stack stack)
          ≡ some (tss_bytes (ready stack)))
unfolding ready
tss_init-set k stack tss h =
    (tss_init_lem k tss h, rw (tss_init_lem k tss h) (tss_set_kernel_stack_lem stack (ready k)))
