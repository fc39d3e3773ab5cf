-- ===== src/Exception/Panic.antt =====
-- What a panic prints.
use anaga.Prelude.{
  zero, suc, subst, ℕ, ◌<◌, ◌^◌, ◌≡◌, ◌∙◌, refl, sym, List, [], ◌∷◌, none, some, get_elem?,
  get_elem?_of_lt, literal, arith, ne→==, ltb-true, Returns-elim,
}
use anaga.CString.Text.{IsCString, IsCString-literal}
use anaga.Display.{Screen, put_all}
use anaga.Display.Safety
use anaga.Display.Printf.{word, str}
use anaga.Display.Format.{Fits}
use anaga.Display.Lines.{formats, Line, Lines, AllFit, print_lines, print_lines_lem}
use anaga.Syscall.{Regs, stops}
use anaga.Exception.{exception_messages, print_regs, kernel_panic, exception_handler}

-- Every register is a word.
pub record AreWords (r : Regs) : Type 0 where
  pub gs : r.gs < 2 ^ 32
  pub fs : r.fs < 2 ^ 32
  pub es : r.es < 2 ^ 32
  pub ds : r.ds < 2 ^ 32
  pub edi : r.edi < 2 ^ 32
  pub esi : r.esi < 2 ^ 32
  pub ebp : r.ebp < 2 ^ 32
  pub ebx : r.ebx < 2 ^ 32
  pub edx : r.edx < 2 ^ 32
  pub ecx : r.ecx < 2 ^ 32
  pub eax : r.eax < 2 ^ 32
  pub int_no : r.int_no < 2 ^ 32
  pub err_code : r.err_code < 2 ^ 32
  pub eip : r.eip < 2 ^ 32
  pub cs : r.cs < 2 ^ 32
  pub eflags : r.eflags < 2 ^ 32
  pub useresp : r.useresp < 2 ^ 32
  pub ss : r.ss < 2 ^ 32

-- The report of an exception: its name, and every register that was saved in hexadecimal.
abbrev pub report : List ℕ → Regs → List Line
report msg r =
    formats (literal "\n!!! KERNEL PANIC: %s !!!\n") (str (some msg) ∷ [])
    ∷ formats (literal "INT: 0x%x  ERR: 0x%x\n") (word r.int_no ∷ word r.err_code ∷ [])
    ∷ formats (literal "EIP: 0x%x  CS:  0x%x  EFLAGS: 0x%x\n")
        (word r.eip ∷ word r.cs ∷ word r.eflags ∷ [])
    ∷ formats (literal "EAX: 0x%x  EBX: 0x%x  ECX: 0x%x  EDX: 0x%x\n")
        (word r.eax ∷ word r.ebx ∷ word r.ecx ∷ word r.edx ∷ [])
    ∷ formats (literal "ESI: 0x%x  EDI: 0x%x  EBP: 0x%x\n")
        (word r.esi ∷ word r.edi ∷ word r.ebp ∷ [])
    ∷ formats (literal "UESP:0x%x  SS:  0x%x\n") (word r.useresp ∷ word r.ss ∷ [])
    ∷ formats (literal "DS:  0x%x  ES:  0x%x  FS:  0x%x  GS: 0x%x\n")
        (word r.ds ∷ word r.es ∷ word r.fs ∷ word r.gs ∷ [])
    ∷ []

report-AllFit : (msg : List ℕ) (r : Regs) → IsCString msg → AreWords r → AllFit (report msg r)
unfolding Fits
report-AllFit msg r c w = (
  ((refl, c), tt),
  (
    ((w.int_no, refl), ((w.err_code, refl), tt)),
    (
      ((w.eip, refl), ((w.cs, refl), ((w.eflags, refl), tt))),
      (
        ((w.eax, refl), ((w.ebx, refl), ((w.ecx, refl), ((w.edx, refl), tt)))),
        (
          ((w.esi, refl), ((w.edi, refl), ((w.ebp, refl), tt))),
          (
            ((w.useresp, refl), ((w.ss, refl), tt)),
            (((w.ds, refl), ((w.es, refl), ((w.fs, refl), ((w.gs, refl), tt)))), tt),
          ),
        ),
      ),
    ),
  ),
)

kernel_panic_lines :
    (msg : List ℕ) (r : Regs) (s : Screen)
    → kernel_panic (some msg) (some r) s ≡ print_lines (report msg r) s
unfolding kernel_panic print_regs print_lines
kernel_panic_lines msg r s = refl

AllText : List (List ℕ) → Type 0
AllText [] = Unit
AllText (x ∷ xs) = IsCString x × AllText xs

AllText-get :
    (xs : List (List ℕ)) (i : ℕ) (x : List ℕ) → AllText xs → get_elem? xs i ≡ some x → IsCString x
unfolding AllText
AllText-get [] i x h e = cc
AllText-get (y ∷ ys) zero x h e = let same : y ≡ x = cc e in subst IsCString same h.0
AllText-get (y ∷ ys) (suc i) x h e = AllText-get ys i x h.1 e

messages-AllText : AllText exception_messages
unfolding AllText
messages-AllText = (
  IsCString-literal "Division By Zero",
  (
    IsCString-literal "Debug",
    (
      IsCString-literal "Non Maskable Interrupt",
      (
        IsCString-literal "Breakpoint",
        (
          IsCString-literal "Into Detected Overflow",
          (
            IsCString-literal "Out of Bounds",
            (
              IsCString-literal "Invalid Opcode",
              (
                IsCString-literal "No Coprocessor",
                (
                  IsCString-literal "Double Fault",
                  (
                    IsCString-literal "Coprocessor Segment Overrun",
                    (
                      IsCString-literal "Bad TSS",
                      (
                        IsCString-literal "Segment Not Present",
                        (
                          IsCString-literal "Stack Fault",
                          (
                            IsCString-literal "General Protection Fault",
                            (
                              IsCString-literal "Page Fault",
                              (
                                IsCString-literal "Unknown Interrupt",
                                (
                                  IsCString-literal "Coprocessor Fault",
                                  (
                                    IsCString-literal "Alignment Check",
                                    (
                                      IsCString-literal "Machine Check",
                                      (
                                        IsCString-literal "SIMD Floating-Point Exception",
                                        (
                                          IsCString-literal "Virtualization Exception",
                                          (
                                            IsCString-literal "Reserved",
                                            (
                                              IsCString-literal "Reserved",
                                              (
                                                IsCString-literal "Reserved",
                                                (
                                                  IsCString-literal "Reserved",
                                                  (
                                                    IsCString-literal "Reserved",
                                                    (
                                                      IsCString-literal "Reserved",
                                                      (
                                                        IsCString-literal "Security Exception",
                                                        (
                                                          IsCString-literal "Reserved",
                                                          (
                                                            IsCString-literal "Triple Fault?",
                                                            (IsCString-literal "Reserved", tt),
                                                          ),
                                                        ),
                                                      ),
                                                    ),
                                                  ),
                                                ),
                                              ),
                                            ),
                                          ),
                                        ),
                                      ),
                                    ),
                                  ),
                                ),
                              ),
                            ),
                          ),
                        ),
                      ),
                    ),
                  ),
                ),
              ),
            ),
          ),
        ),
      ),
    ),
  ),
)

-- `exception_handler` of an exception whose number is below 31 halts the processor, after it has
-- printed the name of the exception and the registers; the cursor is on the screen still.
pub exception_handler-panic :
    (memory : ℕ → List ℕ) (r : Regs) (s : Screen)
    → r.int_no < 31
    → AreWords r
    → Safety.IsValid s
    → (msg : List ℕ) × (out : List ℕ) × (s' : Screen) × (get_elem? exception_messages r.int_no
        ≡ some msg)
      × Lines (report msg r) out
      × (put_all out s ≡ some s')
      × Safety.IsValid s'
      × (exception_handler memory r s ≡ some (stops s'))
unfolding exception_handler
exception_handler-panic memory r s low w v =
    let (msg, at) = get_elem?_of_lt exception_messages r.int_no low in
    let c = AllText-get exception_messages r.int_no msg messages-AllText at in
    let (out, lines, e, safe) = print_lines_lem (report msg r) s (report-AllFit msg r c w) v in
    let (s', done, valid) =
      Returns-elim (λ t. Safety.IsValid t) (print_lines (report msg r) s) safe in
    (
      msg,
      out,
      s',
      at,
      lines,
      sym e ∙ done,
      valid,
      rw
          (
            ne→== r.int_no 0x80 (λ e. omega arith),
            ltb-true r.int_no 32 (omega arith),
            at,
            kernel_panic_lines msg r s,
            done,
          )
          refl,
    )

-- `exception_handler` of exception 31 reads behind the end of the table of names, which has 31.
pub exception_handler-reserved :
    (memory : ℕ → List ℕ) (r : Regs) (s : Screen)
    → r.int_no ≡ 31
    → exception_handler memory r s ≡ none
unfolding exception_handler
exception_handler-reserved memory r s e = rw e refl
