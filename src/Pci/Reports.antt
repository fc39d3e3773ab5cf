-- ===== src/Pci/Reports.antt =====
-- What an action of the scan prints and writes, and how actions follow one another.
use mathlib.Core.Path.{fun_ext}
use anaga.Prelude.{
  ℕ, zero, suc, ◌+◌, ◌<◌, ◌≤◌, ◌≡◌, ◌∙◌, refl, sym, ap, subst, List, [], ◌∷◌, ◌++◌, Option, some,
  ◌>>=◌, bind_assoc, bind-some, arith, append-nil, append_assoc,
}
use anaga.Display.{kprint, Screen}
use anaga.Display.Lines.{
  Line, says, words_sent, words_sent-append, print_lines, print_lines-append, print_with,
  print_with_lem, range_lines,
}
use anaga.Ports.{Ports}
use anaga.Pci.{count_up}
use anaga.Pci.Config.{IsPci}

module _ (p : Ports) (c : IsPci p) where
  open c use {config, sent}

  -- An action from a device prints lines and writes their words, and leaves the configuration space
  -- as it is.
  abbrev pub Prints :
      (p.Device → Screen → Option (p.Device × Screen)) → p.Device → List Line → Type 0
  Prints m d lines =
      (d' : p.Device) × (config d' ≡ config d)
      × (sent d' ≡ sent d ++ words_sent lines)
      × ((s : Screen) → m d s ≡ (print_lines lines s >>= λ s'. some (d', s')))

  pub Prints-nothing : (d : p.Device) → Prints (λ d s. some (d, s)) d []
  unfolding print_lines words_sent
  Prints-nothing d = (d, refl, sym (append-nil (sent d)), λ s. refl)

  -- One action after another.
  pub Prints-then :
      (m n : p.Device → Screen → Option (p.Device × Screen)) (d : p.Device) (xs ys : List Line)
      → Prints m d xs
      → ((d' : p.Device) → config d' ≡ config d → Prints n d' ys)
      → Prints (λ d s. m d s >>= λ r. n r.0 r.1) d (xs ++ ys)
  Prints-then m n d xs ys (d', e, w, f) k =
      let (d'', e', w', g) = k d' e in
      (
        d'',
        e' ∙ e,
        w'
            ∙ ap (λ words. words ++ words_sent ys) w
            ∙ append_assoc (sent d) (words_sent xs) (words_sent ys)
            ∙ ap (λ words. sent d ++ words) (sym (words_sent-append xs ys)),
        λ s. rw (f s) (
            bind_assoc (print_lines xs s) (λ s'. some (d', s')) (λ r. n r.0 r.1)
            ∙ ap (λ (h : Screen → Option (p.Device × Screen)). print_lines xs s >>= h) (fun_ext g)
            ∙ sym (bind_assoc (print_lines xs s) (print_lines ys) (λ s'. some (d'', s')))
            ∙ ap (λ (o : Option Screen). o >>= λ s'. some (d'', s'))
                (sym (print_lines-append xs ys s))),
      )

  -- Lines with nothing behind them but the device that they leave.
  pub Prints-lines :
      (d d' : p.Device) (lines : List Line)
      → config d' ≡ config d
      → sent d' ≡ sent d ++ words_sent lines
      → Prints (λ d s. print_with lines (λ s. some (d', s)) s) d lines
  Prints-lines d d' lines e w = (d', e, w, λ s. print_with_lem lines (λ s. some (d', s)) s)

  -- An action prints the lines of the configuration space, whatever that is.
  abbrev pub Reports :
      (p.Device → Screen → Option (p.Device × Screen)) → ((ℕ → ℕ) → List Line) → Type 0
  Reports m lines = (d : p.Device) → Prints m d (lines (config d))

  pub Reports-then :
      (m n : p.Device → Screen → Option (p.Device × Screen)) (xs ys : (ℕ → ℕ) → List Line)
      → Reports m xs
      → Reports n ys
      → Reports (λ d s. m d s >>= λ r. n r.0 r.1) (λ cfg. xs cfg ++ ys cfg)
  Reports-then m n xs ys f g d =
      Prints-then m n d (xs (config d)) (ys (config d)) (f d)
        (λ d' e. subst (λ cfg. Prints n d' (ys cfg)) e (g d'))

  -- An action behind a read, which has changed nothing in the configuration space.
  pub Reports-behind :
      (m : p.Device → Screen → Option (p.Device × Screen)) (lines : (ℕ → ℕ) → List Line)
      (d d1 : p.Device)
      → Reports m lines
      → config d1 ≡ config d
      → sent d1 ≡ sent d
      → (d' : p.Device) × (config d' ≡ config d)
        × (sent d' ≡ sent d ++ words_sent (lines (config d)))
        × ((s : Screen) → m d1 s ≡ (print_lines (lines (config d)) s >>= λ s'. some (d', s')))
  Reports-behind m lines d d1 f e w =
      let (d', e', w', g) = subst (λ cfg. Prints m d1 (lines cfg)) e (f d1) in
      (d', e' ∙ e, w' ∙ ap (λ words. words ++ words_sent (lines (config d))) w, g)

  pub count_up_lem :
      (body : ℕ → p.Device → Screen → Option (p.Device × Screen)) (lines : (ℕ → ℕ) → ℕ → List Line)
      (n i : ℕ)
      → ((j : ℕ) → i ≤ j → j < i + n → Reports (body j) (λ cfg. lines cfg j))
      → Reports (count_up p body n i) (λ cfg. range_lines (lines cfg) n i)
  unfolding count_up range_lines
  count_up_lem body lines zero i h d = Prints-nothing d
  count_up_lem body lines (suc n) i h d =
      Reports-then (body i) (count_up p body n (i + 1)) (λ cfg. lines cfg i)
        (λ cfg. range_lines (lines cfg) n (i + 1)) (h i (omega arith) (omega arith))
        (count_up_lem body lines n (i + 1) (λ j lo hi. h j (omega arith) (omega arith))) d

  pub says-Reports :
      (str : List ℕ)
      → Reports (λ d s. kprint (some str) s >>= λ s'. some (d, s')) (λ cfg. says str ∷ [])
  unfolding print_lines words_sent
  says-Reports str d = (
    d,
    refl,
    sym (append-nil (sent d)),
    λ s.
        ap (λ (o : Option Screen). o >>= λ s'. some (d, s'))
          (sym (bind-some (kprint (some str) s))),
  )
