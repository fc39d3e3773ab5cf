-- ===== src/Display/Scroll.antt =====
-- `kscroll_up` and `kclean_display`: what the loops over the text buffer leave in it.
use anaga.Prelude.{
  ℕ, zero, suc, ◌+◌, ◌-◌, ◌*◌, ◌≤◌, ◌<◌, ◌≡◌, refl, sym, ap, ◌∙◌, inl, inr, some, List, arith,
  length, get_elem?, set, store_lem, length-set, get_elem?-set_self, get_elem?-set_ne,
  get_elem?_of_lt, Returns, Returns-bind, Returns-mono, eq-cases, leb, if◌then◌else◌,
}
use anaga.Display.{
  Screen, vga_width, vga_height, blank, blank_cells, copy_cell, copy_cols, copy_rows, kscroll_up,
  kclean_display,
}

-- The cells from `i` below `j` are blank; all others are those of `old`.
pub record Blanked (i j : ℕ) (old new : List ℕ) : Type 0 where
  pub size : length new ≡ length old
  pub filled : (k : ℕ) → i ≤ k → k < j → get_elem? new k ≡ some blank
  pub before : (k : ℕ) → k < i → get_elem? new k ≡ get_elem? old k
  pub after : (k : ℕ) → j ≤ k → get_elem? new k ≡ get_elem? old k

pub blank_cells_lem :
    (n i j : ℕ) (old : List ℕ)
    → i + n ≡ j
    → j ≤ length old
    → Returns (Blanked i j old) (blank_cells n i old)
unfolding blank_cells
blank_cells_lem zero i j old e h = record {
  size = refl;
  filled = λ k p q. absurd (omega arith);
  before = λ k p. refl;
  after = λ k p. refl;
}
blank_cells_lem (suc n) i j old e h = rw (store_lem old i blank (omega arith)) (
    Returns-mono (Blanked (i + 1) j (set old i blank)) (Blanked i j old) _
      (blank_cells_lem n (i + 1) j (set old i blank) (omega arith)
        (omega (arith, length-set old i blank)))
      extend)
  where
    extend : (new : List ℕ) → Blanked (i + 1) j (set old i blank) new → Blanked i j old new
    extend new b = record {
      size = b.size ∙ length-set old i blank;
      filled = λ k p q. elim (eq-cases i k) [
        | inl here ↦
            b.before k (omega arith) ∙ rw (← here) (get_elem?-set_self old i blank (omega arith))
        | inr there ↦ b.filled k (omega arith) q
      ];
      before = λ k p. b.before k (omega arith) ∙ get_elem?-set_ne old blank (omega arith);
      after = λ k p. b.after k p ∙ get_elem?-set_ne old blank (omega arith);
    }

-- The first `n` cells hold what stood one row further on in `old`; all others are those of `old`.
pub record Shifted (n : ℕ) (old new : List ℕ) : Type 0 where
  pub size : length new ≡ length old
  pub moved : (k : ℕ) → k < n → get_elem? new k ≡ get_elem? old (k + vga_width)
  pub kept : (k : ℕ) → n ≤ k → get_elem? new k ≡ get_elem? old k

copy_cell-Shifted :
    (dest src : ℕ) (old vga : List ℕ)
    → src ≡ dest + vga_width
    → src < length old
    → Shifted dest old vga
    → Returns (Shifted (dest + 1) old) (copy_cell dest src vga)
unfolding copy_cell
copy_cell-Shifted dest src old vga e h s =
    let (c, at) = get_elem?_of_lt vga src (omega (arith, s.size)) in
    rw (at, store_lem vga dest c (omega (arith, s.size)))
      (record {
        size = length-set vga dest c ∙ s.size;
        moved = λ k p. elim (eq-cases dest k) [
          | inl here ↦
              rw (← here, ← e)
                (get_elem?-set_self vga dest c (omega (arith, s.size))
                  ∙ sym at
                  ∙ s.kept src (omega arith))
          | inr there ↦ get_elem?-set_ne vga c there ∙ s.moved k (omega arith)
        ];
        kept = λ k p. get_elem?-set_ne vga c (omega arith) ∙ s.kept k (omega arith);
      })

copy_cols-Shifted :
    (n row col start end : ℕ) (old vga : List ℕ)
    → 0 < row
    → start ≡ (row - 1) * vga_width + col
    → end ≡ start + n
    → end + vga_width ≤ length old
    → Shifted start old vga
    → Returns (Shifted end old) (copy_cols n row col vga)
unfolding copy_cols
copy_cols-Shifted zero row col start end old vga pos at to room s =
    let same : end ≡ start = omega arith in rw same s
copy_cols-Shifted (suc n) row col start end old vga pos at to room s =
    Returns-bind (Shifted (start + 1) old) (Shifted end old)
      (copy_cell ((row - 1) * vga_width + col) (row * vga_width + col) vga)
      (copy_cols n row (col + 1))
      (rw (← at)
        (copy_cell-Shifted start (row * vga_width + col) old vga (omega arith) (omega arith) s))
      (λ vga' s'.
        copy_cols-Shifted n row (col + 1) (start + 1) end old vga' pos (omega arith) (omega arith)
          room s')

copy_rows-Shifted :
    (n row start end : ℕ) (old vga : List ℕ)
    → 0 < row
    → start ≡ (row - 1) * vga_width
    → end ≡ start + n * vga_width
    → end + vga_width ≤ length old
    → Shifted start old vga
    → Returns (Shifted end old) (copy_rows n row vga)
unfolding copy_rows
copy_rows-Shifted zero row start end old vga pos at to room s =
    let same : end ≡ start = omega arith in rw same s
copy_rows-Shifted (suc n) row start end old vga pos at to room s =
    Returns-bind (Shifted (start + vga_width) old) (Shifted end old) (copy_cols vga_width row 0 vga)
      (copy_rows n (row + 1))
      (copy_cols-Shifted vga_width row 0 start (start + vga_width) old vga pos (omega arith) refl
        (omega arith) s)
      (λ vga' s'.
        copy_rows-Shifted n (row + 1) (start + vga_width) end old vga' (omega arith) (omega arith)
          (omega arith) room s')

-- A scrolled screen: each row holds the row below it, and the last row is blank.
pub record Scrolled (s t : Screen) : Type 0 where
  pub size : length t.vga ≡ length s.vga
  pub rows :
      (row col : ℕ)
      → row + 1 < vga_height
      → col < vga_width
      → get_elem? t.vga (row * vga_width + col) ≡ get_elem? s.vga ((row + 1) * vga_width + col)
  pub last :
      (col : ℕ)
      → col < vga_width
      → get_elem? t.vga ((vga_height - 1) * vga_width + col) ≡ some blank
  pub cursor_y : t.cursor_y ≡ vga_height - 1
  pub cursor_x : t.cursor_x ≡ (if leb vga_width s.cursor_x then 0 else s.cursor_x)

-- `kscroll_up` stays inside the text buffer, moves each row one up, blanks the last row, and puts
-- the cursor on it.
pub kscroll_up_lem :
    (s : Screen) → length s.vga ≡ vga_width * vga_height → Returns (Scrolled s) (kscroll_up s)
unfolding kscroll_up
kscroll_up_lem s h =
    Returns-bind (Shifted 1920 s.vga) (Scrolled s) (copy_rows (vga_height - 1) 1 s.vga) _
      (copy_rows-Shifted 24 1 0 1920 s.vga s.vga (omega arith) refl refl (omega arith)
        (record { size = refl; moved = λ k p. absurd (omega arith); kept = λ k p. refl }))
      λ moved m.
        Returns-bind (Blanked 1920 2000 moved) (Scrolled s)
          (blank_cells vga_width ((vga_height - 1) * vga_width) moved) _
          (blank_cells_lem 80 1920 2000 moved refl (omega (arith, m.size)))
          λ vga b. record {
            size = b.size ∙ m.size;
            rows = λ row col p q.
                b.before (row * 80 + col) (omega arith)
                ∙ m.moved (row * 80 + col) (omega arith)
                ∙ ap (λ (k : ℕ). get_elem? s.vga k) (shift row col);
            last = λ col q. b.filled (1920 + col) (omega arith) (omega arith);
            cursor_y = refl;
            cursor_x = refl;
          }
  where
    shift : (row col : ℕ) → row * 80 + col + 80 ≡ (row + 1) * 80 + col
    shift row col = omega arith

-- `kclean_display` leaves 2000 blank cells and the cursor in the top left corner.
pub record Cleaned (t : Screen) : Type 0 where
  pub size : length t.vga ≡ vga_width * vga_height
  pub filled : (k : ℕ) → k < vga_width * vga_height → get_elem? t.vga k ≡ some blank
  pub home_x : t.cursor_x ≡ 0
  pub home_y : t.cursor_y ≡ 0

pub kclean_display_lem :
    (s : Screen) → length s.vga ≡ vga_width * vga_height → Returns Cleaned (kclean_display s)
unfolding kclean_display
kclean_display_lem s h =
    Returns-bind (Blanked 0 2000 s.vga) Cleaned (blank_cells (vga_width * vga_height) 0 s.vga) _
      (blank_cells_lem 2000 0 2000 s.vga refl (omega arith))
      λ vga b. record {
        size = b.size ∙ h;
        filled = λ k p. b.filled k (omega arith) p;
        home_x = refl;
        home_y = refl;
      }
