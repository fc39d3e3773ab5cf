-- ===== src/File/Transfer.antt =====
-- `file_read` and `file_write` at a position inside the file.
use anaga.Prelude.{
  ℕ, ◌+◌, ◌-◌, ◌%◌, ◌^◌, ◌≤◌, ◌<◌, ◌≡◌, inl, inr, none, some, List, ◌++◌, true, arith, length, take,
  drop, set, min, get_elem?, get_elem?-lt, length-drop, store_lem, ltb, leb-false, ltb-true,
  ltb-false, if◌then◌else◌, lt-cases, pos,
}
use anaga.CString.Copy.{memcpy_lem, memcpy-overrun_dest}
use anaga.File.{
  Inode, FileDescriptor, max_open_files, max_file_size, u32, to_int, transfer, read_open,
  write_open, file_read, file_write,
}
use anaga.File.Descriptors.{moved}
use anaga.File.Valid.{IsInode, IsFdTable}

-- Inside the file, a transfer takes what is asked for, as far as the limit goes.
pub transfer_lem :
    (position size limit : ℕ)
    → position ≤ limit
    → limit ≤ max_file_size
    → position + size < u32
    → transfer position size limit ≡ min size (limit - position)
transfer_lem position size limit h k fits = elim (lt-cases limit (position + size)) [
  | inl over ↦
      let wrap : (position + size) % u32 ≡ position + size = omega arith in
      rw (wrap, ltb-true limit (position + size) over) (omega arith)
  | inr within ↦
      let wrap : (position + size) % u32 ≡ position + size = omega arith in
      rw (wrap, ltb-false limit (position + size) within) (omega arith)
]

-- Past the end of the file the subtraction wraps: a transfer of almost 4 GiB.
pub transfer-past_end :
    (position size limit : ℕ)
    → limit < position
    → position + size < u32
    → transfer position size limit ≡ limit + u32 - position
transfer-past_end position size limit h fits =
    let wrap : (position + size) % u32 ≡ position + size = omega arith in
    rw (wrap, ltb-true limit (position + size) (omega arith)) (omega arith)

to_int_small : (n : ℕ) → n < 2 ^ 31 → to_int n ≡ pos n
to_int_small n h = rw (ltb-true n (2 ^ 31) h)

module _ (fd : ℕ) (a : List Inode) (t : List FileDescriptor) (d : FileDescriptor) (inode : Inode)
    (w : IsFdTable t) (at : get_elem? t fd ≡ some d) (used : d.in_use ≡ true)
    (file : get_elem? a d.inode_index ≡ some inode) (v : IsInode inode) where
  -- A read inside the file returns the number of bytes up to the file's end or the size asked for,
  -- whichever is less, copies just those bytes to the front of the buffer, and moves the position
  -- behind them.
  pub file_read_lem :
      (buffer : List ℕ) (size : ℕ)
      → d.position ≤ inode.size
      → d.position + size < u32
      → size ≤ length buffer
      → let n = min size (inode.size - d.position) in
        file_read (pos fd) buffer size a t
        ≡ some (
          pos n,
          take n (drop d.position inode.bytes) ++ drop n buffer,
          set t fd (moved d (d.position + n)),
        )
  unfolding file_read read_open
  file_read_lem buffer size inside fits room =
      let n = min size (inode.size - d.position) in
      let wrap : (d.position + n) % u32 ≡ d.position + n = omega (arith, v.size_fits) in
      rw (
        leb-false max_open_files fd (omega (arith, w.count, get_elem?-lt t fd at)),
        at,
        used,
        file,
        transfer_lem d.position size inode.size inside v.size_fits fits,
        memcpy_lem buffer (drop d.position inode.bytes) n (omega arith)
            (omega (arith, length-drop d.position inode.bytes, v.bytes_size, v.size_fits)),
        wrap,
        store_lem t fd (moved d (d.position + n)) (get_elem?-lt t fd at),
        to_int_small n (omega (arith, v.size_fits)),
      )

  -- A read from a position past the end of the file runs past the end of the buffer, if that is
  -- shorter than 2 ^ 32 - position + size of the file.
  pub file_read-past_end :
      (buffer : List ℕ) (size : ℕ)
      → inode.size < d.position
      → d.position + size < u32
      → length buffer + d.position < inode.size + u32
      → file_read (pos fd) buffer size a t ≡ none
  unfolding file_read read_open
  file_read-past_end buffer size past fits room = rw (
    leb-false max_open_files fd (omega (arith, w.count, get_elem?-lt t fd at)),
    at,
    used,
    file,
    transfer-past_end d.position size inode.size past fits,
    memcpy-overrun_dest buffer (drop d.position inode.bytes) (inode.size + u32 - d.position)
        (omega arith),
  )

  -- The inode after `n` bytes of `buffer` are written at the position.
  abbrev pub written : List ℕ → ℕ → Inode
  written buffer n = record inode {
    bytes = take d.position inode.bytes ++ (take n buffer ++ drop n (drop d.position inode.bytes));
    size = if ltb inode.size (d.position + n) then d.position + n else inode.size;
  }

  -- A write inside the largest file returns the number of bytes up to that limit or the size asked
  -- for, whichever is less, stores just those bytes at the position, leaves all other bytes, grows
  -- the file if it ends sooner, and moves the position behind what was written.
  pub file_write_lem :
      (buffer : List ℕ) (size : ℕ)
      → d.position ≤ max_file_size
      → d.position + size < u32
      → size ≤ length buffer
      → let n = min size (max_file_size - d.position) in
        file_write (pos fd) buffer size a t
        ≡ some (pos n, set a d.inode_index (written buffer n), set t fd (moved d (d.position + n)))
  unfolding file_write write_open
  file_write_lem buffer size inside fits room =
      let n = min size (max_file_size - d.position) in
      let wrap : (d.position + n) % u32 ≡ d.position + n = omega arith in
      rw (
        leb-false max_open_files fd (omega (arith, w.count, get_elem?-lt t fd at)),
        at,
        used,
        file,
        transfer_lem d.position size max_file_size inside (omega arith) fits,
        memcpy_lem (drop d.position inode.bytes) buffer n
            (omega (arith, length-drop d.position inode.bytes, v.bytes_size)) (omega arith),
        wrap,
        store_lem t fd (moved d (d.position + n)) (get_elem?-lt t fd at),
        store_lem a d.inode_index (written buffer n) (get_elem?-lt a d.inode_index file),
        to_int_small n (omega arith),
      )
