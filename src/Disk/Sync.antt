-- ===== src/Disk/Sync.antt =====
-- The accesses of `vfs_sync` to its buffer and to the inode array.
use anaga.Prelude.{
  ℕ, zero, suc, ◌+◌, ◌-◌, ◌*◌, ◌≤◌, ◌<◌, ◌≡◌, refl, ◌∙◌, inl, inr, List, [], ◌∷◌, ◌++◌, arith,
  length, length-append, length-replicate, length-drop, length-take, take-front, take, drop,
  replicate, get_elem?_of_lt, eq-cases, eq→==, ne→==, Returns, Returns-bind,
}
use anaga.CString.Copy.{memset_lem, memcpy_lem}
use anaga.File.{Inode, max_inodes}
use anaga.File.Valid.{IsInode, IsInodeArray}
use anaga.Disk.{
  Disk, sector_size, inode_size, inode_sectors, inode_table_sector, word_bytes, words_bytes,
  inode_bytes, copy_size, drive_write_sector, fill_sector, sync_sectors, sync_inodes, vfs_sync,
}

pub length-word_bytes : (w : ℕ) → length (word_bytes w) ≡ 4
unfolding word_bytes
length-word_bytes w = refl

pub length-words_bytes : (ws : List ℕ) → length (words_bytes ws) ≡ 4 * length ws
unfolding words_bytes
length-words_bytes [] = refl
length-words_bytes (w ∷ ws) =
    length-append (word_bytes w) (words_bytes ws)
    ∙ omega (arith, length-word_bytes w, length-words_bytes ws)

-- An inode takes the bytes that `sizeof(inode_t)` counts.
pub length-inode_bytes : (inode : Inode) → IsInode inode → length (inode_bytes inode) ≡ inode_size
unfolding inode_bytes
length-inode_bytes x v =
    rw (length-append, length-append, length-append, length-append, length-append, length-append)
      (omega (
        arith,
        v.name_size,
        v.entries_size,
        v.bytes_size,
        length-word_bytes,
        length-words_bytes x.dir_entries,
      ))

pub copy_size_lem : (s : ℕ) → s < 17 → (copy_size s ≤ 512) × (copy_size s ≤ 8304 - s * 512)
copy_size_lem s h = elim (eq-cases s 16) [
  | inl e ↦ rw (eq→== s 16 e) (omega arith)
  | inr e ↦ rw (ne→== s 16 e) (omega arith)
]

-- A sector that holds the bytes of `image` that belong into sector `s` of an inode.
pub record SectorOf (image : List ℕ) (s : ℕ) (sector : List ℕ) : Type 0 where
  pub size : length sector ≡ sector_size
  pub bytes : take (copy_size s) sector ≡ take (copy_size s) (drop (s * sector_size) image)

-- A sector is filled with the bytes of the inode that belong there, and zeros behind the last.
pub fill_sector_lem :
    (s : ℕ) (image buffer : List ℕ)
    → s < inode_sectors
    → length image ≡ inode_size
    → length buffer ≡ sector_size
    → Returns (SectorOf image s) (fill_sector s image buffer)
unfolding fill_sector
fill_sector_lem s image buffer h n m =
    let (count, rest) = copy_size_lem s h in
    let cleared : List ℕ = replicate 512 0 ++ drop 512 buffer in
    let size : length cleared ≡ 512 = omega (
      arith,
      length-append (replicate 512 0) (drop 512 buffer),
      length-drop 512 buffer,
      length-replicate {A = ℕ} 512 0,
    ) in
    let inside : copy_size s ≤ length (drop (s * 512) image) =
      rw (length-drop (s * 512) image, n) rest in
    rw
      (
        memset_lem buffer 0 512 (omega arith),
        memcpy_lem cleared (drop (s * 512) image) (copy_size s) (omega arith) inside,
      )
      (record {
        size = omega (
          arith,
          length-append (take (copy_size s) (drop (s * 512) image)) (drop (copy_size s) cleared),
          length-take (copy_size s) (drop (s * 512) image) inside,
          length-drop (copy_size s) cleared,
        );
        bytes =
            take-front (take (copy_size s) (drop (s * 512) image)) (drop (copy_size s) cleared)
              (copy_size s) (length-take (copy_size s) (drop (s * 512) image) inside);
      })

sync_sectors-Returns :
    (n i s : ℕ) (image buffer : List ℕ) (disk : Disk)
    → s + n ≤ inode_sectors
    → length image ≡ inode_size
    → length buffer ≡ sector_size
    → Returns (λ out. length out.0 ≡ sector_size) (sync_sectors n i s image buffer disk)
unfolding sync_sectors
sync_sectors-Returns zero i s image buffer disk h n m = m
sync_sectors-Returns (suc k) i s image buffer disk h n m =
    Returns-bind (SectorOf image s) (λ out. length out.0 ≡ sector_size) (fill_sector s image buffer)
      _ (fill_sector_lem s image buffer (omega arith) n m)
      (λ filled size.
        sync_sectors-Returns k i (s + 1) image filled
          (drive_write_sector (inode_table_sector + i * inode_sectors + s) filled disk)
          (omega arith) n size.size)

sync_inodes-Returns :
    (n i : ℕ) (a : List Inode) (buffer : List ℕ) (disk : Disk)
    → i + n ≤ max_inodes
    → IsInodeArray a
    → length buffer ≡ sector_size
    → Returns (λ out. Unit) (sync_inodes n i a buffer disk)
unfolding sync_inodes
sync_inodes-Returns zero i a buffer disk h v m = tt
sync_inodes-Returns (suc n) i a buffer disk h v m =
    let (x, at) = get_elem?_of_lt a i (omega (arith, v.count)) in
    rw at (
      Returns-bind (λ out. length out.0 ≡ sector_size) (λ out. Unit)
        (sync_sectors inode_sectors i 0 (inode_bytes x) buffer disk) _
        (sync_sectors-Returns inode_sectors i 0 (inode_bytes x) buffer disk (omega arith)
          (length-inode_bytes x (v.each i x at)) m)
        (λ out size. sync_inodes-Returns n (i + 1) a out.0 out.1 (omega arith) v size))

-- `vfs_sync` of a valid inode array ends without an access outside an array.
pub vfs_sync-Returns :
    (a : List Inode) (disk : Disk) → IsInodeArray a → Returns (λ out. Unit) (vfs_sync a disk)
unfolding vfs_sync
vfs_sync-Returns a disk v =
    sync_inodes-Returns max_inodes 0 a (replicate sector_size 0) disk (omega arith) v
      (length-replicate sector_size 0)
