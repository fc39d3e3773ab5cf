-- ===== src/Disk/Sectors.antt =====
-- What `vfs_sync` leaves on the disk.
use anaga.Prelude.{
  ℕ, zero, suc, ◌+◌, ◌*◌, ◌≤◌, ◌<◌, ◌≡◌, ◌≢◌, refl, sym, ◌∙◌, subst, inl, inr, List, some, arith,
  length, length-replicate, replicate, get_elem?, get_elem?_of_lt, eq-cases, eq→==, ne→==, Returns,
  Returns-bind, Returns-mono,
}
use anaga.File.{Inode, max_inodes}
use anaga.File.Valid.{IsInodeArray}
use anaga.Disk.{
  Disk, sector_size, inode_size, inode_sectors, inode_table_sector, inode_bytes, drive_write_sector,
  fill_sector, sync_sectors, sync_inodes, vfs_sync,
}
use anaga.Disk.Sync.{SectorOf, fill_sector_lem, length-inode_bytes}

-- The number of sector `s` of inode `i`.
abbrev pub lba_of : ℕ → ℕ → ℕ
lba_of i s = inode_table_sector + i * inode_sectors + s

-- The sectors of inode `i` from `lo` up to `hi` hold the bytes of `image`.
abbrev pub Stored : List ℕ → ℕ → ℕ → ℕ → Disk → Type 0
Stored image i lo hi disk = (t : ℕ) → lo ≤ t → t < hi → SectorOf image t (disk (lba_of i t))

-- The sectors before `bound` are those of another disk.
abbrev pub SameBefore : ℕ → Disk → Disk → Type 0
SameBefore bound old new = (k : ℕ) → k < bound → new k ≡ old k

read_written :
    (lba : ℕ) (sector : List ℕ) (disk : Disk) → drive_write_sector lba sector disk lba ≡ sector
unfolding drive_write_sector
read_written lba sector disk = rw (eq→== lba lba refl)

read_other :
    (lba : ℕ) (sector : List ℕ) (disk : Disk) (k : ℕ)
    → k ≢ lba
    → drive_write_sector lba sector disk k ≡ disk k
unfolding drive_write_sector
read_other lba sector disk k h = rw (ne→== k lba h)

record SyncedSectors (image : List ℕ) (i s n : ℕ) (disk : Disk) (out : List ℕ × Disk) : Type 0 where
  size : length out.0 ≡ sector_size
  stored : Stored image i s (s + n) out.1
  same : SameBefore (lba_of i s) disk out.1

sync_sectors_lem :
    (n i s : ℕ) (image buffer : List ℕ) (disk : Disk)
    → s + n ≤ inode_sectors
    → length image ≡ inode_size
    → length buffer ≡ sector_size
    → Returns (SyncedSectors image i s n disk) (sync_sectors n i s image buffer disk)
unfolding sync_sectors
sync_sectors_lem zero i s image buffer disk h n m = record {
  size = m;
  stored = λ t lo hi. absurd (omega arith);
  same = λ k less. refl;
}
sync_sectors_lem (suc n) i s image buffer disk h m b =
    Returns-bind (SectorOf image s) (SyncedSectors image i s (suc n) disk)
      (fill_sector s image buffer) _ (fill_sector_lem s image buffer (omega arith) m b)
      (λ filled q.
        let disk' = drive_write_sector (lba_of i s) filled disk in
        Returns-mono (SyncedSectors image i (s + 1) n disk') (SyncedSectors image i s (suc n) disk)
          (sync_sectors n i (s + 1) image filled disk')
          (sync_sectors_lem n i (s + 1) image filled disk' (omega arith) m q.size)
          (λ out k. record {
            size = k.size;
            stored = λ t lo hi. elim (eq-cases t s) [
              | inl e ↦
                  let here : out.1 (lba_of i s) ≡ filled =
                    k.same (lba_of i s) (omega arith) ∙ read_written (lba_of i s) filled disk in
                  subst (λ u. SectorOf image u (out.1 (lba_of i u))) (sym e)
                    (subst (SectorOf image s) (sym here) q)
              | inr ne ↦ k.stored t (omega arith) (omega arith)
            ];
            same = λ j less.
                k.same j (omega arith) ∙ read_other (lba_of i s) filled disk j (λ e. omega arith);
          }))

-- Every inode from `i` up to `hi` is on the disk.
abbrev pub AllStored : List Inode → ℕ → ℕ → Disk → Type 0
AllStored a lo hi disk =
    (j : ℕ) (x : Inode)
    → lo ≤ j
    → j < hi
    → get_elem? a j ≡ some x
    → Stored (inode_bytes x) j 0 inode_sectors disk

record SyncedInodes (a : List Inode) (i n : ℕ) (disk out : Disk) : Type 0 where
  stored : AllStored a i (i + n) out
  same : SameBefore (lba_of i 0) disk out

sync_inodes_lem :
    (n i : ℕ) (a : List Inode) (buffer : List ℕ) (disk : Disk)
    → i + n ≤ max_inodes
    → IsInodeArray a
    → length buffer ≡ sector_size
    → Returns (SyncedInodes a i n disk) (sync_inodes n i a buffer disk)
unfolding sync_inodes
sync_inodes_lem zero i a buffer disk h v m = record {
  stored = λ j x lo hi at t l q. absurd (omega arith);
  same = λ k less. refl;
}
sync_inodes_lem (suc n) i a buffer disk h v m =
    let (x, at) = get_elem?_of_lt a i (omega (arith, v.count)) in
    let image = inode_bytes x in
    rw at (
      Returns-bind (SyncedSectors image i 0 inode_sectors disk) (SyncedInodes a i (suc n) disk)
        (sync_sectors inode_sectors i 0 image buffer disk) _
        (sync_sectors_lem inode_sectors i 0 image buffer disk (omega arith)
          (length-inode_bytes x (v.each i x at)) m)
        (λ out q.
          Returns-mono (SyncedInodes a (i + 1) n out.1) (SyncedInodes a i (suc n) disk)
            (sync_inodes n (i + 1) a out.0 out.1)
            (sync_inodes_lem n (i + 1) a out.0 out.1 (omega arith) v q.size)
            (λ end k. record {
              stored = λ j y lo hi at_y. elim (eq-cases j i) [
                | inl e ↦
                    let same : x ≡ y = cc (at, at_y, e) in
                    rw (e, ← same)
                      (λ t l u.
                        subst (SectorOf image t) (sym (k.same (lba_of i t) (omega arith)))
                          (q.stored t l (omega arith)))
                | inr ne ↦ k.stored j y (omega arith) (omega arith) at_y
              ];
              same = λ j less. k.same j (omega arith) ∙ q.same j less;
            })))

-- The inode table on the disk after `vfs_sync`.
pub vfs_sync_lem :
    (a : List Inode) (disk : Disk)
    → IsInodeArray a
    → Returns (AllStored a 0 max_inodes) (vfs_sync a disk)
unfolding vfs_sync
vfs_sync_lem a disk v =
    Returns-mono (SyncedInodes a 0 max_inodes disk) (AllStored a 0 max_inodes) _
      (sync_inodes_lem max_inodes 0 a (replicate sector_size 0) disk (omega arith) v
        (length-replicate sector_size 0))
      (λ out k j x lo hi at. k.stored j x lo (omega arith) at)
