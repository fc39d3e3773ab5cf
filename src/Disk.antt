-- ===== src/Disk.antt =====
-- The inode table on the disk: `vfs_load` and `vfs_sync` of fs/vfs.c, over the sectors that
-- `drive_read_sector` and `drive_write_sector` of drivers/drive/drive.c transfer. The bytes of an
-- `inode_t` are those of its fields in order, the words in little-endian order, with no padding.
pub mod Sync
pub mod Image
pub mod Sectors
pub mod Load
use anaga.Prelude.{
  ℕ, zero, suc, ◌+◌, ◌-◌, ◌*◌, ◌/◌, ◌%◌, ◌^◌, Option, some, List, [], ◌∷◌, ◌++◌, ◌==◌,
  if◌then◌else◌, ◌>>=◌, take, drop, replicate, get_elem?, store,
}
use anaga.CString.{memset, memcpy}
use anaga.File.{Inode, max_inodes, max_dir_entries, max_file_size, max_filename}

abbrev pub sector_size : ℕ
sector_size = 512

abbrev pub inode_table_sector : ℕ
inode_table_sector = 0

-- `sizeof(inode_t)`
abbrev pub inode_size : ℕ
inode_size = 8304

-- `(sizeof(inode_t) + SECTOR_SIZE - 1) / SECTOR_SIZE`
abbrev pub inode_sectors : ℕ
inode_sectors = (inode_size + sector_size - 1) / sector_size

-- The bytes of every sector.
abbrev pub Disk : Type 0
Disk = ℕ → List ℕ

unfoldable pub drive_read_sector : ℕ → Disk → List ℕ
drive_read_sector lba disk = disk lba

unfoldable pub drive_write_sector : ℕ → List ℕ → Disk → Disk
drive_write_sector lba buffer disk k = if k == lba then buffer else disk k

unfoldable pub word_bytes : ℕ → List ℕ
word_bytes w = w % 256 ∷ (w / 2 ^ 8) % 256 ∷ (w / 2 ^ 16) % 256 ∷ (w / 2 ^ 24) % 256 ∷ []

unfoldable pub words_bytes : List ℕ → List ℕ
words_bytes [] = []
words_bytes (w ∷ ws) = word_bytes w ++ words_bytes ws

-- The bytes of an inode in memory.
unfoldable pub inode_bytes : Inode → List ℕ
inode_bytes inode =
    inode.name
    ++ (word_bytes inode.type
        ++ (word_bytes inode.size
            ++ (word_bytes inode.parent_inode
                ++ (word_bytes inode.num_entries
                    ++ (words_bytes inode.dir_entries ++ inode.bytes)))))

unfoldable pub bytes_word : List ℕ → ℕ
bytes_word [] = 0
bytes_word (b ∷ bs) = b + 256 * bytes_word bs

unfoldable pub bytes_words : ℕ → List ℕ → List ℕ
bytes_words zero bs = []
bytes_words (suc n) bs = bytes_word (take 4 bs) ∷ bytes_words n (drop 4 bs)

-- The inode whose bytes in memory these are.
unfoldable pub bytes_inode : List ℕ → Inode
bytes_inode bs = record {
  name = take max_filename bs;
  type = bytes_word (take 4 (drop 32 bs));
  size = bytes_word (take 4 (drop 36 bs));
  parent_inode = bytes_word (take 4 (drop 40 bs));
  num_entries = bytes_word (take 4 (drop 44 bs));
  dir_entries = bytes_words max_dir_entries (drop 48 bs);
  bytes = take max_file_size (drop 112 bs);
}

-- `(s == inode_sectors - 1) ? sizeof(inode_t) - s * SECTOR_SIZE : SECTOR_SIZE`
abbrev pub copy_size : ℕ → ℕ
copy_size s = if s == inode_sectors - 1 then inode_size - s * sector_size else sector_size

-- The inner loop of `vfs_load`, `n` rounds from sector `s` of inode `i` on, over its bytes.
unfoldable pub load_sectors : ℕ → ℕ → ℕ → List ℕ → Disk → Option (List ℕ)
load_sectors zero i s image disk = some image
load_sectors (suc n) i s image disk =
    memcpy (drop (s * sector_size) image)
      (drive_read_sector (inode_table_sector + i * inode_sectors + s) disk) (copy_size s)
    >>= λ tail. load_sectors n i (s + 1) (take (s * sector_size) image ++ tail) disk

-- The outer loop, `n` rounds from inode `i` on.
unfoldable pub load_inodes : ℕ → ℕ → Disk → List Inode → Option (List Inode)
load_inodes zero i disk inode_array = some inode_array
load_inodes (suc n) i disk inode_array = get_elem? inode_array i >>= λ inode.
    load_sectors inode_sectors i 0 (inode_bytes inode) disk >>= λ image.
    store inode_array i (bytes_inode image) >>= load_inodes n (i + 1) disk

unfoldable pub vfs_load : Disk → List Inode → Option (List Inode)
vfs_load disk inode_array = load_inodes max_inodes 0 disk inode_array

-- `memset(buffer, 0, SECTOR_SIZE); memcpy(buffer, image + s * SECTOR_SIZE, copy_size);`, over the
-- `buffer` that the last round left.
unfoldable pub fill_sector : ℕ → List ℕ → List ℕ → Option (List ℕ)
fill_sector s image buffer = memset buffer 0 sector_size >>= λ cleared.
    memcpy cleared (drop (s * sector_size) image) (copy_size s)

-- The inner loop of `vfs_sync`.
unfoldable pub sync_sectors : ℕ → ℕ → ℕ → List ℕ → List ℕ → Disk → Option (List ℕ × Disk)
sync_sectors zero i s image buffer disk = some (buffer, disk)
sync_sectors (suc n) i s image buffer disk = fill_sector s image buffer >>= λ filled.
    sync_sectors n i (s + 1) image filled
      (drive_write_sector (inode_table_sector + i * inode_sectors + s) filled disk)

-- The outer loop.
unfoldable pub sync_inodes : ℕ → ℕ → List Inode → List ℕ → Disk → Option Disk
sync_inodes zero i inode_array buffer disk = some disk
sync_inodes (suc n) i inode_array buffer disk = get_elem? inode_array i >>= λ inode.
    sync_sectors inode_sectors i 0 (inode_bytes inode) buffer disk >>= λ (filled, disk').
    sync_inodes n (i + 1) inode_array filled disk'

-- The sector buffer is a local array; `memset` clears it before it is read.
unfoldable pub vfs_sync : List Inode → Disk → Option Disk
vfs_sync inode_array disk = sync_inodes max_inodes 0 inode_array (replicate sector_size 0) disk
