-- ===== src/Disk/Load.antt =====
-- `vfs_load` of an inode table that `vfs_sync` has written.
use anaga.Prelude.{
  ℕ, zero, suc, ◌+◌, ◌*◌, ◌≤◌, ◌<◌, ◌≡◌, refl, sym, ap, ◌∙◌, subst, inl, inr, List, [], ◌∷◌, ◌++◌,
  some, arith, length, length-append, length-take, length-drop, take, drop, take_add, take-front,
  append_assoc, min, get_elem?, get_elem?_of_lt, get_elem?-lt, get_elem?-set_self, get_elem?-set_ne,
  set, store_lem, eq-cases, eq→==, ne→==, Returns, Returns-mono, Returns-elim,
}
use anaga.CString.Nul.{take_all}
use anaga.CString.{memcpy}
use anaga.CString.Copy.{memcpy_lem}
use anaga.File.{Inode, max_inodes}
use anaga.File.Valid.{IsInodeArray, IsInodeArray-set}
use anaga.Disk.{
  Disk, sector_size, inode_size, inode_sectors, inode_bytes, copy_size, drive_read_sector,
  load_sectors, load_inodes, vfs_load, vfs_sync,
}
use anaga.Disk.Sync.{SectorOf, length-inode_bytes, copy_size_lem}
use anaga.Disk.Sectors.{lba_of, Stored, AllStored, vfs_sync_lem}
use anaga.Disk.Image.{bytes_inode-inode_bytes}

-- How many bytes of an inode stand in its first `s` sectors.
abbrev done : ℕ → ℕ
done s = min (s * sector_size) inode_size

copy_size-done : (s : ℕ) → s < inode_sectors → s * sector_size + copy_size s ≡ done (s + 1)
copy_size-done s h = elim (eq-cases s 16) [
  | inl e ↦ rw (eq→== s 16 e) (omega arith)
  | inr e ↦ rw (ne→== s 16 e) (omega arith)
]

-- The first part of what a copy behind `front` gives.
take-copied :
    (p c : ℕ) (front new rest : List ℕ)
    → length front ≡ p
    → length new ≡ c
    → take (p + c) (front ++ (new ++ rest)) ≡ front ++ new
take-copied p c front new rest h k =
    ap (take (p + c)) (sym (append_assoc front new rest))
    ∙ take-front (front ++ new) rest (p + c) (omega (arith, length-append front new))

-- One round: the next sector's bytes stand in the inode.
record Copied (image : List ℕ) (s : ℕ) (img : List ℕ) : Type 0 where
  size : length img ≡ inode_size
  front : take (done s) img ≡ take (done s) image

copy_sector :
    (image img sector : List ℕ) (s : ℕ)
    → s < inode_sectors
    → length image ≡ inode_size
    → Copied image s img
    → SectorOf image s sector
    → Returns
        (λ tail. Copied image (s + 1) (take (s * sector_size) img ++ tail))
        (memcpy (drop (s * sector_size) img) sector (copy_size s))
copy_sector image img sector s h n k q =
    let c = copy_size s in
    let p = s * sector_size in
    let (count, rest) = copy_size_lem s h in
    let here : done s ≡ p = omega arith in
    let new = take c sector in
    let behind = drop c (drop p img) in
    let new_size : length new ≡ c = length-take c sector (omega (arith, q.size)) in
    let front_size : length (take p img) ≡ p = length-take p img (omega (arith, k.size)) in
    let room : c ≤ length (drop p img) = omega (arith, length-drop p img, k.size) in
    let front : take p img ≡ take p image = subst (λ d. take d img ≡ take d image) here k.front in
    let whole : take (p + c) (take p img ++ (new ++ behind)) ≡ take (p + c) image =
      take-copied p c (take p img) new behind front_size new_size
      ∙ ap (λ l. l ++ new) front
      ∙ ap (λ l. take p image ++ l) q.bytes
      ∙ sym (take_add p c image) in
    rw (memcpy_lem (drop p img) sector c room (omega (arith, q.size))) (record {
      size = omega (
        arith,
        length-append (take p img) (new ++ behind),
        length-append new behind,
        length-drop c (drop p img),
        length-drop p img,
        k.size,
        front_size,
        new_size,
      );
      front =
          subst (λ d. take d (take p img ++ (new ++ behind)) ≡ take d image) (copy_size-done s h)
            whole;
    })

load_sectors_lem :
    (n i s : ℕ) (image img : List ℕ) (disk : Disk)
    → s + n ≡ inode_sectors
    → length image ≡ inode_size
    → Stored image i s inode_sectors disk
    → Copied image s img
    → load_sectors n i s img disk ≡ some image
unfolding load_sectors drive_read_sector
load_sectors_lem zero i s image img disk h n st k =
    let all : done s ≡ inode_size = omega arith in
    let same : take inode_size img ≡ take inode_size image =
      subst (λ d. take d img ≡ take d image) all k.front in
    ap some (
      sym (take_all inode_size img (omega (arith, k.size)))
      ∙ same
      ∙ take_all inode_size image (omega (arith, n)))
load_sectors_lem (suc m) i s image img disk h n st k =
    let (tail, e, next) =
      Returns-elim (λ tail. Copied image (s + 1) (take (s * sector_size) img ++ tail))
        (memcpy (drop (s * sector_size) img) (disk (lba_of i s)) (copy_size s))
        (copy_sector image img (disk (lba_of i s)) s (omega arith) n k
          (st s (omega arith) (omega arith))) in
    rw e (
      load_sectors_lem m i (s + 1) image (take (s * sector_size) img ++ tail) disk (omega arith) n
        (λ t lo hi. st t (omega arith) hi) next)

-- Two arrays of one length with the same elements.
same_elements :
    (a b : List Inode)
    → length a ≡ length b
    → ((j : ℕ) → j < length a → get_elem? a j ≡ get_elem? b j)
    → a ≡ b
same_elements [] [] h k = refl
same_elements [] (y ∷ b) h k = absurd (omega arith)
same_elements (x ∷ a) [] h k = absurd (omega arith)
same_elements (x ∷ a) (y ∷ b) h k =
    let head : x ≡ y = cc (k 0 (omega arith)) in
    let rest : a ≡ b = same_elements a b (omega arith) (λ j less. k (suc j) (omega arith)) in cc

load_inodes_lem :
    (n i : ℕ) (a cur : List Inode) (disk : Disk)
    → i + n ≡ max_inodes
    → IsInodeArray a
    → IsInodeArray cur
    → AllStored a 0 max_inodes disk
    → ((j : ℕ) → j < i → get_elem? cur j ≡ get_elem? a j)
    → load_inodes n i disk cur ≡ some a
unfolding load_inodes
load_inodes_lem zero i a cur disk h v w st same =
    ap some
      (same_elements cur a (w.count ∙ sym v.count) (λ j less. same j (omega (arith, w.count))))
load_inodes_lem (suc n) i a cur disk h v w st same =
    let (x, at) = get_elem?_of_lt a i (omega (arith, v.count)) in
    let (old, old_at) = get_elem?_of_lt cur i (omega (arith, w.count)) in
    let inode = v.each i x at in
    let loaded : load_sectors inode_sectors i 0 (inode_bytes old) disk ≡ some (inode_bytes x) =
      load_sectors_lem inode_sectors i 0 (inode_bytes x) (inode_bytes old) disk (omega arith)
        (length-inode_bytes x inode) (st i x (omega arith) (omega arith) at)
        (record { size = length-inode_bytes old (w.each i old old_at); front = refl }) in
    rw
      (
        old_at,
        loaded,
        bytes_inode-inode_bytes x inode,
        store_lem cur i x (get_elem?-lt cur i old_at),
      )
      (load_inodes_lem n (i + 1) a (set cur i x) disk (omega arith) v
        (IsInodeArray-set cur i x w inode) st
        (λ j less. elim (eq-cases i j) [
          | inl e ↦ rw (← e, get_elem?-set_self cur i x (get_elem?-lt cur i old_at), at)
          | inr ne ↦ get_elem?-set_ne cur x ne ∙ same j (omega arith)
        ]))

-- What `vfs_sync` writes of a valid inode array, on any disk, `vfs_load` reads back, whatever valid
-- array it loads into.
pub vfs_sync-load :
    (a before : List Inode) (disk : Disk)
    → IsInodeArray a
    → IsInodeArray before
    → Returns (λ out. vfs_load out before ≡ some a) (vfs_sync a disk)
unfolding vfs_load
vfs_sync-load a before disk v w =
    Returns-mono (AllStored a 0 max_inodes) (λ out. load_inodes max_inodes 0 out before ≡ some a)
      (vfs_sync a disk) (vfs_sync_lem a disk v)
      (λ out st.
        load_inodes_lem max_inodes 0 a before out (omega arith) v w st
          (λ j less. absurd (omega arith)))
