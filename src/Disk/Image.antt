-- ===== src/Disk/Image.antt =====
-- An inode and its bytes in memory.
use anaga.Prelude.{
  ℕ, suc, ◌+◌, ◌<◌, ◌≡◌, refl, ap, ◌∙◌, subst, List, [], ◌∷◌, ◌++◌, arith, length, take, drop,
  AllAt, drop-behind, take-front,
}
use anaga.File.{Inode, u32}
use anaga.File.Valid.{IsInode}
use anaga.CString.Nul.{take_all}
use anaga.Disk.Sync.{length-word_bytes, length-words_bytes}
use anaga.Disk.{word_bytes, words_bytes, inode_bytes, bytes_word, bytes_words, bytes_inode}

bytes_word-word_bytes : (w : ℕ) → w < u32 → bytes_word (word_bytes w) ≡ w
unfolding bytes_word word_bytes
bytes_word-word_bytes w h = omega arith

words_round :
    (ws rest : List ℕ)
    → AllAt (λ k w. w < u32) ws
    → bytes_words (length ws) (words_bytes ws ++ rest) ≡ ws
unfolding bytes_words words_bytes word_bytes
words_round [] rest h = refl
words_round (w ∷ ws) rest h =
    ap (λ x. x ∷ bytes_words (length ws) (words_bytes ws ++ rest))
      (bytes_word-word_bytes w (h 0 w refl))
    ∙ ap (λ l. w ∷ l) (words_round ws rest (λ k x e. h (suc k) x e))

word_behind :
    (w : ℕ) (rest : List ℕ) (q r : ℕ) → r ≡ 4 + q → drop r (word_bytes w ++ rest) ≡ drop q rest
word_behind w rest q r e = drop-behind (word_bytes w) rest q r (omega (arith, length-word_bytes w))

word_front : (w : ℕ) (rest : List ℕ) → w < u32 → bytes_word (take 4 (word_bytes w ++ rest)) ≡ w
word_front w rest h =
    ap bytes_word (take-front (word_bytes w) rest 4 (length-word_bytes w))
    ∙ bytes_word-word_bytes w h

-- Reading an inode from its bytes gives the inode.
pub bytes_inode-inode_bytes : (x : Inode) → IsInode x → bytes_inode (inode_bytes x) ≡ x
unfolding bytes_inode inode_bytes
bytes_inode-inode_bytes x v =
    let n = x.name in
    let t = word_bytes x.type in
    let s = word_bytes x.size in
    let p = word_bytes x.parent_inode in
    let k = word_bytes x.num_entries in
    let d = words_bytes x.dir_entries in
    let r5 = d ++ x.bytes in
    let r4 = k ++ r5 in
    let r3 = p ++ r4 in
    let r2 = s ++ r3 in
    let r1 = t ++ r2 in
    let at_32 : drop 32 (n ++ r1) ≡ r1 = drop-behind n r1 0 32 (omega (arith, v.name_size)) in
    let at_36 : drop 36 (n ++ r1) ≡ r2 =
      drop-behind n r1 4 36 (omega (arith, v.name_size))
      ∙ word_behind x.type r2 0 4 (omega arith) in
    let at_40 : drop 40 (n ++ r1) ≡ r3 =
      drop-behind n r1 8 40 (omega (arith, v.name_size))
      ∙ word_behind x.type r2 4 8 (omega arith)
      ∙ word_behind x.size r3 0 4 (omega arith) in
    let at_44 : drop 44 (n ++ r1) ≡ r4 =
      drop-behind n r1 12 44 (omega (arith, v.name_size))
      ∙ word_behind x.type r2 8 12 (omega arith)
      ∙ word_behind x.size r3 4 8 (omega arith)
      ∙ word_behind x.parent_inode r4 0 4 (omega arith) in
    let at_48 : drop 48 (n ++ r1) ≡ r5 =
      drop-behind n r1 16 48 (omega (arith, v.name_size))
      ∙ word_behind x.type r2 12 16 (omega arith)
      ∙ word_behind x.size r3 8 12 (omega arith)
      ∙ word_behind x.parent_inode r4 4 8 (omega arith)
      ∙ word_behind x.num_entries r5 0 4 (omega arith) in
    let at_112 : drop 112 (n ++ r1) ≡ x.bytes =
      drop-behind n r1 80 112 (omega (arith, v.name_size))
      ∙ word_behind x.type r2 76 80 (omega arith)
      ∙ word_behind x.size r3 72 76 (omega arith)
      ∙ word_behind x.parent_inode r4 68 72 (omega arith)
      ∙ word_behind x.num_entries r5 64 68 (omega arith)
      ∙ drop-behind d x.bytes 0 64
          (omega (arith, length-words_bytes x.dir_entries, v.entries_size)) in
    let entries : bytes_words 16 r5 ≡ x.dir_entries =
      subst (λ m. bytes_words m r5 ≡ x.dir_entries) v.entries_size
        (words_round x.dir_entries x.bytes (λ i c e. omega (arith, v.entries_in i c e))) in
    let whole : take 8192 x.bytes ≡ x.bytes = take_all 8192 x.bytes (omega (arith, v.bytes_size)) in
    rw
      (
        take-front n r1 32 v.name_size,
        at_32,
        at_36,
        at_40,
        at_44,
        at_48,
        at_112,
        entries,
        whole,
        word_front x.type r2 v.type_fits,
        word_front x.size r3 (omega (arith, v.size_fits)),
        word_front x.parent_inode r4 (omega (arith, v.parent_in)),
        word_front x.num_entries r5 (omega (arith, v.entries_used)),
      )
      refl
