-- ===== src/Ext2/Read.antt =====
-- `ext2_read_data` against the bytes of the file.
use mathlib.Core.List.{append-nil, append_assoc}
use emile.Common.{
  ℕ, zero, suc, ◌+◌, ◌-◌, ◌*◌, ◌/◌, ◌%◌, ◌^◌, ◌≤◌, ◌<◌, ◌≡◌, refl, sym, ap, ap₂, ◌∙◌, inl, inr,
  Option, some, none, List, [], ◌∷◌, ◌++◌, Bytes, true, false, arith, ltb, leb, ◌==◌, if◌then◌else◌,
  Bool-cases, min, take, drop,
}
use emile.Common.Slice.{slice, slice-append, slice-cong, length-slice, slice-eq, take-drop-slice}
use emile.Common.Arith.{quotient_of, remainder_of, block_split, mod-lt_of_pos}
use emile.Device.{Device}
use emile.Ext2.{
  Layout, Volume, Inode, read_logical, read_blocks, read_range, failed, returned, outcome,
  ext2_read_data, Ext2File, ext2_read, advance,
}
use emile.Ext2.Address.{
  word_at, walk, Walkable, root_of, path_of, IsLocated, IsVolume, IsLayout, holding,
  ext2_read_block-holding, ext2_get_block_addr-walk,
}

-- The block of the disk that holds block `logical` of the file.
abbrev pub block_of : (ℕ → ℕ) → Layout → Inode → ℕ → ℕ
block_of disk layout inode logical =
    walk disk layout (root_of layout inode logical) (path_of layout logical)

-- The byte at a position of a file that is spread over blocks of `bs` bytes.
abbrev pub content : (ℕ → ℕ) → ℕ → (ℕ → ℕ) → ℕ → ℕ
content disk bs at p = disk (at (p / bs) * bs + p % bs)

part-content :
    (disk : ℕ → ℕ) (bs : ℕ) (at : ℕ → ℕ) (l shift n : ℕ)
    → shift + n ≤ bs
    → take n (drop shift (slice disk (at l * bs) bs))
      ≡ slice (content disk bs at) (l * bs + shift) n
part-content disk bs at l shift n fits =
    take-drop-slice disk (at l * bs) shift n bs fits
    ∙ slice-eq disk (content disk bs at) (at l * bs + shift) (l * bs + shift) n (λ i lt. ap disk (
        omega arith
        ∙ sym (
            ap₂ (λ q r. at q * bs + r)
              (ap (λ t. t / bs) (omega arith) ∙ quotient_of bs l (shift + i) (omega arith))
              (ap (λ t. t % bs) (omega arith) ∙ remainder_of bs l (shift + i) (omega arith)))))

-- The next `n` bytes of an open file.
abbrev pub file_bytes : (ℕ → ℕ) → Layout → Ext2File → ℕ → Bytes
file_bytes disk layout file n =
    slice (content disk layout.block_size (block_of disk layout file.inode)) file.offset n

Walkable-end :
    (P : ℕ → Type 0) (disk : ℕ → ℕ) (layout : Layout) (b : ℕ) (path : List ℕ)
    → Walkable P disk layout b path
    → P (walk disk layout b path)
Walkable-end P disk layout b [] w = w
Walkable-end P disk layout b (i ∷ path) (r, lt, w) =
    Walkable-end P disk layout (word_at disk layout b i) path w

module _ (dev : Device) (disk : ℕ → ℕ) (layout : Layout) (is_layout : IsLayout layout)
    (inode : Inode)
    (mapped : (l : ℕ)
      → l * layout.block_size < inode.i_size
      → IsLocated dev disk layout inode l) where
  loaded :
      (volume : Volume) (l : ℕ)
      → IsVolume disk layout volume
      → l * layout.block_size < inode.i_size
      → read_logical dev layout volume inode l
        ≡ holding dev disk layout is_layout (block_of disk layout inode l)
  unfolding read_logical
  loaded volume l h lt =
      let (v, e, h') =
        ext2_get_block_addr-walk dev disk layout is_layout volume inode l h (mapped l lt) in
      rw e (
        ext2_read_block-holding dev disk layout is_layout v _ h'
          (Walkable-end _ disk layout _ (path_of layout l) (mapped l lt).1))

  -- The bytes of the file.
  abbrev bytes : ℕ → ℕ → Bytes
  bytes = slice (content disk layout.block_size (block_of disk layout inode))

  -- The result of a read whose bytes are known.
  abbrev Reads : Option (Bytes × Volume) → Bytes → Type 0
  Reads r out = (v : Volume) × (r ≡ some (out, v)) × IsVolume disk layout v

  abbrev held : ℕ → Volume
  held l = holding dev disk layout is_layout (block_of disk layout inode l)

  in_order : (l : ℕ) → IsVolume disk layout (held l)
  in_order l = record { cached = refl }

  buffered :
      (l n : ℕ) → n ≤ layout.block_size → take n (held l).buffer ≡ bytes (l * layout.block_size) n
  buffered l n le =
      part-content disk layout.block_size (block_of disk layout inode) l 0 n (omega arith)
      ∙ slice-cong (content disk layout.block_size (block_of disk layout inode)) (omega arith) refl

  -- A whole block, and the bytes behind it.
  joined :
      (l n : ℕ) (done : Bytes)
      → layout.block_size ≤ n
      → (done ++ take layout.block_size (held l).buffer)
          ++ bytes ((l + 1) * layout.block_size) (n - layout.block_size)
        ≡ done ++ bytes (l * layout.block_size) n
  joined l n done le =
      append_assoc done _ _
      ∙ ap (◌++◌ done) (
          ap₂ ◌++◌ (buffered l layout.block_size (omega arith)) (
            slice-cong (content disk layout.block_size (block_of disk layout inode)) (omega arith)
              refl)
          ∙ slice-append (content disk layout.block_size (block_of disk layout inode))
              (l * layout.block_size) layout.block_size (n - layout.block_size)
          ∙ slice-cong (content disk layout.block_size (block_of disk layout inode)) refl
              (omega arith))

  read_blocks-bytes :
      (fuel : ℕ) (volume : Volume) (l n : ℕ) (done : Bytes)
      → n < fuel
      → 0 < layout.block_size
      → IsVolume disk layout volume
      → l * layout.block_size + n ≤ inode.i_size
      → Reads
          (read_blocks dev layout fuel volume inode l n done)
          (done ++ bytes (l * layout.block_size) n)
  unfolding read_blocks
  read_blocks-bytes zero volume l n done lt some_bytes h room = absurd (omega arith)
  read_blocks-bytes (suc fuel) volume l n done lt some_bytes h room = elim (Bool-cases (n == 0)) [
    | inl end ↦ rw (end, read_blocks) (nothing n (ground arith))
    | inr more ↦ elim (Bool-cases (ltb n layout.block_size)) [
      | inl last ↦
          rw (more, read_blocks, last, loaded volume l h (ground arith))
            (held l, ap (λ t. some (done ++ t, held l)) (buffered l n (ground arith)), in_order l)
      | inr whole ↦
          let (v, e, h') =
            read_blocks-bytes fuel (held l) (l + 1) (n - layout.block_size)
              (done ++ take layout.block_size (held l).buffer) (ground arith) some_bytes
              (in_order l) (ground arith) in
          rw (more, read_blocks, whole, loaded volume l h (ground arith))
            (v, e ∙ ap (λ t. some (t, v)) (joined l n done (ground arith)), h')
    ]
  ]
    where
      nothing :
          (k : ℕ) → k ≡ 0 → Reads (some (done, volume)) (done ++ bytes (l * layout.block_size) k)
      nothing k e = rw e (rw append-nil (volume, refl, h))

  partial :
      (offset n : ℕ)
      → 0 < layout.block_size
      → offset % layout.block_size + n ≤ layout.block_size
      → take n (drop (offset % layout.block_size) (held (offset / layout.block_size)).buffer)
        ≡ bytes offset n
  partial offset n some_bytes fits =
      part-content disk layout.block_size (block_of disk layout inode) (offset / layout.block_size)
        (offset % layout.block_size) n fits
      ∙ slice-cong (content disk layout.block_size (block_of disk layout inode))
          (block_split offset layout.block_size some_bytes) refl

  -- Behind a first part come the blocks.
  returned_blocks :
      (volume : Volume) (offset l part rest n : ℕ)
      → 0 < layout.block_size
      → part + rest ≡ n
      → IsVolume disk layout volume
      → offset + part ≡ l * layout.block_size
      → offset + n ≤ inode.i_size
      → (v : Volume) × (outcome
            (read_blocks dev layout (suc n) volume inode l rest (bytes offset part))
          ≡ returned (bytes offset n) v)
        × IsVolume disk layout v
  returned_blocks volume offset l part rest n some_bytes le h place room =
      let (v, e, h') =
        read_blocks-bytes (suc n) volume l rest (bytes offset part) (omega arith) some_bytes h
          (omega arith) in
      (v, ap outcome e ∙ ap (λ t. returned t v) whole, h')
    where
      whole : bytes offset part ++ bytes (l * layout.block_size) rest ≡ bytes offset n
      whole =
          ap (◌++◌ (bytes offset part)) (
            slice-cong (content disk layout.block_size (block_of disk layout inode)) (sym place)
              refl)
          ∙ slice-append (content disk layout.block_size (block_of disk layout inode)) offset part
              rest
          ∙ slice-cong (content disk layout.block_size (block_of disk layout inode)) refl
              (omega arith)

  read_range-bytes :
      (volume : Volume) (offset n : ℕ)
      → 0 < layout.block_size
      → offset < inode.i_size
      → IsVolume disk layout volume
      → offset + n ≤ inode.i_size
      → (v : Volume) × (read_range dev layout volume inode offset n ≡ returned (bytes offset n) v)
        × IsVolume disk layout v
  unfolding read_range
  read_range-bytes volume offset n some_bytes more h room =
      let bs = layout.block_size in
      let split = block_split offset bs some_bytes in
      let inside = mod-lt_of_pos offset bs some_bytes in
      elim (Bool-cases (offset % bs == 0)) [
        | inl aligned ↦ rw aligned (
            returned_blocks volume offset (offset / bs) 0 n n some_bytes (omega arith) h
              (ground arith) room)
        | inr shifted ↦
            let now = loaded volume (offset / bs) h (omega arith) in
            elim (Bool-cases (ltb n (bs - offset % bs))) [
              | inl short ↦
                  rw (shifted, now, short)
                    (
                      held (offset / bs),
                      ap (λ t. returned t (held (offset / bs)))
                          (partial offset n some_bytes (ground arith)),
                      in_order (offset / bs),
                    )
              | inr long ↦
                  rw
                    (shifted, now, long, partial offset (bs - offset % bs) some_bytes (omega arith))
                    (returned_blocks (held (offset / bs)) offset (offset / bs + 1)
                      (bs - offset % bs) (n - (bs - offset % bs)) n some_bytes (ground arith)
                      (in_order (offset / bs)) (omega arith) room)
            ]
      ]

  pub ext2_read_data-bytes :
      (volume : Volume) (offset n : ℕ)
      → 0 < layout.block_size
      → inode.i_size < 2 ^ 31
      → offset + n < 2 ^ 32
      → IsVolume disk layout volume
      → offset < inode.i_size
      → (v : Volume) × (ext2_read_data dev layout volume inode offset n
          ≡ returned (bytes offset (min n (inode.i_size - offset))) v)
        × IsVolume disk layout v
  unfolding ext2_read_data
  ext2_read_data-bytes volume offset n some_bytes ints sum h inside =
      let cut : (if leb inode.i_size ((offset + n) % 2 ^ 32) then inode.i_size - offset else n)
          ≡ min n (inode.i_size - offset) =
        ground arith in
      let below : leb inode.i_size offset ≡ false = ground arith in
      let positive : leb (2 ^ 31) offset ≡ false = ground arith in
      rw (below, positive, cut)
        (read_range-bytes volume offset (min n (inode.i_size - offset)) some_bytes inside h
          (omega arith))

-- `ext2_read` ends within its fuel. Behind the end of the file it returns -1. In front of it, it
-- stores the bytes of the file from its offset on, as many as are asked for and the file has left,
-- advances the offset by their number, and leaves the current block in the buffer. It holds for
-- blocks that are not empty and have at least four bytes an address, a square of the addresses below
-- 2 ^ 32, a file below 2 ^ 31 bytes, a count whose sum with the offset is below 2 ^ 32, a buffer that
-- holds the current block, and a file in front of the blocks behind the triple indirect one, each of
-- whose blocks is at the end of a walk of blocks that the device delivers, whose own blocks divide
-- those of the file system, with numbers below 2 ^ 32.
pub ext2_read-bytes :
    (dev : Device) (disk : ℕ → ℕ) (layout : Layout) (volume : Volume) (file : Ext2File) (count : ℕ)
    → IsLayout layout
    → 0 < layout.block_size
    → file.inode.i_size < 2 ^ 31
    → file.offset + count < 2 ^ 32
    → IsVolume disk layout volume
    → ((l : ℕ) → l * layout.block_size < file.inode.i_size → IsLocated dev disk layout file.inode l)
    → (file.inode.i_size ≤ file.offset → ext2_read dev layout volume file count ≡ none)
      × (file.offset < file.inode.i_size
          → (v : Volume) × (ext2_read dev layout volume file count
              ≡ some (
                file_bytes disk layout file (min count (file.inode.i_size - file.offset)),
                v,
                record file { offset = file.offset + min count (file.inode.i_size - file.offset) },
              ))
            × IsVolume disk layout v)
unfolding ext2_read
ext2_read-bytes dev disk layout volume file count is_layout some_bytes ints sum h mapped = (
  λ behind. ap (advance file) (refused behind),
  λ inside.
      let (v, e, h') =
        ext2_read_data-bytes dev disk layout is_layout file.inode mapped volume file.offset count
          some_bytes ints sum h inside in
      (
        v,
        ap (advance file) e
            ∙ ap
                (λ n. some (
                  file_bytes disk layout file (min count (file.inode.i_size - file.offset)),
                  v,
                  record file { offset = file.offset + n },
                ))
                (length-slice _ file.offset (min count (file.inode.i_size - file.offset))),
        h',
      ),
)
  where
    refused :
        file.inode.i_size ≤ file.offset
        → ext2_read_data dev layout volume file.inode file.offset count ≡ failed
    refused behind =
        let at_end : leb file.inode.i_size file.offset ≡ true = ground arith in rw at_end refl
