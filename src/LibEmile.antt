-- ===== src/LibEmile.antt =====
-- libemile: the table of extents of a file on a SCSI disk (libemile/emile_scsi_create_container.c).
pub mod Extents
pub mod Created
pub mod Param
pub mod First
use emile.Common.{
  ℕ, zero, suc, ◌+◌, ◌-◌, ◌*◌, ◌/◌, ◌%◌, ◌^◌, true, false, Option, none, some, List, [], ◌∷◌, ◌++◌,
  ltb, ◌==◌, if◌then◌else◌, length,
}
use emile.Container.{EmileBlock, EmileContainer}

-- What the operating system answers: `fstat`, the start of the partition, FIGETBSZ, and FIBMAP for
-- the number of a block of the file; `none` is a failed call.
pub record System : Type 0 where
  pub st_size : Option ℕ
  pub first_block : Option ℕ
  pub block_size : Option ℕ
  pub fibmap : ℕ → Option ℕ

-- `*block_size` of `get_device_info`
abbrev pub sector_size : ℕ
sector_size = 512

-- What an entry of the table keeps of two numbers.
abbrev pub entry : ℕ → ℕ → EmileBlock
entry a b = record { offset = a % 2 ^ 32; count = b % 2 ^ 16 }

-- `ADD_BLOCK` behind the entries so far; `none` is "Container overflow".
pub add_block : ℕ → List EmileBlock → ℕ → ℕ → Option (List EmileBlock)
add_block maxblocks blocks a b =
    let blocks' = blocks ++ entry a b ∷ [] in
    if ltb maxblocks (length blocks') then none else some blocks'

-- An extent of `aggregate` blocks of the file system from `zone` on.
abbrev pub add_extent : ℕ → ℕ → ℕ → List EmileBlock → ℕ → ℕ → Option (List EmileBlock)
add_extent maxblocks first_block sectors_per_block blocks zone aggregate =
    add_block maxblocks blocks (first_block + zone * sectors_per_block)
      (aggregate * sectors_per_block)

-- Behind the loop.
pub end_list : ℕ → ℕ → ℕ → List EmileBlock → ℕ → ℕ → Option (List EmileBlock)
unfolding add_block
end_list maxblocks first_block sectors_per_block blocks zone aggregate =
    elim (add_extent maxblocks first_block sectors_per_block blocks zone aggregate) [
      | none ↦ none
      | some blocks' ↦ add_block maxblocks blocks' 0 0
    ]

-- The `for` loop with a number of rounds left, and what follows it.
pub map_loop : System → ℕ → ℕ → ℕ → ℕ → ℕ → List EmileBlock → ℕ → ℕ → ℕ → Option (List EmileBlock)
map_loop sys maxblocks first_block spb zero logical blocks zone aggregate last =
    end_list maxblocks first_block spb blocks zone aggregate
map_loop sys maxblocks first_block spb (suc rounds) logical blocks zone aggregate last =
    elim (sys.fibmap logical) [
      | none ↦ end_list maxblocks first_block spb blocks zone aggregate
      | some physical ↦ elim (physical == last + 1) [
        | true ↦
            map_loop sys maxblocks first_block spb rounds (logical + 1) blocks zone (aggregate + 1)
              physical
        | false ↦ elim (add_extent maxblocks first_block spb blocks zone aggregate) [
          | none ↦ none
          | some blocks' ↦
              map_loop sys maxblocks first_block spb rounds (logical + 1) blocks' physical 1
                physical
        ]
      ]
    ]

-- `(st.st_size + block_size - 1) / block_size`
abbrev pub blocks_of : ℕ → ℕ → ℕ
blocks_of size block_size = (size + block_size - 1) / block_size

-- `emile_scsi_create_container` from the call of `fstat` on; `none` is a return of -1.
unfoldable pub emile_scsi_create_container : System → ℕ → Option EmileContainer
unfolding map_loop end_list add_block
emile_scsi_create_container sys maxblocks = elim sys.st_size [
  | none ↦ none
  | some size ↦ elim sys.first_block [
    | none ↦ none
    | some first_block ↦ elim sys.block_size [
      | none ↦ none
      | some block_size ↦ elim (sys.fibmap 0) [
        | none ↦ none
        | some physical ↦
            elim (map_loop sys maxblocks first_block (block_size / sector_size)
              (blocks_of size block_size - 1) 1 [] physical 1 physical) [
                | none ↦ none
                | some blocks ↦ some (record { size = size % 2 ^ 32; blocks = blocks })
              ]
      ]
    ]
  ]
]
