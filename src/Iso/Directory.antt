-- ===== src/Iso/Directory.antt =====
-- libiso9660: the records of a directory, and the search for a path.
pub mod Walk
pub mod Ends
use emile.Common.{
  ℕ, zero, suc, ◌+◌, ◌-◌, ◌*◌, ◌/◌, ◌^◌, Bool, true, false, ◌&&◌, Option, none, some, List, [], ◌∷◌,
  Bytes, ltb, leb, ◌==◌, if◌then◌else◌, length, get_or, take, drop,
}
use emile.Common.Int.{ℤ, pos, negsuc}
use emile.Device.{Device}
use emile.Unix.{strcmp}
use emile.Iso.{extent_size, fetch}

-- Where a record of a directory (linux/iso_fs.h) has its fields.
pub record Layout : Type 0 where
  pub extent_at : ℕ
  pub size_at : ℕ
  pub name_len_at : ℕ
  pub name_at : ℕ

-- `iso9660_VOLUME`; the last field says that memory for a directory can be had.
pub record Volume : Type 0 where
  pub device : Device
  pub layout : Layout
  pub ucs_level : ℕ
  pub allocates : Bool

-- `iso9660_DIR`. A length below 0 is 0, which ends the directory as well.
pub record IsoDir : Type 0 where
  pub extent : ℕ
  pub len : ℕ
  pub index : ℕ
  pub buffer : Bytes

abbrev pub isonum_733 : Bytes → ℕ → ℕ
isonum_733 bytes at =
    get_or bytes at 0
    + 2 ^ 8 * get_or bytes (at + 1) 0
    + 2 ^ 16 * get_or bytes (at + 2) 0
    + 2 ^ 24 * get_or bytes (at + 3) 0

-- `iso9660_opendir_node` of a record, with what the memory for the buffer holds
unfoldable pub opendir_node : Volume → Bytes → Bytes → Option IsoDir
opendir_node v old node =
    let size = isonum_733 node v.layout.size_at in
    if v.allocates
    then some (record {
      extent = isonum_733 node v.layout.extent_at;
      len = if leb (2 ^ 31) size then 0 else size;
      index = extent_size;
      buffer = old;
    })
    else none

-- The record at the index, and the directory behind it
unfoldable pub next_record : IsoDir → Option (Bytes × IsoDir)
next_record dir =
    let n = get_or dir.buffer dir.index 0 in
    if n == 0 then none else some (drop dir.index dir.buffer, record dir { index = dir.index + n })

-- `iso9660_readdir`
unfoldable pub readdir : Volume → IsoDir → Option (Bytes × IsoDir)
unfolding next_record
readdir v dir =
    if ltb (extent_size - v.layout.name_at) dir.index
    then (if dir.len == 0
        then none
        else next_record (record {
          extent = dir.extent + 1;
          len = dir.len - extent_size;
          index = 0;
          buffer = fetch v.device dir.extent extent_size dir.buffer;
        }))
    else next_record dir

-- The loop over the characters of a Unicode name, whose low bytes are taken.
low_bytes : ℕ → Bytes → Bytes
low_bytes zero bytes = []
low_bytes (suc n) bytes =
    (let c = get_or bytes 1 0 in if c == 0 then b'_' else c) ∷ low_bytes n (drop 2 bytes)

-- The bytes in front of a 0
before_zero : Bytes → Bytes
before_zero [] = []
before_zero (c ∷ s) = elim (c == 0) [ true ↦ [] | false ↦ c ∷ before_zero s ]

-- `iso9660_name`
unfoldable pub iso9660_name : Volume → Bytes → Bytes
unfolding low_bytes before_zero
iso9660_name v idr =
    let len = get_or idr v.layout.name_len_at 0 in
    let bytes = drop v.layout.name_at idr in
    if len == 1 && get_or bytes 0 0 == 0
    then b'.' ∷ []
    else if len == 1 && get_or bytes 0 0 == 1
    then b'.' ∷ b'.' ∷ []
    else if leb 1 v.ucs_level && leb v.ucs_level 3
    then low_bytes (len / 2) bytes
    else if v.ucs_level == 0
    then before_zero (take len bytes)
    else []

abbrev pub is_name : Bytes → Bytes → Bool
is_name name current = elim (strcmp name current) [ pos n ↦ n == 0 | negsuc n ↦ false ]

-- What a search returns: a record and what is behind it, NULL, or nothing, if its fuel is used up or
-- it writes outside of an array or through the NULL of `malloc`.
pub data Found : Type 0 where
  node : Bytes → Found
  missing out_of_fuel overrun : Found

-- The loop of `seek_name`
unfoldable pub name_loop : ℕ → Volume → Bytes → IsoDir → Found
name_loop zero v name dir = out_of_fuel
name_loop (suc fuel) v name dir = elim (readdir v dir) [
  | none ↦ missing
  | some r ↦ elim (is_name name (iso9660_name v r.0)) [
    | true ↦ node r.0
    | false ↦ name_loop fuel v name r.1
  ]
]

-- Rounds enough for a directory: 4096 for each byte of its length, and what its index leaves of 4096
abbrev pub rounds_of : IsoDir → ℕ
rounds_of dir = dir.len * 4096 + (4096 - dir.index)

unfoldable pub seek_name : Volume → Bytes → Bytes → Bytes → Found
unfolding name_loop opendir_node
seek_name v old idr name = elim (opendir_node v old idr) [
  | none ↦ missing
  | some dir ↦ name_loop (suc (rounds_of dir)) v name dir
]

-- "ignore head '/'"
unfoldable pub skip_slashes : Bytes → Bytes
skip_slashes [] = []
skip_slashes (c ∷ path) = elim (c == b'/') [ true ↦ skip_slashes path | false ↦ c ∷ path ]

-- "extract first path component"
unfoldable pub first_component : Bytes → Bytes × Bytes
first_component [] = ([], [])
first_component (c ∷ path) =
    let (name, rest) = first_component path in
    if c == b'/' then ([], c ∷ path) else (c ∷ name, rest)

-- The array `name[256]`, with room for the final 0
abbrev pub name_room : ℕ
name_room = 256

-- The loop of `iso9660_get_node`, with the search of a directory
unfoldable pub node_loop : (Bytes → Bytes → Found) → ℕ → Bytes → Bytes → Found
unfolding skip_slashes first_component
node_loop seek zero current path = out_of_fuel
node_loop seek (suc fuel) current path = elim (skip_slashes path) [
  | [] ↦ node current
  | c ∷ rest ↦
      let (name, behind) = first_component (c ∷ rest) in
      if ltb (length name) name_room
      then elim (seek current name) [
        | node found ↦ node_loop seek fuel found behind
        | missing ↦ missing
        | out_of_fuel ↦ out_of_fuel
        | overrun ↦ overrun
      ]
      else overrun
]

-- `iso9660_get_node`, whose copy of a record in `idr_new` does not test the result of `malloc`
unfoldable pub iso9660_get_node : Volume → Bytes → Bytes → Bytes → Found
unfolding node_loop seek_name
iso9660_get_node v old dirnode path =
    if v.allocates then node_loop (seek_name v old) (suc (length path)) dirnode path else overrun
