-- ===== src/Iso/Open.antt =====
-- libiso9660: mounting a volume with Joliet names (iso9660_mount.c), and opening a file on it
-- (iso9660_open.c).
pub mod Mount
pub mod Read
use emile.Common.{
  ℕ, zero, suc, ◌+◌, ◌^◌, Bool, true, false, not, ◌&&◌, ◌||◌, Option, none, some, Bytes, leb, ◌==◌,
  if◌then◌else◌, List, [], ◌∷◌, get_or, drop,
}
use emile.Common.Int.{ℤ, pos, negsuc}
use emile.Device.{Device}
use emile.Unix.{strncmp}
use emile.Iso.{IsoFile, fetch}
use emile.Iso.Directory.{
  Layout, Volume, isonum_733, Found, node, missing, out_of_fuel, overrun, iso9660_get_node,
}

-- Where a volume descriptor (linux/iso_fs.h) has its fields, its size, the values ISO_VD_PRIMARY
-- and ISO_VD_END, ISO_STANDARD_ID, and the layout of a record
pub record Descriptor : Type 0 where
  pub descriptor_size : ℕ
  pub type_at : ℕ
  pub id_at : ℕ
  pub version_at : ℕ
  pub unused3_at : ℕ
  pub root_directory_record_at : ℕ
  pub vd_primary : ℕ
  pub vd_end : ℕ
  pub standard_id : Bytes
  pub record_layout : Layout

-- The texts agree in their first five bytes.
abbrev pub same_five : Bytes → Bytes → Bool
same_five s t = elim (strncmp s t 5) [ pos n ↦ n == 0 | negsuc n ↦ false ]

-- "High Sierra format ?"
unfoldable pub is_high_sierra : Bytes → Bool
unfolding strncmp
is_high_sierra d =
    get_or d 8 0 == 1
    && (same_five (drop 9 d) (b'C' ∷ b'D' ∷ b'R' ∷ b'O' ∷ b'M' ∷ []) && get_or d 14 0 == 1)

unfoldable pub is_iso9660 : Descriptor → Bytes → Bool
unfolding strncmp
is_iso9660 f d =
    get_or d f.type_at 0 == f.vd_primary
    && (same_five (drop f.id_at d) f.standard_id && get_or d f.version_at 0 == 1)

abbrev pub is_last : Descriptor → Bytes → Bool
is_last f d = get_or d f.type_at 0 == f.vd_end

abbrev pub unused3 : Descriptor → Bytes → ℕ → ℕ
unused3 f d i = get_or d (f.unused3_at + i) 0

-- "Find the UCS escape sequence."
unfoldable pub has_escape : Descriptor → Bytes → Bool
has_escape f d =
    unused3 f d 0 == b'%'
    && (unused3 f d 1 == b'/'
        && ((unused3 f d 3 == 0 || unused3 f d 3 == b' ')
            && (unused3 f d 2 == b'@' || (unused3 f d 2 == b'C' || unused3 f d 2 == b'E'))))

-- A loop over the descriptors from `block` on, with the test that breaks it. The results of
-- `read_sector` are not looked at; `none` if the fuel runs out.
unfoldable pub scan : Device → Descriptor → (Bytes → Bool) → ℕ → ℕ → Bytes → Option Bytes
scan dev f stops zero block d = none
scan dev f stops (suc fuel) block d =
    let rest = scan dev f stops fuel (block + 1) (fetch dev (block + 1) f.descriptor_size d) in
    if is_last f d then some d else if stops d then some d else rest

-- What mounting comes to: the descriptor and the level of its names, NULL, or a loop without end
pub data Mounted : Type 0 where
  mounted : Bytes → ℕ → Mounted
  null : Mounted
  hangs : Mounted

-- From the `switch` on the level on
abbrev pub with_level : Descriptor → Bool → Bytes → Mounted
with_level f memory d =
    if unused3 f d 2 == b'@'
    then (if memory then mounted d 1 else null)
    else if unused3 f d 2 == b'C'
    then (if memory then mounted d 2 else null)
    else if unused3 f d 2 == b'E'
    then (if memory then mounted d 3 else null)
    else null

-- Behind the second loop
abbrev pub joliet : Descriptor → Bool → Option Bytes → Mounted
joliet f memory none = hangs
joliet f memory (some d) = if is_last f d then null else with_level f memory d

-- Behind the first loop, which looks for nothing, with the second test for ISO 9660
unfoldable pub again : Device → Descriptor → Bool → ℕ → Bytes → Option Bytes → Mounted
unfolding is_iso9660 has_escape scan
again dev f memory fuel ipd none = hangs
again dev f memory fuel ipd (some d) =
    if is_iso9660 f ipd then joliet f memory (scan dev f (has_escape f) fuel 16 ipd) else null

-- `iso9660_mount`: the arguments `first` and `second` say whether the calls of `malloc` have memory,
-- and `old` what is on the stack.
unfoldable pub iso9660_mount : Device → Descriptor → Bool → Bool → ℕ → Bytes → Mounted
unfolding again is_high_sierra
iso9660_mount dev f first second fuel old =
    let ipd = fetch dev 16 f.descriptor_size old in
    if is_high_sierra ipd
    then null
    else if not (is_iso9660 f ipd)
    then null
    else if not first
    then null
    else again dev f second fuel ipd (scan dev f (λ d. false) fuel 16 ipd)

-- The volume, and its root record
abbrev pub volume_of : Device → Descriptor → ℕ → Volume
volume_of dev f level = record {
  device = dev;
  layout = f.record_layout;
  ucs_level = level;
  allocates = true;
}

abbrev pub iso9660_get_root_node : Descriptor → Bytes → Bytes
iso9660_get_root_node f d = drop f.root_directory_record_at d

-- What opening comes to
pub data OpenedIso : Type 0 where
  opened : IsoFile → OpenedIso
  no_file : OpenedIso
  endless crashed : OpenedIso

-- The file of a record, with what the memory for its buffer holds. A size or an extent of 2 ^ 31 or
-- more is a negative `int`, which the model does not tell.
abbrev pub file_of : Layout → Bytes → Bytes → IsoFile
file_of layout buffer idr = record {
  base = isonum_733 idr layout.extent_at;
  size = isonum_733 idr layout.size_at;
  offset = 0;
  current = none;
  buffer = buffer;
}

-- `iso9660_open`, on a volume and its root record; `memory` says whether `malloc` has memory.
unfoldable pub iso9660_open : Volume → Bool → Bytes → Bytes → Bytes → Bytes → OpenedIso
unfolding iso9660_get_node
iso9660_open v memory old buffer root pathname = elim (iso9660_get_node v old root pathname) [
  | missing ↦ no_file
  | out_of_fuel ↦ endless
  | overrun ↦ crashed
  | node idr ↦ if memory then opened (file_of v.layout buffer idr) else no_file
]
