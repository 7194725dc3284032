-- ===== src/Stream/Path.antt =====
-- The path of a stream, "<fs>:(<device><unit>,<partition>)<file>", read back.
use native.Mathlib.Nat.{pow-suc, pow-zero}
use emile.Common.{
  ℕ, ◌+◌, ◌-◌, ◌*◌, ◌^◌, ◌<◌, ◌≡◌, refl, ap, Bool, true, false, ◌&&◌, Option, none, some, [], ◌∷◌,
  ◌++◌, Bytes, arith, leb, length,
}
use emile.Unix.{digit_of}
use emile.Unix.Strtol.{number, AllDigits}
use emile.Stream.{
  Support, DeviceId, floppy, scsi, FileSystem, ext2, iso9660, container, block, unspecified,
  block_word, container_word, iso9660_word, ext2_word, get_fs, read_number, get_unit, get_device,
}

abbrev pub fs_word : FileSystem → Bytes
fs_word ext2 = ext2_word
fs_word iso9660 = iso9660_word
fs_word container = container_word
fs_word block = block_word
fs_word unspecified = []

abbrev pub has_fs : Support → FileSystem → Bool
has_fs support ext2 = support.ext2
has_fs support iso9660 = support.iso9660
has_fs support container = support.container
has_fs support block = support.block
has_fs support unspecified = true

abbrev pub device_word : DeviceId → Bytes
device_word floppy = b'f' ∷ b'd' ∷ []
device_word scsi = b's' ∷ b'd' ∷ []

abbrev pub has_device : Support → DeviceId → Bool
has_device support floppy = support.floppy
has_device support scsi = support.scsi

-- The digits of the partition, if there is one.
abbrev pub partition_text : Option Bytes → Bytes
partition_text none = []
partition_text (some es) = b',' ∷ es

abbrev pub partition_of : Option Bytes → Option ℕ
partition_of none = none
partition_of (some es) = some (number 10 es)

abbrev pub PartitionDigits : Option Bytes → Type 0
PartitionDigits none = Unit
PartitionDigits (some es) = AllDigits 10 es

abbrev pub device_text : DeviceId → Bytes → Option Bytes → Bytes → Bytes
device_text d ds p file = b'(' ∷ (device_word d ++ (ds ++ (partition_text p ++ b')' ∷ file)))

get_fs-fs_word :
    (support : Support) (fs : FileSystem) (rest : Bytes)
    → has_fs support fs ≡ true
    → get_fs support (fs_word fs ++ b'(' ∷ rest) ≡ (fs, b'(' ∷ rest)
unfolding get_fs
get_fs-fs_word support block rest h = ground arith
get_fs-fs_word support container rest h = ground arith
get_fs-fs_word support iso9660 rest h = ground arith
get_fs-fs_word support ext2 rest h = ground arith
get_fs-fs_word support unspecified rest h = ground arith

read_number-number :
    (nb : ℕ) (ds : Bytes) (c : ℕ) (rest : Bytes)
    → AllDigits 10 ds
    → (leb b'0' c && leb c b'9') ≡ false
    → read_number nb (ds ++ c ∷ rest) ≡ (nb * 10 ^ length ds + number 10 ds, c ∷ rest)
unfolding read_number
read_number-number nb [] c rest all ends = ground (arith, pow-zero 10)
read_number-number nb (d ∷ ds) c rest (h, all) ends =
    let digit : (leb b'0' d && leb d b'9') ≡ true = unfold digit_of in ground arith in
    let value : d - b'0' ≡ digit_of d = unfold digit_of in ground arith in
    ground (
      arith,
      read_number-number (nb * 10 + (d - b'0')) ds c rest all ends,
      ap (λ t. nb * t) (pow-suc 10 (length ds)),
      ap (λ t. t * 10 ^ length ds) value,
    )

get_unit-text :
    (d : DeviceId) (ds : Bytes) (p : Option Bytes) (file : Bytes)
    → AllDigits 10 ds
    → PartitionDigits p
    → get_unit d (ds ++ (partition_text p ++ b')' ∷ file))
      ≡ some
          (record { device = d; unit = number 10 ds; partition = partition_of p; path = some file })
unfolding get_unit
get_unit-text d ds none file all all' = ground (arith, read_number-number 0 ds b')' file all refl)
get_unit-text d ds (some es) file all all' = ground (
  arith,
  read_number-number 0 ds b',' (es ++ b')' ∷ file) all refl,
  read_number-number 0 es b')' file all' refl,
)

-- `get_fs` and `get_device` read back what a path "<fs>:(<device><unit>,<partition>)<file>" was put
-- together from, with or without a file system and a partition: the file system, the device, the
-- numbers of the unit and the partition, and the path of the file. It holds for a file system and a
-- device that the booter was built with, decimal digits, and numbers that fit an `int`.
pub get_device-device_text :
    (support : Support) (default_unit : Option ℕ) (fs : FileSystem) (d : DeviceId) (ds : Bytes)
    (p : Option Bytes) (file : Bytes)
    → has_fs support fs ≡ true
    → has_device support d ≡ true
    → AllDigits 10 ds
    → PartitionDigits p
    → number 10 ds < 2 ^ 31
    → ((n : ℕ) → partition_of p ≡ some n → n < 2 ^ 31)
    → (get_fs support (fs_word fs ++ device_text d ds p file) ≡ (fs, device_text d ds p file))
      × (get_device support default_unit (device_text d ds p file)
          ≡ some (record {
            device = d;
            unit = number 10 ds;
            partition = partition_of p;
            path = some file;
          }))
unfolding get_device
get_device-device_text support default_unit fs d ds p file hf hd all all' small small' =
    (get_fs-fs_word support fs _ hf, go d hd)
  where
    go :
        (d : DeviceId)
        → has_device support d ≡ true
        → get_device support default_unit (device_text d ds p file)
          ≡ some (record {
            device = d;
            unit = number 10 ds;
            partition = partition_of p;
            path = some file;
          })
    go floppy h = ground (arith, get_unit-text floppy ds p file all all')
    go scsi h = ground (arith, get_unit-text scsi ds p file all all')
