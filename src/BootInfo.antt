-- ===== src/BootInfo.antt =====
-- second/bootinfo.c: the list of tagged records that the kernel is given, without the hardware map,
-- which no build asks for. The memory is a function from addresses to bytes.
pub mod Records
pub mod Kernel
pub mod Banks
use emile.Common.{
  ℕ, zero, suc, ◌+◌, ◌*◌, ◌/◌, ◌%◌, ◌^◌, Option, none, some, List, [], ◌∷◌, ◌++◌, Bytes, ltb, ◌==◌,
  if◌then◌else◌, length,
}
use emile.Common.Slice.{put_bytes}

abbrev pub Memory : Type 0
Memory = ℕ → ℕ

-- `struct bi_Macintosh`, as far as it is given to the kernel
pub record Macintosh : Type 0 where
  pub videoaddr : ℕ
  pub videorow : ℕ
  pub videodepth : ℕ
  pub dimensions : ℕ
  pub boottime : ℕ
  pub gmtbias : ℕ
  pub videological : ℕ
  pub scc_read : ℕ
  pub scc_write : ℕ
  pub id : ℕ
  pub memsize : ℕ
  pub cpuid : ℕ
  pub rombase : ℕ

-- `struct mem_info`
pub record MemInfo : Type 0 where
  pub addr : ℕ
  pub size : ℕ

-- `struct bootinfo`; `memory` has `num_memory` entries, and `command_line` is the text in front of
-- the final 0.
pub record BootInfo : Type 0 where
  pub machtype : ℕ
  pub cputype : ℕ
  pub memory : List MemInfo
  pub ramdisk_size : ℕ
  pub ramdisk_addr : ℕ
  pub command_line : Bytes
  pub bi_mac : Macintosh

-- The bytes of a `short` and of a `long`
abbrev pub short_bytes : ℕ → Bytes
short_bytes n = n / 2 ^ 8 % 2 ^ 8 ∷ n % 2 ^ 8 ∷ []

abbrev pub long_bytes : ℕ → Bytes
long_bytes n = n / 2 ^ 24 % 2 ^ 8 ∷ n / 2 ^ 16 % 2 ^ 8 ∷ n / 2 ^ 8 % 2 ^ 8 ∷ n % 2 ^ 8 ∷ []

abbrev pub mem_info_bytes : MemInfo → Bytes
mem_info_bytes mi = long_bytes mi.addr ++ long_bytes mi.size

abbrev pub aligned_size : ℕ → ℕ
aligned_size n = (n + 3) / 4 * 4

-- The address of the next record and the memory; `none` is the halt of `error`.
abbrev pub Writer : Type 0
Writer = ℕ × Memory → Option (ℕ × Memory)

infixl 5 ◌>>◌
abbrev pub ◌>>◌ : Writer → Writer → Writer
◌>>◌ f g s = elim (f s) [ none ↦ none | some t ↦ g t ]

abbrev pub skip : Writer
skip s = some s

-- `dst = add_v2_boot_record (dst, tag, in_data_size, in_data)`; the bytes between the data and the
-- next record are left alone.
unfoldable pub add_v2_boot_record : ℕ → Bytes → Writer
add_v2_boot_record tag in_data (dst, m) =
    if dst % 4 == 0
    then some (
      dst + 4 + aligned_size (length in_data),
      put_bytes in_data
          (put_bytes (short_bytes (aligned_size (length in_data) + 4))
            (put_bytes (short_bytes tag) m dst) (dst + 2))
          (dst + 4),
    )
    else none

-- A record of a `long`
abbrev pub add_long : ℕ → ℕ → Writer
add_long tag n = add_v2_boot_record tag (long_bytes n)

-- The `switch` on `boot_info.cputype & CPU_MASK`: CPU_68020 is bit 0 of EMILE's type, and so on;
-- the kernel has the same numbers for the processor and its MMU.
unfoldable pub v2_cpu : ℕ → ℕ
v2_cpu cputype =
    let cpu = cputype % 32 in
    if cpu == 1
    then 1
    else if cpu == 2
    then 2
    else if cpu == 4
    then 4
    else if cpu == 8
    then 8
    else 0

-- The `switch` on `boot_info.cputype & FPU_MASK`
unfoldable pub v2_fpu : ℕ → ℕ
v2_fpu cputype =
    let fpu = cputype / 32 % 128 in
    if fpu == 1
    then 1
    else if fpu == 2
    then 2
    else if fpu == 4
    then 4
    else if fpu == 8
    then 8
    else 0

-- `for (l1 = 0; l1 < boot_info.num_memory; l1++)`
unfoldable pub add_memory : List MemInfo → Writer
add_memory [] = skip
add_memory (mi ∷ rest) = do add_v2_boot_record 0x0005 (mem_info_bytes mi); add_memory rest

unfoldable pub add_ramdisk : BootInfo → Writer
add_ramdisk bi =
    if bi.ramdisk_size == 0
    then skip
    else add_v2_boot_record 0x0006
        (mem_info_bytes (record { addr = bi.ramdisk_addr; size = bi.ramdisk_size }))

unfoldable pub add_video : Macintosh → Writer
add_video mac = if mac.videoaddr == 0 then skip else (do
  add_long 0x8001 mac.videoaddr
  add_long 0x8002 mac.videodepth
  add_long 0x8003 mac.videorow
  add_long 0x8004 mac.dimensions
  add_long 0x8005 mac.videological)

unfoldable pub set_kernel_bootinfo : BootInfo → Writer
set_kernel_bootinfo bi = do
  add_long 0x0001 bi.machtype
  add_long 0x0002 (v2_cpu bi.cputype)
  add_long 0x0003 (v2_fpu bi.cputype)
  add_long 0x0004 (v2_cpu bi.cputype)
  add_memory bi.memory
  add_ramdisk bi
  add_v2_boot_record 0x0007 (bi.command_line ++ 0 ∷ [])
  add_long 0x8000 bi.bi_mac.id
  add_video bi.bi_mac
  add_long 0x8006 bi.bi_mac.scc_read
  add_long 0x800c bi.bi_mac.scc_write
  add_long 0x8007 bi.bi_mac.boottime
  add_long 0x8008 bi.bi_mac.gmtbias
  add_long 0x8009 bi.bi_mac.memsize
  add_long 0x800a bi.bi_mac.cpuid
  add_long 0x800b bi.bi_mac.rombase
  add_v2_boot_record 0x0000 []
