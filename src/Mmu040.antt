-- ===== src/Mmu040.antt =====
-- second/MMU040.c: the translation of logical addresses by the tables of the 68040.
pub mod Pages
use Prim.Native.Nat.{bit_and}
use emile.Common.{
  ℕ, ◌+◌, ◌-◌, ◌*◌, ◌/◌, ◌%◌, ◌^◌, Bool, true, false, ◌&&◌, ◌||◌, Option, none, some, leb, ◌==◌,
  not, if◌then◌else◌,
}
use emile.Common.Words.{has_bit}
use emile.Bank.{MemoryMap, m68k_init_memory_map}

-- The registers TC, DTT0, DTT1 and SRP, and the physical memory, whose words MMU040_read_phys reads.
pub record Machine : Type 0 where
  pub tc : ℕ
  pub dtt0 : ℕ
  pub dtt1 : ℕ
  pub srp : ℕ
  pub read_phys : ℕ → ℕ

-- GET_TC_ENABLE, IS_8K_PAGE and GET_TC_PAGE_SIZE
abbrev pub tc_enable : Machine → Bool
tc_enable m = has_bit 15 m.tc

abbrev pub is_8k_page : Machine → Bool
is_8k_page m = has_bit 14 m.tc

unfoldable pub get_page_size : Machine → ℕ
get_page_size m = if is_8k_page m then 8192 else 4096

-- GET_TT_ENABLE, GET_TT_BASE and GET_TT_MASK
abbrev pub tt_enable : ℕ → Bool
tt_enable tt = has_bit 15 tt

abbrev pub tt_base : ℕ → ℕ
tt_base tt = tt / 2 ^ 24 % 2 ^ 8

abbrev pub tt_mask : ℕ → ℕ
tt_mask tt = tt / 2 ^ 16 % 2 ^ 8

-- `x & ~mask` of words of 32 bits
abbrev pub without : ℕ → ℕ → ℕ
without x mask = bit_and x (2 ^ 32 - 1 - mask)

-- The address after the test of a register: `addr &= ~mask`.
unfoldable pub masked : ℕ → ℕ → ℕ
masked tt addr = if tt_enable tt then without addr (tt_mask tt) else addr

-- Whether a register matches, for the high byte of an address.
unfoldable pub matches : ℕ → ℕ → Bool
unfolding masked
matches tt addr =
    tt_enable tt
    && (leb (without (tt_base tt) (tt_mask tt)) (masked tt addr)
        && leb (masked tt addr) (without (tt_base tt) (tt_mask tt) + tt_mask tt))

-- `isTTSegment`: the second register is compared with what the first left of the address.
unfoldable pub is_tt_segment : Machine → ℕ → Bool
unfolding matches masked
is_tt_segment m addr =
    let high = addr / 2 ^ 24 in
    if matches m.dtt0 high then true else matches m.dtt1 (masked m.dtt0 high)

-- UDT_IS_INVALID or UDT_IS_RESIDENT
abbrev pub stops : ℕ → Bool
stops entry = entry % 4 == 0 || (entry % 4 == 1 || entry % 4 == 3)

-- MMU040_read_phys of the entry at an index of a table
abbrev pub entry_at : Machine → ℕ → ℕ → ℕ
entry_at m table index = m.read_phys ((table + 4 * index) % 2 ^ 32)

abbrev pub root_entry : Machine → ℕ → ℕ
root_entry m logical = entry_at m m.srp (logical / 2 ^ 25 % 2 ^ 7)

-- GET_RP_ADDR
abbrev pub table_entry : Machine → ℕ → ℕ
table_entry m logical =
    let root = root_entry m logical in entry_at m (root - root % 2 ^ 9) (logical / 2 ^ 18 % 2 ^ 7)

-- GET_TD_8K_ADDR and GET_TD_4K_ADDR
abbrev pub page_entry : Machine → ℕ → ℕ
page_entry m logical =
    let table = table_entry m logical in
    if is_8k_page m
    then entry_at m (table - table % 2 ^ 7) (logical / 2 ^ 13 % 2 ^ 5)
    else entry_at m (table - table % 2 ^ 8) (logical / 2 ^ 12 % 2 ^ 6)

-- `MMU040_logical2physicalAttr`, which returns 0: the physical address, and the attributes, `none` if
-- they are left alone.
unfoldable pub logical2physical_attr : Machine → ℕ → ℕ × Option ℕ
unfolding is_tt_segment
logical2physical_attr m logical =
    if not (tc_enable m) || is_tt_segment m logical
    then (logical, none)
    else if stops (root_entry m logical)
    then (logical, none)
    else if stops (table_entry m logical)
    then (logical, none)
    else if is_8k_page m
    then (
      (page_entry m logical - page_entry m logical % 2 ^ 13 + logical % 2 ^ 13) % 2 ^ 32,
      some (bit_and (page_entry m logical) 0x4FF),
    )
    else (
      (page_entry m logical - page_entry m logical % 2 ^ 12 + logical % 2 ^ 12) % 2 ^ 32,
      some (bit_and (page_entry m logical) 0x4FF),
    )

unfoldable pub logical2physical : Machine → ℕ → ℕ
unfolding logical2physical_attr
logical2physical m logical = (logical2physical_attr m logical).0

-- `m68k_init_memory_map` on a 68040, whose translation always returns 0
unfoldable pub init_040_memory_map : Machine → ℕ → MemoryMap
unfolding logical2physical
init_040_memory_map m mem_top =
    m68k_init_memory_map (λ l. some (logical2physical m l)) (get_page_size m) mem_top
