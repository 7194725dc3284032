-- ===== src/Tests/Banks.antt =====
-- The memory map.
use emile.Common.{
  ℕ, ◌+◌, ◌^◌, ◌≤◌, ◌<◌, ◌≡◌, refl, Option, some, none, List, [], ◌∷◌, arith, length, ltb,
  if◌then◌else◌,
}
use mathlib.Core.List.{Perm}
use emile.Bank.{
  MemoryBank, MemoryMap, max_mem_map_size, bank_add_mem, m68k_init_memory_map, physical2logical,
}
use emile.Bank.Merge.{Maps, AreBanks}
use emile.Bank.Add.{Adds, bank_add_mem-Adds}
use emile.Bank.Find.{physical2logical-Maps}
use emile.Bank.Init.{Translates, m68k_init_memory_map_sound}
use emile.BootInfo.{MemInfo}
use emile.BootInfo.Banks.{merged, extract_banks}
use emile.BootInfo.Banks.Real.{AreReal, extract_banks-AreReal}
use emile.BootInfo.Banks.Order.{IsDescending, extract_banks-IsDescending}

abbrev bank : ℕ → ℕ → ℕ → MemoryBank
bank phys logi size = record { phys_addr = phys; logi_addr = logi; size = size }

abbrev two_banks : MemoryMap
two_banks = bank 0x1000 0 0x1000 ∷ bank 0x3000 0x2000 0x1000 ∷ []

-- The page between the banks joins them.
joined : bank_add_mem two_banks (bank 0x2000 0x1000 0x1000) ≡ bank 0x1000 0 0x3000 ∷ []
unfolding bank_add_mem
joined = refl

two_banks-AreBanks : AreBanks two_banks
two_banks-AreBanks = omega arith

bank_add_mem_example :
    Adds two_banks (bank 0x2000 0x1000 0x1000) (bank_add_mem two_banks (bank 0x2000 0x1000 0x1000))
    × (length (bank_add_mem two_banks (bank 0x2000 0x1000 0x1000)) ≤ max_mem_map_size)
bank_add_mem_example =
    bank_add_mem-Adds two_banks (bank 0x2000 0x1000 0x1000) two_banks-AreBanks (omega arith)
      (omega arith)

physical2logical_runs : physical2logical two_banks 0x3004 ≡ some 0x2004
unfolding physical2logical
physical2logical_runs = refl

physical2logical_example :
    ((l : ℕ) → physical2logical two_banks 0x3004 ≡ some l → Maps l 0x3004 two_banks)
    × (physical2logical two_banks 0x3004 ≡ none → (l : ℕ) → ¬ Maps l 0x3004 two_banks)
physical2logical_example = physical2logical-Maps two_banks 0x3004 two_banks-AreBanks

-- An MMU that maps four pages, but for the second.
abbrev mmu : ℕ → Option ℕ
mmu page =
    if ltb page 0x1000 then some (page + 0x8000) else if ltb page 0x2000 then none else some 0x9000

init_runs :
    m68k_init_memory_map mmu 0x1000 0x3000 ≡ bank 0x8000 0 0x1000 ∷ bank 0x9000 0x2000 0x1000 ∷ []
unfolding m68k_init_memory_map bank_add_mem
init_runs = refl

mmu_fits :
    (page physical : ℕ)
    → page + 0x1000 < 2 ^ 32
    → mmu page ≡ some physical
    → physical + 0x1000 < 2 ^ 32
mmu_fits page physical word e = ground arith

init_example :
    AreBanks (m68k_init_memory_map mmu 0x1000 0x3000)
    × (length (m68k_init_memory_map mmu 0x1000 0x3000) ≤ max_mem_map_size)
    × ((l p : ℕ) → Maps l p (m68k_init_memory_map mmu 0x1000 0x3000) → Translates mmu 0x1000 l p)
init_example = m68k_init_memory_map_sound mmu 0x1000 (omega arith) mmu_fits 0x3000 (omega arith)

-- Two banks that are one behind the other, and a bigger one
abbrev three_banks : MemoryMap
three_banks = bank 1024 0 1024 ∷ bank 8192 4096 4096 ∷ bank 2048 1024 1024 ∷ []

abbrev two_entries : List MemInfo
two_entries = record { addr = 8192; size = 4096 } ∷ record { addr = 1024; size = 2048 } ∷ []

extract_banks_joined : extract_banks three_banks ≡ some two_entries
unfolding extract_banks
extract_banks_joined = refl

-- The last of four banks is lost: it follows the one that was extended and moved.
abbrev four_banks : MemoryMap
four_banks = bank 100 0 10 ∷ bank 110 10 10 ∷ bank 90 20 10 ∷ bank 120 30 10 ∷ []

extract_banks_lost : extract_banks four_banks ≡ some (record { addr = 90; size = 30 } ∷ [])
unfolding extract_banks
extract_banks_lost = refl

extract_banks-AreReal_example :
    (entries : List MemInfo) × (extract_banks three_banks ≡ some entries)
    × AreReal three_banks entries
extract_banks-AreReal_example =
    extract_banks-AreReal three_banks (omega arith) (omega arith, (omega arith, (omega arith, tt)))

extract_banks-IsDescending_example :
    (entries : List MemInfo) × (extract_banks three_banks ≡ some entries)
    × Perm entries (merged three_banks)
    × IsDescending entries
extract_banks-IsDescending_example = extract_banks-IsDescending three_banks (omega arith)
