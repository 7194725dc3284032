-- ===== src/BootInfo/Banks.antt =====
-- second/bootinfo.c: the banks of the memory map become the entries `memory` of the boot
-- information, merged where one goes on where another ends, the bigger first.
pub mod Real
pub mod Order
use emile.Common.{
  ℕ, zero, suc, ◌+◌, ◌-◌, Option, none, some, List, [], ◌∷◌, ltb, leb, ◌==◌, if◌then◌else◌, length,
  get_or, set, take,
}
use emile.Bank.{MemoryBank, MemoryMap, add_ulong}
use emile.BootInfo.{MemInfo}

-- `NUM_MEMINFO`
abbrev pub num_meminfo : ℕ
num_meminfo = 4

abbrev pub no_memory : MemInfo
no_memory = record { addr = 0; size = 0 }

abbrev pub entry_at : List MemInfo → ℕ → MemInfo
entry_at memory i = get_or memory i no_memory

-- The first loop
unfoldable pub copy_banks : MemoryMap → List MemInfo
copy_banks [] = []
copy_banks (b ∷ banks) = record { addr = b.phys_addr; size = b.size } ∷ copy_banks banks

-- Entry `j` is added to entry `i`, and the last of the `suc num` entries takes its place.
unfoldable pub join : List MemInfo → ℕ → ℕ → ℕ → List MemInfo
join memory num i j =
    let a = entry_at memory i in
    let grown = set memory i (record a { size = add_ulong a.size (entry_at memory j).size }) in
    set grown j (entry_at grown num)

-- The body of the loop over `j`, for `memory` and `num_memory`
unfoldable pub join_step : ℕ → ℕ → List MemInfo × ℕ → List MemInfo × ℕ
unfolding join
join_step i j (memory, num) =
    let a = entry_at memory i in
    if add_ulong a.addr a.size == (entry_at memory j).addr
    then (join memory (num - 1) i j, num - 1)
    else (memory, num)

-- `for (j = 0; j < bi->num_memory; j++)`. The bound only falls, so that its first value is fuel
-- enough.
unfoldable pub join_with : ℕ → ℕ → ℕ → List MemInfo × ℕ → List MemInfo × ℕ
unfolding join_step
join_with zero i j s = s
join_with (suc fuel) i j s =
    let rest = join_with fuel i (suc j) (join_step i j s) in if ltb j s.1 then rest else s

-- `for (i = 0; i < bi->num_memory; i++)`
unfoldable pub join_all : ℕ → ℕ → List MemInfo × ℕ → List MemInfo × ℕ
unfolding join_with
join_all zero i s = s
join_all (suc fuel) i s =
    let rest = join_all fuel (suc i) (join_with s.1 i 0 s) in if ltb i s.1 then rest else s

-- The entries in use after the merging
unfoldable pub merged : MemoryMap → List MemInfo
unfolding copy_banks join_all
merged map = let s = join_all (length map) 0 (copy_banks map, length map) in take s.1 s.0

-- The loop over `j` of "sort : bigger first": what entry `i` becomes, and the entries behind it.
unfoldable pub exchange : MemInfo → List MemInfo → MemInfo × List MemInfo
exchange a [] = (a, [])
exchange a (b ∷ rest) =
    let (big, others) = exchange (if ltb a.size b.size then b else a) rest in
    (big, (if ltb a.size b.size then a else b) ∷ others)

-- The loop over `i`, a step for each entry
unfoldable pub bigger_first : ℕ → List MemInfo → List MemInfo
unfolding exchange
bigger_first zero memory = memory
bigger_first (suc fuel) [] = []
bigger_first (suc fuel) (a ∷ rest) =
    let (big, others) = exchange a rest in big ∷ bigger_first fuel others

-- `extractBanks`: the `num_memory` entries; `none` if there are more banks than entries, and the
-- first loop writes behind them.
unfoldable pub extract_banks : MemoryMap → Option (List MemInfo)
unfolding merged bigger_first
extract_banks map =
    if leb (length map) num_meminfo
    then some (bigger_first (length (merged map)) (merged map))
    else none
