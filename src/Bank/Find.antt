-- ===== src/Bank/Find.antt =====
-- `physical2logical` inverts the mapping of the table.
use emile.Common.{
  ℕ, ◌+◌, ◌-◌, ◌%◌, ◌^◌, ◌≤◌, ◌<◌, ◌≡◌, inl, inr, Bool, true, false, ◌&&◌, none, some, [], ◌∷◌,
  arith, ltb, leb, if◌then◌else◌, Bool-cases, Option-cases,
}
use emile.Bank.{MemoryBank, MemoryMap, phys_end, find_by_physical, physical2logical}
use emile.Bank.Merge.{In, Maps, IsBank, AreBanks}

find_by_physical_lem :
    (p : ℕ) (map : MemoryMap) (b : MemoryBank)
    → AreBanks map
    → find_by_physical p map ≡ some b
    → IsBank b
      × (b.phys_addr ≤ p)
      × (p < b.phys_addr + b.size)
      × ((l : ℕ) → In l p b → Maps l p map)
unfolding find_by_physical
find_by_physical_lem p [] b h e = absurd (cc)
find_by_physical_lem p (c ∷ map) b h e =
    elim (Bool-cases (leb c.phys_addr p && ltb p (phys_end c))) [
      | inl here ↦
          let same : c ≡ b = cc (rw (here, find_by_physical) at e) in
          rw (← same)
            (h.0, ground (arith, h.0.phys_fits), ground (arith, h.0.phys_fits), λ l m. inl m)
      | inr other ↦
          let (is_b, low, high, maps) =
            find_by_physical_lem p map b h.1 (rw (other, find_by_physical) at e) in
          (is_b, low, high, λ l m. inr (maps l m))
    ]

find_by_physical-none :
    (l p : ℕ) (map : MemoryMap) → AreBanks map → find_by_physical p map ≡ none → ¬ Maps l p map
unfolding find_by_physical
find_by_physical-none l p [] h e m = m
find_by_physical-none l p (c ∷ map) h e m =
    elim (Bool-cases (leb c.phys_addr p && ltb p (phys_end c))) [
      | inl here ↦ absurd (cc (rw (here, find_by_physical) at e))
      | inr other ↦ elim m [
        | inl x ↦ absurd (ground (arith, h.0.phys_fits))
        | inr x ↦ find_by_physical-none l p map h.1 (rw (other, find_by_physical) at e) x
      ]
    ]

never : (c : Bool) (x y : ℕ) → (if c then some x else some y) ≡ none → ⊥
never true x y e = cc
never false x y e = cc

-- `physical2logical` returns a logical address that the table maps to the physical one, and -1
-- only if there is none. It holds for a table whose banks are not empty and do not wrap.
pub physical2logical-Maps :
    (map : MemoryMap) (p : ℕ)
    → AreBanks map
    → ((l : ℕ) → physical2logical map p ≡ some l → Maps l p map)
      × (physical2logical map p ≡ none → (l : ℕ) → ¬ Maps l p map)
unfolding physical2logical
physical2logical-Maps map p h = elim (Option-cases (find_by_physical p map)) [
  | inl missing ↦ (
    λ l e. absurd (cc (rw (missing, physical2logical) at e)),
    λ e l. find_by_physical-none l p map h missing,
  )
  | inr (b, found) ↦
      let (is_b, low, high, maps) = find_by_physical_lem p map b h found in
      (
        λ l e. maps l (logical b l is_b low high (rw (found, physical2logical) at e)),
        λ e l. absurd (never (ltb b.logi_addr b.phys_addr) _ _ (rw (found, physical2logical) at e)),
      )
]
  where
    logical :
        (b : MemoryBank) (l : ℕ)
        → IsBank b
        → b.phys_addr ≤ p
        → p < b.phys_addr + b.size
        → (if ltb b.logi_addr b.phys_addr
            then some ((p + 2 ^ 32 - (b.phys_addr - b.logi_addr)) % 2 ^ 32)
            else some ((p + (b.logi_addr - b.phys_addr)) % 2 ^ 32))
          ≡ some l
        → In l p b
    logical b l is_b low high e = ground arith
