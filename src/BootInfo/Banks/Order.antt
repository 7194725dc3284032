-- ===== src/BootInfo/Banks/Order.antt =====
-- The order of the entries: the bigger first.
use mathlib.Core.List.{Mem, Perm, Pairwise, not-mem-nil, forall_mem-cons}
use mathlib.Core.List.Perm
use native.Mathlib.Bridge.{le_prop}
use emile.Common.{
  ℕ, zero, suc, ◌≤◌, ◌≡◌, refl, ap, List, [], ◌∷◌, arith, ltb, length, Bool-cases, inl, inr, some,
}
use emile.Common.Arith.{ltb-lt, ltb-ge}
use emile.Bank.{MemoryMap}
use emile.BootInfo.{MemInfo}
use emile.BootInfo.Banks.{exchange, bigger_first, merged, extract_banks, num_meminfo}

-- what `Pairwise.cons` asks of a first entry
abbrev IsBiggest : MemInfo → List MemInfo → Type 0
IsBiggest a l = (b : MemInfo) → Mem b l → b.size ≤ a.size

-- Descending sizes
abbrev pub IsDescending : List MemInfo → Type 0
IsDescending = Pairwise (λ a b. b.size ≤ a.size)

exchange-perm :
    (a : MemInfo) (l : List MemInfo) → Perm ((exchange a l).0 ∷ (exchange a l).1) (a ∷ l)
unfolding exchange
exchange-perm a [] = Perm.rfl
exchange-perm a (b ∷ l) = elim (Bool-cases (ltb a.size b.size)) [
  | inl h ↦ rw (h, exchange) (Perm.trans (Perm.swap _ _ _) (Perm.cons a (exchange-perm b l)))
  | inr h ↦
      rw (h, exchange)
        (Perm.trans (Perm.swap _ _ _)
          (Perm.trans (Perm.cons b (exchange-perm a l)) (Perm.swap _ _ _)))
]

exchange-length : (a : MemInfo) (l : List MemInfo) → length (exchange a l).1 ≡ length l
unfolding exchange
exchange-length a [] = refl
exchange-length a (b ∷ l) = elim (Bool-cases (ltb a.size b.size)) [
  | inl h ↦ rw (h, exchange) (ap suc (exchange-length b l))
  | inr h ↦ rw (h, exchange) (ap suc (exchange-length a l))
]

exchange-ge : (a : MemInfo) (l : List MemInfo) → a.size ≤ (exchange a l).0.size
unfolding exchange
exchange-ge a [] = omega arith
exchange-ge a (b ∷ l) = elim (Bool-cases (ltb a.size b.size)) [
  | inl h ↦ rw (h, exchange) (omega (arith, ltb-lt a.size b.size h, exchange-ge b l))
  | inr h ↦ rw (h, exchange) (exchange-ge a l)
]

IsBiggest-cons :
    (a b : MemInfo) (l : List MemInfo) → b.size ≤ a.size → IsBiggest a l → IsBiggest a (b ∷ l)
IsBiggest-cons a b l p h = (forall_mem-cons (λ b. le_prop)).1 (p, h)

exchange-IsBiggest : (a : MemInfo) (l : List MemInfo) → IsBiggest (exchange a l).0 (exchange a l).1
unfolding exchange
exchange-IsBiggest a [] = λ b m. absurd (not-mem-nil m)
exchange-IsBiggest a (b ∷ l) = elim (Bool-cases (ltb a.size b.size)) [
  | inl h ↦
      rw (h, exchange)
        (IsBiggest-cons (exchange b l).0 a (exchange b l).1
          (omega (arith, ltb-lt a.size b.size h, exchange-ge b l)) (exchange-IsBiggest b l))
  | inr h ↦
      rw (h, exchange)
        (IsBiggest-cons (exchange a l).0 b (exchange a l).1
          (omega (arith, ltb-ge a.size b.size h, exchange-ge a l)) (exchange-IsBiggest a l))
]

bigger_first-perm : (fuel : ℕ) (l : List MemInfo) → Perm (bigger_first fuel l) l
unfolding bigger_first
bigger_first-perm zero l = Perm.rfl
bigger_first-perm (suc fuel) [] = Perm.rfl
bigger_first-perm (suc fuel) (a ∷ l) =
    Perm.trans (Perm.cons _ (bigger_first-perm fuel (exchange a l).1)) (exchange-perm a l)

bigger_first-IsDescending :
    (fuel : ℕ) (l : List MemInfo) → length l ≤ fuel → IsDescending (bigger_first fuel l)
unfolding bigger_first
bigger_first-IsDescending zero [] h = Pairwise.nil
bigger_first-IsDescending zero (a ∷ l) h = absurd (omega arith)
bigger_first-IsDescending (suc fuel) [] h = Pairwise.nil
bigger_first-IsDescending (suc fuel) (a ∷ l) h =
    let others = (exchange a l).1 in
    Pairwise.cons
      (λ b m. exchange-IsBiggest a l b ((Perm.mem_iff (bigger_first-perm fuel others)).0 m))
      (bigger_first-IsDescending fuel others (omega (arith, exchange-length a l)))

-- For a memory map of at most four banks `extractBanks` has a result: the entries that are left
-- after the merging, each as often as there, in descending order of size.
pub extract_banks-IsDescending :
    (map : MemoryMap)
    → length map ≤ num_meminfo
    → (entries : List MemInfo) × (extract_banks map ≡ some entries)
      × Perm entries (merged map)
      × IsDescending entries
unfolding extract_banks
extract_banks-IsDescending map h =
    let l = merged map in
    (
      bigger_first (length l) l,
      ground (arith, h),
      bigger_first-perm (length l) l,
      bigger_first-IsDescending (length l) l (omega arith),
    )
