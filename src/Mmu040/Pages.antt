-- ===== src/Mmu040/Pages.antt =====
-- The 68040 translates by pages, and the memory map that the booter makes of the pages agrees with
-- it at each address.
use emile.Common.{
  ℕ, ◌+◌, ◌-◌, ◌*◌, ◌/◌, ◌%◌, ◌^◌, ◌<◌, ◌≡◌, ◌≢◌, ◌⊎◌, refl, sym, ap, ◌∙◌, inl, inr, Bool, true,
  false, ◌||◌, not, Bool-cases, Option, none, some, arith, if◌then◌else◌,
}
use Prim.Native.Nat.{bit_and}
use mathlib.Core.Path.{subst}
use emile.Mmu040.{
  Machine, is_8k_page, tc_enable, get_page_size, matches, masked, is_tt_segment, stops, entry_at,
  root_entry, table_entry, page_entry, logical2physical_attr, logical2physical,
}

-- The entries depend on the address by the indices that it gives.
root_entry_eq : (m : Machine) (l p : ℕ) → l / 2 ^ 25 ≡ p / 2 ^ 25 → root_entry m l ≡ root_entry m p
root_entry_eq m l p e = ap (λ i. entry_at m m.srp (i % 2 ^ 7)) e

table_entry_eq :
    (m : Machine) (l p : ℕ)
    → l / 2 ^ 25 ≡ p / 2 ^ 25
    → l / 2 ^ 18 ≡ p / 2 ^ 18
    → table_entry m l ≡ table_entry m p
table_entry_eq m l p e e' =
    ap (λ r. entry_at m (r - r % 2 ^ 9) (l / 2 ^ 18 % 2 ^ 7)) (root_entry_eq m l p e)
    ∙ ap (λ i. entry_at m (root_entry m p - root_entry m p % 2 ^ 9) (i % 2 ^ 7)) e'

large_page : Machine → ℕ → ℕ → ℕ
large_page m table i = entry_at m (table - table % 2 ^ 7) (i % 2 ^ 5)

small_page : Machine → ℕ → ℕ → ℕ
small_page m table i = entry_at m (table - table % 2 ^ 8) (i % 2 ^ 6)

-- What the translation of an address takes from it: the high byte, the indices in the tables.
record SameEntries (m : Machine) (l p : ℕ) : Type 0 where
  high : l / 2 ^ 24 ≡ p / 2 ^ 24
  root : root_entry m l ≡ root_entry m p
  table : table_entry m l ≡ table_entry m p
  page : page_entry m l ≡ page_entry m p

entries_4k :
    (m : Machine) (k off : ℕ)
    → is_8k_page m ≡ false
    → off < 4096
    → SameEntries m (k * 4096 + off) (k * 4096)
unfolding small_page large_page
entries_4k m k off small lt =
    let l : ℕ = k * 4096 + off in
    let p : ℕ = k * 4096 in
    let e25 : l / 2 ^ 25 ≡ p / 2 ^ 25 = omega arith in
    let table : table_entry m l ≡ table_entry m p = table_entry_eq m l p e25 (omega arith) in
    let e12 : l / 2 ^ 12 ≡ p / 2 ^ 12 = omega arith in
    record {
      high = omega arith;
      root = root_entry_eq m l p e25;
      table = table;
      page =
          ap
            (λ b.
              if b
              then large_page m (table_entry m l) (l / 2 ^ 13)
              else small_page m (table_entry m l) (l / 2 ^ 12))
            small
          ∙ ap (λ t. small_page m t (l / 2 ^ 12)) table
          ∙ ap (λ i. small_page m (table_entry m p) i) e12
          ∙ sym (
              ap
                (λ b.
                  if b
                  then large_page m (table_entry m p) (p / 2 ^ 13)
                  else small_page m (table_entry m p) (p / 2 ^ 12))
                small);
    }

entries_8k :
    (m : Machine) (k off : ℕ)
    → is_8k_page m ≡ true
    → off < 8192
    → SameEntries m (k * 8192 + off) (k * 8192)
unfolding small_page large_page
entries_8k m k off large lt =
    let l : ℕ = k * 8192 + off in
    let p : ℕ = k * 8192 in
    let e25 : l / 2 ^ 25 ≡ p / 2 ^ 25 = omega arith in
    let table : table_entry m l ≡ table_entry m p = table_entry_eq m l p e25 (omega arith) in
    let e13 : l / 2 ^ 13 ≡ p / 2 ^ 13 = omega arith in
    record {
      high = omega arith;
      root = root_entry_eq m l p e25;
      table = table;
      page =
          ap
            (λ b.
              if b
              then large_page m (table_entry m l) (l / 2 ^ 13)
              else small_page m (table_entry m l) (l / 2 ^ 12))
            large
          ∙ ap (λ t. large_page m t (l / 2 ^ 13)) table
          ∙ ap (λ i. large_page m (table_entry m p) i) e13
          ∙ sym (
              ap
                (λ b.
                  if b
                  then large_page m (table_entry m p) (p / 2 ^ 13)
                  else small_page m (table_entry m p) (p / 2 ^ 12))
                large);
    }

is_tt_segment_eq :
    (m : Machine) (l p : ℕ) → l / 2 ^ 24 ≡ p / 2 ^ 24 → is_tt_segment m l ≡ is_tt_segment m p
unfolding is_tt_segment
is_tt_segment_eq m l p e =
    ap (λ high. if matches m.dtt0 high then true else matches m.dtt1 (masked m.dtt0 high)) e

-- What the translation makes of the test of the registers and of the three entries.
answer : Machine → Bool → ℕ → ℕ → ℕ → ℕ → ℕ × Option ℕ
answer m segment root table page logical =
    if not (tc_enable m) || segment
    then (logical, none)
    else if stops root
    then (logical, none)
    else if stops table
    then (logical, none)
    else if is_8k_page m
    then ((page - page % 2 ^ 13 + logical % 2 ^ 13) % 2 ^ 32, some (bit_and page 0x4FF))
    else ((page - page % 2 ^ 12 + logical % 2 ^ 12) % 2 ^ 32, some (bit_and page 0x4FF))

answer_at :
    (m : Machine) (l : ℕ)
    → logical2physical m l
      ≡ (answer m (is_tt_segment m l) (root_entry m l) (table_entry m l) (page_entry m l) l).0
unfolding logical2physical logical2physical_attr answer
answer_at m l = refl

answer_same :
    (m : Machine) (l p x : ℕ)
    → SameEntries m l p
    → answer m (is_tt_segment m l) (root_entry m l) (table_entry m l) (page_entry m l) x
      ≡ answer m (is_tt_segment m p) (root_entry m p) (table_entry m p) (page_entry m p) x
answer_same m l p x same =
    ap (λ b. answer m b (root_entry m l) (table_entry m l) (page_entry m l) x)
      (is_tt_segment_eq m l p same.high)
    ∙ ap (λ r. answer m (is_tt_segment m p) r (table_entry m l) (page_entry m l) x) same.root
    ∙ ap (λ t. answer m (is_tt_segment m p) (root_entry m p) t (page_entry m l) x) same.table
    ∙ ap (λ e. answer m (is_tt_segment m p) (root_entry m p) (table_entry m p) e x) same.page

answer_4k :
    (m : Machine) (segment : Bool) (root table page k off : ℕ)
    → is_8k_page m ≡ false
    → page < 2 ^ 32
    → off < 4096
    → (answer m segment root table page (k * 4096 + off)).0
      ≡ (answer m segment root table page (k * 4096)).0 + off
unfolding answer
answer_4k m segment root table page k off small word lt = ground arith

answer_8k :
    (m : Machine) (segment : Bool) (root table page k off : ℕ)
    → is_8k_page m ≡ true
    → page < 2 ^ 32
    → off < 8192
    → (answer m segment root table page (k * 8192 + off)).0
      ≡ (answer m segment root table page (k * 8192)).0 + off
unfolding answer
answer_8k m segment root table page k off large word lt = ground arith

if_both : (P : ℕ → Type 0) (b : Bool) (x y : ℕ) → P x → P y → P (if b then x else y)
if_both P true x y h k = h
if_both P false x y h k = k

page_entry_word :
    (m : Machine) → ((addr : ℕ) → m.read_phys addr < 2 ^ 32) → (l : ℕ) → page_entry m l < 2 ^ 32
page_entry_word m words l = if_both (λ e. e < 2 ^ 32) (is_8k_page m) _ _ (words _) (words _)

page_size_8k : (m : Machine) → is_8k_page m ≡ true → get_page_size m ≡ 8192
unfolding get_page_size
page_size_8k m e = ap (λ b. if b then 8192 else 4096) e

page_size_4k : (m : Machine) → is_8k_page m ≡ false → get_page_size m ≡ 4096
unfolding get_page_size
page_size_4k m e = ap (λ b. if b then 8192 else 4096) e

-- `MMU040_logical2physical` on a page: an address of the page number `k` is translated to what the
-- first address of the page is translated to, plus the offset, whether the translation is switched
-- off, a transparent register matches, an entry is not valid or the tables are walked. It holds if
-- the memory holds words of 32 bits.
pub logical2physical-page :
    (m : Machine)
    → ((addr : ℕ) → m.read_phys addr < 2 ^ 32)
    → (k off : ℕ) → off < get_page_size m
    → logical2physical m (k * get_page_size m + off)
      ≡ logical2physical m (k * get_page_size m) + off
logical2physical-page m words k off lt = elim (Bool-cases (is_8k_page m)) [
  | inl large ↦ rw (page_size_8k m large) (page_8k large (rw (sym (page_size_8k m large)) lt))
  | inr small ↦ rw (page_size_4k m small) (page_4k small (rw (sym (page_size_4k m small)) lt))
]
  where
    page_8k :
        is_8k_page m ≡ true
        → off < 8192
        → logical2physical m (k * 8192 + off) ≡ logical2physical m (k * 8192) + off
    page_8k large lt =
        answer_at m _
        ∙ ap (λ a. a.0) (answer_same m _ _ _ (entries_8k m k off large lt))
        ∙ answer_8k m _ _ _ (page_entry m (k * 8192)) k off large (page_entry_word m words _) lt
        ∙ ap (λ x. x + off) (sym (answer_at m _))

    page_4k :
        is_8k_page m ≡ false
        → off < 4096
        → logical2physical m (k * 4096 + off) ≡ logical2physical m (k * 4096) + off
    page_4k small lt =
        answer_at m _
        ∙ ap (λ a. a.0) (answer_same m _ _ _ (entries_4k m k off small lt))
        ∙ answer_4k m _ _ _ (page_entry m (k * 4096)) k off small (page_entry_word m words _) lt
        ∙ ap (λ x. x + off) (sym (answer_at m _))

-- The descriptors that the tables have for an address: a root table of 128, pointer tables of 128,
-- and page tables of as many pages as 2 ^ 18 bytes are
abbrev descriptor : Machine → ℕ → ℕ → ℕ
descriptor m table index = m.read_phys ((table + 4 * index) % 2 ^ 32)

abbrev root_descriptor : Machine → ℕ → ℕ
root_descriptor m l = descriptor m m.srp (l / 2 ^ 25 % 2 ^ 7)

abbrev pointer_descriptor : Machine → ℕ → ℕ
pointer_descriptor m l =
    let root = root_descriptor m l in descriptor m (root - root % 2 ^ 9) (l / 2 ^ 18 % 2 ^ 7)

abbrev page_descriptor : Machine → ℕ → ℕ → ℕ
page_descriptor m size l =
    let table = pointer_descriptor m l in
    let n = 2 ^ 18 / size in descriptor m (table - table % (4 * n)) (l / size % n)

-- Where an address leads: to itself if the translation is off, a register is transparent or the type
-- of a table's descriptor is not 2, which is resident, else into the page of its descriptor. (A type
-- of 3 is resident for the MMU too.)
abbrev pub Reaches : Machine → ℕ → ℕ → Type 0
Reaches m l p =
    (((tc_enable m ≡ false) ⊎ (is_tt_segment m l ≡ true)) × (p ≡ l))
    ⊎ (((root_descriptor m l % 4 ≢ 2) ⊎ (pointer_descriptor m l % 4 ≢ 2)) × (p ≡ l))
    ⊎ ((root_descriptor m l % 4 ≡ 2)
        × (pointer_descriptor m l % 4 ≡ 2)
        × (p
            ≡ page_descriptor m (get_page_size m) l
              - page_descriptor m (get_page_size m) l % get_page_size m
              + l % get_page_size m))

stopped : (d : ℕ) → stops d ≡ true → d % 4 ≢ 2
stopped d e two = ground arith

resident : (d : ℕ) → stops d ≡ false → d % 4 ≡ 2
resident d e = ground arith

-- The translation, with the page that the descriptor gives
chosen : Bool → Bool → Bool → Bool → ℕ → ℕ → ℕ
chosen on segment root table l p =
    if not on || segment then l else if root then l else if table then l else p

page_of : ℕ → ℕ → ℕ → ℕ
page_of size page l = page - page % size + l % size

answer-chosen :
    (m : Machine) (segment : Bool) (root table page l : ℕ)
    → page < 2 ^ 32
    → (answer m segment root table page l).0
      ≡ chosen (tc_enable m) segment (stops root) (stops table) l (page_of (get_page_size m) page l)
unfolding answer chosen page_of get_page_size
answer-chosen m segment root table page l word = ground arith

page_entry-descriptor :
    (m : Machine) (l : ℕ) → page_entry m l ≡ page_descriptor m (get_page_size m) l
unfolding get_page_size
page_entry-descriptor m l = elim (Bool-cases (is_8k_page m)) [
  | inl large ↦ rw large refl
  | inr small ↦ rw small refl
]

Leads : Machine → ℕ → ℕ → ℕ → Type 0
Leads m l q p =
    (((tc_enable m ≡ false) ⊎ (is_tt_segment m l ≡ true)) × (p ≡ l))
    ⊎ (((root_descriptor m l % 4 ≢ 2) ⊎ (pointer_descriptor m l % 4 ≢ 2)) × (p ≡ l))
    ⊎ ((root_descriptor m l % 4 ≡ 2) × (pointer_descriptor m l % 4 ≡ 2) × (p ≡ q))

chosen-Leads :
    (m : Machine) (l q : ℕ) (on segment root table : Bool)
    → tc_enable m ≡ on
    → is_tt_segment m l ≡ segment
    → stops (root_descriptor m l) ≡ root
    → stops (pointer_descriptor m l) ≡ table
    → Leads m l q (chosen on segment root table l q)
unfolding Leads chosen
chosen-Leads m l q false segment root table e f g h = inl (inl e, refl)
chosen-Leads m l q true true root table e f g h = inl (inr f, refl)
chosen-Leads m l q true false true table e f g h =
    inr (inl (inl (stopped (root_descriptor m l) g), refl))
chosen-Leads m l q true false false true e f g h =
    inr (inl (inr (stopped (pointer_descriptor m l) h), refl))
chosen-Leads m l q true false false false e f g h =
    inr (inr (resident (root_descriptor m l) g, resident (pointer_descriptor m l) h, refl))

pub logical2physical-Reaches :
    (m : Machine)
    → ((addr : ℕ) → m.read_phys addr < 2 ^ 32)
    → (l : ℕ) → Reaches m l (logical2physical m l)
unfolding Leads page_of
logical2physical-Reaches m words l =
    let ps = get_page_size m in
    subst (Leads m l (page_of ps (page_descriptor m ps l) l))
      (sym (
        answer_at m l
        ∙ answer-chosen m (is_tt_segment m l) (root_entry m l) (table_entry m l) (page_entry m l) l
            (page_entry_word m words l)
        ∙ ap
            (λ page.
              chosen (tc_enable m) (is_tt_segment m l) (stops (root_descriptor m l))
                (stops (pointer_descriptor m l)) l (page_of ps page l))
            (page_entry-descriptor m l)))
      (chosen-Leads m l (page_of ps (page_descriptor m ps l) l) _ _ _ _ refl refl refl refl)
