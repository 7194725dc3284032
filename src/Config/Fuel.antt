-- ===== src/Config/Fuel.antt =====
-- The loops over a configuration end, whatever its bytes are.
use emile.Common.{
  ℕ, zero, suc, ◌≤◌, ◌<◌, ◌≡◌, ◌≢◌, refl, Bool, true, false, not, ◌||◌, Option, none, some, [], ◌∷◌,
  Bytes, arith, ltb, ◌==◌, if◌then◌else◌, length, Bool-cases, inl, inr,
}
use mathlib.Core.Path.{subst}
use emile.Config.{
  Result, ok, err, missing, overrun, out_of_fuel, ◌>>=◌, or_else, is_blank, eat, line_end,
  read_line, word_end, config_read_word, copy_property, Entry, read_entry, config_get_next_property,
  name_room, in_room, next_named, is_string, entry_loop, config_find_entry, property_loop,
  index_start, config_find_indexed_property,
}

-- A property of the value, if there is one, of a call that has fuel enough
abbrev Ends : {A : Type 0} → (A → Type 0) → Result A → Type 0
Ends P (ok a) = P a
Ends P (err missing) = Unit
Ends P (err overrun) = Unit
Ends P (err out_of_fuel) = ⊥

Ends-bind :
    {A B : Type 0} (Before : A → Type 0) (Behind : B → Type 0) (call : Result A)
    (rest : A → Result B)
    → Ends Before call
    → ((value : A) → Before value → Ends Behind (rest value))
    → Ends Behind (call >>= rest)
Ends-bind Before Behind (err missing) rest ended each = tt
Ends-bind Before Behind (err overrun) rest ended each = tt
Ends-bind Before Behind (err out_of_fuel) rest ended each = absurd ended
Ends-bind Before Behind (ok value) rest ended each = each value ended

abbrev Any : {A : Type 0} → A → Type 0
Any a = Unit

Ends-map :
    {A : Type 0} (Strong Weak : A → Type 0) (call : Result A)
    → ((value : A) → Strong value → Weak value)
    → Ends Strong call
    → Ends Weak call
Ends-map Strong Weak (err missing) weaken ended = tt
Ends-map Strong Weak (err overrun) weaken ended = tt
Ends-map Strong Weak (err out_of_fuel) weaken ended = absurd ended
Ends-map Strong Weak (ok value) weaken ended = weaken value ended

-- A result of at most `n` bytes
abbrev Fits : ℕ → Result Bytes → Type 0
Fits n r = Ends (λ t. length t ≤ n) r

Fits-le : (m n : ℕ) (r : Result Bytes) → m ≤ n → Fits m r → Fits n r
Fits-le m n r le h = Ends-map (λ t. length t ≤ m) (λ t. length t ≤ n) r (λ t h. omega arith) h

-- Both branches of a test
either :
    {A : Type 0} (Q : A → Type 0) (b : Bool) (x y : A)
    → (b ≡ true → Q x)
    → (b ≡ false → Q y)
    → Q (elim b [ true ↦ x | false ↦ y ])
either Q true x y h k = h refl
either Q false x y h k = k refl

if_either : {A : Type 0} (Q : A → Type 0) (b : Bool) (x y : A) → Q x → Q y → Q (if b then x else y)
if_either Q true x y h k = h
if_either Q false x y h k = k

eat-Fits : (comment : Bool) (s : Bytes) → Fits (length s) (eat comment s)
unfolding eat
eat-Fits true [] = tt
eat-Fits false [] = tt
eat-Fits true (c ∷ s) =
    Fits-le _ _ (eat (not (c == b'\n')) s) (omega arith) (eat-Fits (not (c == b'\n')) s)
eat-Fits false (c ∷ s) =
    let more : (comment : Bool) → Fits (suc (length s)) (eat comment s) =
      λ comment. Fits-le _ (suc (length s)) (eat comment s) (omega arith) (eat-Fits comment s) in
    either (Fits (suc (length s))) (is_blank c) (eat false s) _ (λ e. more false)
      (λ e.
        either (Fits (suc (length s))) (c == b'#') (eat true s) (ok (c ∷ s)) (λ e. more true)
          (λ e. omega arith))

line_end-Fits : (s : Bytes) → Fits (length s) (line_end s)
unfolding line_end
line_end-Fits [] = tt
line_end-Fits (c ∷ s) =
    either (Fits (suc (length s))) (c == 0) (ok (c ∷ s)) _ (λ e. omega arith)
      (λ e.
        either (Fits (suc (length s))) (c == b'\n') (ok s) (line_end s) (λ e. omega arith)
          (λ e. Fits-le _ _ (line_end s) (omega arith) (line_end-Fits s)))

-- A line that is not the end is left behind.
line_end-less : (c : ℕ) (s : Bytes) → (c == 0) ≡ false → Fits (length s) (line_end (c ∷ s))
unfolding line_end
line_end-less c s nonzero =
    rw (nonzero, line_end)
      (either (Fits (length s)) (c == b'\n') (ok s) (line_end s) (λ e. omega arith)
        (λ e. line_end-Fits s))

read_line-less : (c : ℕ) (s : Bytes) → (c == 0) ≡ false → Fits (length s) (read_line (c ∷ s))
unfolding read_line eat
read_line-less c s nonzero =
    let skipped : (comment : Bool) → Fits (length s) (eat comment s >>= line_end) = λ comment.
      Ends-bind (λ t. length t ≤ length s) (λ t. length t ≤ length s) (eat comment s) line_end
        (eat-Fits comment s) (λ t le. Fits-le _ _ (line_end t) le (line_end-Fits t)) in
    either (λ r. Fits (length s) (r >>= line_end)) (is_blank c) (eat false s) _ (λ e. skipped false)
      (λ e.
        either (λ r. Fits (length s) (r >>= line_end)) (c == b'#') (eat true s) (ok (c ∷ s))
          (λ e. skipped true) (λ e. line_end-less c s nonzero))

word_end-Ends : (s : Bytes) → Ends Any (word_end s)
unfolding word_end
word_end-Ends [] = tt
word_end-Ends (c ∷ s) =
    either (Ends Any) (c == 0 || is_blank c) (ok ([], c ∷ s)) _ (λ e. tt)
      (λ e. Ends-bind Any Any (word_end s) _ (word_end-Ends s) (λ a h. tt))

forget : (n : ℕ) (r : Result Bytes) → Fits n r → Ends Any r
forget n r h = Ends-map (λ t. length t ≤ n) Any r (λ t h. tt) h

eat-Ends : (s : Bytes) → Ends Any (eat false s)
eat-Ends s = forget (length s) (eat false s) (eat-Fits false s)

config_read_word-Ends : (s : Bytes) → Ends Any (config_read_word s)
unfolding config_read_word
config_read_word-Ends s =
    Ends-bind Any Any (eat false s) word_end (eat-Ends s) (λ t h. word_end-Ends t)

copy_property-Ends : (s t : Bytes) → Ends Any (copy_property s t)
unfolding copy_property
copy_property-Ends s t = if_either (Ends Any) (ltb (length s) (length t)) (err overrun) (ok _) tt tt

wanted_property-Ends :
    (wanted : Bool) (s t : Bytes) → Ends Any (if wanted then copy_property s t else ok [])
wanted_property-Ends wanted s t =
    if_either (Ends Any) wanted (copy_property s t) (ok []) (copy_property-Ends s t) tt

in_room-Ends : (s : Bytes) → Ends Any (in_room s)
in_room-Ends s = if_either (Ends Any) (ltb (length s) name_room) (ok s) (err overrun) tt tt

-- Each line read is behind the one that was given.
get_next-less :
    (wanted : Bool) (c : ℕ) (s : Bytes)
    → (c == 0) ≡ false
    → Ends (λ e. length e.next ≤ length s) (config_get_next_property wanted (c ∷ s))
unfolding config_get_next_property read_entry
get_next-less wanted c s nonzero =
    let Behind : Entry → Type 0 = λ e. length e.next ≤ length s in
    rw (nonzero, config_get_next_property)
      (Ends-bind (λ t. length t ≤ length s) Behind (read_line (c ∷ s)) _
        (read_line-less c s nonzero)
        (λ next le.
          Ends-bind Any Behind (config_read_word (c ∷ s)) _ (config_read_word-Ends (c ∷ s))
            (λ word h.
              Ends-bind Any Behind (eat false word.1 >>= _) _
                (Ends-bind Any Any (eat false word.1) _ (eat-Ends word.1) (λ start h.
                  Ends-bind Any Any (word_end start) _ (word_end-Ends start) (λ a h. tt)))
                (λ (current : Bytes × Bytes) h.
                  Ends-bind Any Behind (if wanted then copy_property current.0 next else ok []) _
                    (wanted_property-Ends wanted current.0 next) (λ property h. le)))))

next_named-less :
    (wanted : Bool) (c : ℕ) (s : Bytes)
    → (c == 0) ≡ false
    → Ends (λ e. length e.next ≤ length s) (next_named wanted (c ∷ s))
unfolding next_named
next_named-less wanted c s nonzero =
    let Behind : Entry → Type 0 = λ e. length e.next ≤ length s in
    Ends-bind Behind Behind (config_get_next_property wanted (c ∷ s)) _
      (get_next-less wanted c s nonzero)
      (λ e le. Ends-bind Any Behind (in_room e.name) _ (in_room-Ends e.name) (λ name h. le))

entry_loop-Ends :
    (fuel : ℕ) (name : Bytes) (property : Option Bytes) (s : Bytes)
    → length s < fuel
    → Ends (λ t. length t ≤ length s) (entry_loop fuel name property s)
unfolding entry_loop
entry_loop-Ends zero name property s lt = absurd (omega arith)
entry_loop-Ends (suc fuel) name property [] lt = tt
entry_loop-Ends (suc fuel) name property (c ∷ s) lt =
    either (Fits (suc (length s))) (c == 0) (err missing) _ (λ e. tt)
      (λ e.
        Ends-bind (λ e. length e.next ≤ length s) (λ t. length t ≤ suc (length s))
          (next_named true (c ∷ s)) _ (next_named-less true c s e)
          (λ e le.
            Ends-bind Any (λ t. length t ≤ suc (length s)) (in_room e.property) _
              (in_room-Ends e.property)
              (λ kept fit.
                either (Fits (suc (length s))) _ (ok (c ∷ s)) (entry_loop fuel name property e.next)
                  (λ e. omega arith)
                  (λ h.
                    Fits-le _ _ (entry_loop fuel name property e.next) (omega arith)
                      (entry_loop-Ends fuel name property e.next (omega arith))))))

property_loop-Ends :
    (fuel : ℕ) (wanted : Bool) (index_name name : Option Bytes) (s : Bytes)
    → length s < fuel
    → Ends Any (property_loop fuel wanted index_name name s)
unfolding property_loop
property_loop-Ends zero wanted index_name name s lt = absurd (omega arith)
property_loop-Ends (suc fuel) wanted index_name name [] lt = tt
property_loop-Ends (suc fuel) wanted index_name name (c ∷ s) lt =
    let Q : Result (Bytes × Bytes) → Type 0 = Ends Any in
    either Q (c == 0) (err missing) _ (λ e. tt)
      (λ e.
        Ends-bind (λ e. length e.next ≤ length s) Any (next_named wanted (c ∷ s)) _
          (next_named-less wanted c s e)
          (λ e le.
            either Q (is_string name e.name) (ok (c ∷ s, e.property)) _ (λ h. tt)
              (λ h.
                either Q (is_string index_name e.name) _
                  (property_loop fuel wanted index_name name e.next)
                  (λ h. at_index name (c ∷ s) e.property)
                  (λ h. property_loop-Ends fuel wanted index_name name e.next (omega arith)))))
  where
    at_index :
        (name : Option Bytes) (s v : Bytes)
        → Ends Any
            (elim name as (λ n. Result (Bytes × Bytes)) [ none ↦ ok (s, v) | some n ↦ err missing ])
    at_index none s v = tt
    at_index (some n) s v = tt

Ends-or_overrun :
    {A : Type 0} (P : A → Type 0) (r : Result A) → Ends P r → Ends P (or_else r (err overrun))
Ends-or_overrun P (ok a) h = h
Ends-or_overrun P (err missing) h = tt
Ends-or_overrun P (err overrun) h = tt
Ends-or_overrun P (err out_of_fuel) h = absurd h

-- The start of the search lies in the array.
index_start-Ends :
    (wanted : Bool) (configuration : Bytes) (index_name index_property : Option Bytes)
    → Fits (length configuration) (index_start wanted configuration index_name index_property)
unfolding index_start config_find_entry next_named config_get_next_property
index_start-Ends wanted configuration none index_property = omega arith
index_start-Ends wanted configuration (some index_name) index_property =
    let Inside : Bytes → Type 0 = λ t. length t ≤ length configuration in
    let found = entry_loop (suc (length configuration)) index_name index_property configuration in
    Ends-bind Inside Inside (or_else found (err overrun)) _
      (Ends-or_overrun Inside found (
        entry_loop-Ends (suc (length configuration)) index_name index_property configuration
          (omega arith)))
      (λ at le.
        Ends-bind (λ e. length e.next ≤ length configuration) Inside (next_named wanted at) _
          (next_inside at le) (λ e le. le))
  where
    next_inside :
        (at : Bytes)
        → length at ≤ length configuration
        → Ends (λ e. length e.next ≤ length configuration) (next_named wanted at)
    next_inside [] le = tt
    next_inside (c ∷ s) le = elim (Bool-cases (c == 0)) [
      | inl end ↦ rw (next_named, end, config_get_next_property) tt
      | inr more ↦
          Ends-map (λ e. length e.next ≤ length s) (λ e. length e.next ≤ length configuration)
            (next_named wanted (c ∷ s)) (λ e h. omega arith) (next_named-less wanted c s more)
    ]

Ends-fuel : {A : Type 0} (P : A → Type 0) (r : Result A) → Ends P r → r ≢ err out_of_fuel
Ends-fuel P r h e = subst (Ends P) e h

-- The loops of `config_find_indexed_property`, that of `config_find_entry` included, end for every
-- array and all arguments: a round for each byte and one more are enough.
pub config_find_indexed_property_ends :
    (wanted : Bool) (configuration : Bytes) (index_name index_property name : Option Bytes)
    → config_find_indexed_property wanted configuration index_name index_property name
      ≢ err out_of_fuel
unfolding config_find_indexed_property
config_find_indexed_property_ends wanted configuration index_name index_property name =
    Ends-fuel Any _ (
      Ends-bind (λ t. length t ≤ length configuration) Any
        (index_start wanted configuration index_name index_property) _
        (index_start-Ends wanted configuration index_name index_property)
        (λ start le.
          property_loop-Ends (suc (length configuration)) wanted index_name name start
            (omega arith)))
