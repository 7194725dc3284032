-- ===== src/Config/Search.antt =====
-- The search of a configuration finds the first property of a name.
use emile.Common.{
  ℕ, zero, suc, ◌≤◌, ◌<◌, ◌≡◌, ◌≢◌, ◌⊎◌, ◌↔◌, refl, sym, ap, ◌∙◌, Bool, true, false, Option, none,
  some, List, [], ◌∷◌, ◌++◌, Bytes, arith, if◌then◌else◌, length, length-append, Bool-cases, inl,
  inr,
}
use mathlib.Core.Path.{subst}
use emile.Common.Int.{ℤ, pos}
use emile.Unix.{strcmp}
use emile.Unix.Compare.{IsCString, strcmp_iff}
use emile.Config.{
  Result, ok, err, missing, is_zero, same_string, is_string, property_loop,
  config_find_indexed_property, config_get_property,
}
use emile.Config.Lines.{Property, IsProperty, line, ending, after, nonzero, next_named-line}

-- The array of a configuration: its lines, the final 0, and what is behind it.
unfoldable pub text : List Property → Bytes → Bytes
text [] junk = 0 ∷ junk
text (p ∷ []) junk = line p (0 ∷ junk)
text (p ∷ q ∷ ps) junk = line p (b'\n' ∷ text (q ∷ ps) junk)

abbrev pub AllProperties : List Property → Type 0
AllProperties [] = Unit
AllProperties (p ∷ ps) = IsProperty p × AllProperties ps

-- The search for a name gives the place and the property of the first entry of that name, or
-- nothing, if there is none.
unfoldable pub Finds : Bytes → List Property → Bytes → Result (Bytes × Bytes) → Type 0
Finds name [] junk r = r ≡ err missing
Finds name (p ∷ ps) junk r =
    ((name ≡ p.name) × (r ≡ ok (text (p ∷ ps) junk, p.property)))
    ⊎ ((name ≢ p.name) × Finds name ps junk r)

is_zero_iff : (z : ℤ) → (is_zero z ≡ true) ↔ (z ≡ pos 0)
is_zero_iff z = ground arith

pub same_string_cases :
    (a b : Bytes)
    → IsCString a
    → IsCString b
    → ((same_string a b ≡ true) × (a ≡ b)) ⊎ ((same_string a b ≡ false) × (a ≢ b))
same_string_cases a b ha hb = elim (Bool-cases (same_string a b)) [
  | inl same ↦ inl (same, (strcmp_iff a b ha hb).0 ((is_zero_iff (strcmp a b)).0 same))
  | inr other ↦ inr (
    other,
    λ e.
        let same : same_string a b ≡ true =
          (is_zero_iff (strcmp a b)).1 ((strcmp_iff a b ha hb).1 e) in
        absurd (cc),
  )
]

module _ (wanted : Bool) (fuel : ℕ) (name v t : Bytes) (b : Bool) where
  property_loop-hit :
      (n : Bytes)
      → IsProperty (record { name = n; property = v })
      → same_string name n ≡ true
      → property_loop
          (suc fuel)
          wanted
          none
          (some name)
          (line (record { name = n; property = v }) (ending b t))
        ≡ ok (line (record { name = n; property = v }) (ending b t), if wanted then v else [])
  unfolding property_loop
  property_loop-hit [] h same = absurd h.name_start
  property_loop-hit (c ∷ n) h same =
      let p : Property = record { name = c ∷ n; property = v } in
      rw (nonzero c h.name_word.0, property_loop, next_named-line p t b h wanted)
        (ap
          (λ found. elim found [
            | true ↦ ok (line p (ending b t), if wanted then v else [])
            | false ↦ property_loop fuel wanted none (some name) (after b t)
          ])
          same)

-- Another name, or none at all: the search goes on in the next line.
property_loop-miss :
    (wanted : Bool) (fuel : ℕ) (name : Option Bytes) (v t : Bytes) (b : Bool) (n : Bytes)
    → IsProperty (record { name = n; property = v })
    → is_string name n ≡ false
    → property_loop
        (suc fuel)
        wanted
        none
        name
        (line (record { name = n; property = v }) (ending b t))
      ≡ property_loop fuel wanted none name (after b t)
unfolding property_loop
property_loop-miss wanted fuel name v t b [] h other = absurd h.name_start
property_loop-miss wanted fuel name v t b (c ∷ n) h other =
    let p : Property = record { name = c ∷ n; property = v } in
    let rest = line p (ending b t) in
    rw (nonzero c h.name_word.0, property_loop, next_named-line p t b h wanted)
      (ap
        (λ found. elim found [
          | true ↦ ok (rest, if wanted then v else [])
          | false ↦ property_loop fuel wanted none name (after b t)
        ])
        other)

-- A text is its first line and the text of the others.
text_cons :
    (p : Property) (ps : List Property) (junk : Bytes)
    → (b : Bool) × (t : Bytes) × (text (p ∷ ps) junk ≡ line p (ending b t))
      × (after b t ≡ text ps junk)
unfolding text
text_cons p [] junk = (false, junk, refl, refl)
text_cons p (q ∷ ps) junk = (true, text (q ∷ ps) junk, refl, refl)

at_end :
    (wanted : Bool) (fuel : ℕ) (name : Option Bytes) (junk : Bytes)
    → property_loop (suc fuel) wanted none name (text [] junk) ≡ err missing
unfolding property_loop text
at_end wanted fuel name junk = refl

property_loop-Finds :
    (fuel : ℕ) (name : Bytes) (ps : List Property) (junk : Bytes)
    → IsCString name
    → AllProperties ps
    → length ps < fuel
    → Finds name ps junk (property_loop fuel true none (some name) (text ps junk))
unfolding Finds
property_loop-Finds zero name ps junk hn hp lt = absurd (omega arith)
property_loop-Finds (suc fuel) name [] junk hn hp lt = at_end true fuel (some name) junk
property_loop-Finds (suc fuel) name (p ∷ ps) junk hn hp lt =
    let (b, t, at, next) = text_cons p ps junk in
    elim (same_string_cases name p.name hn hp.0.name_string) [
      | inl (same, e) ↦
          inl (e, rw at (property_loop-hit true fuel name p.property t b p.name hp.0 same))
      | inr (same, e) ↦ inr (
        e,
        subst (Finds name ps junk)
            (sym (
              ap (property_loop (suc fuel) true none (some name)) at
              ∙ property_loop-miss true fuel (some name) p.property t b p.name hp.0 same
              ∙ ap (property_loop fuel true none (some name)) next))
            (property_loop-Finds fuel name ps junk hn hp.1 (omega arith)),
      )
    ]

line_pos : (p : Property) (s : Bytes) → suc (length s) ≤ length (line p s)
line_pos p s =
    omega (arith, length-append p.name (b' ' ∷ (p.property ++ s)), length-append p.property s)

-- There is a byte for each line.
length-le-text : (ps : List Property) (junk : Bytes) → length ps ≤ length (text ps junk)
unfolding text
length-le-text [] junk = omega arith
length-le-text (p ∷ []) junk = omega (arith, line_pos p (0 ∷ junk))
length-le-text (p ∷ q ∷ ps) junk =
    omega (arith, line_pos p (b'\n' ∷ text (q ∷ ps) junk), length-le-text (q ∷ ps) junk)

pub config_get_property-Finds :
    (name : Bytes) (ps : List Property) (junk : Bytes)
    → IsCString name
    → AllProperties ps
    → Finds name ps junk (config_get_property (text ps junk) name)
unfolding config_get_property config_find_indexed_property
config_get_property-Finds name ps junk hn hp =
    property_loop-Finds (suc (length (text ps junk))) name ps junk hn hp
      (omega (arith, length-le-text ps junk))

-- No line has the name.
abbrev pub IsUnused : Option Bytes → List Property → Type 0
IsUnused name [] = Unit
IsUnused name (p ∷ ps) = (is_string name p.name ≡ false) × IsUnused name ps

property_loop_unused :
    (wanted : Bool) (fuel : ℕ) (name : Option Bytes) (ps : List Property) (junk : Bytes)
    → AllProperties ps
    → IsUnused name ps
    → length ps < fuel
    → property_loop fuel wanted none name (text ps junk) ≡ err missing
property_loop_unused wanted zero name ps junk hp h lt = absurd (omega arith)
property_loop_unused wanted (suc fuel) name [] junk hp h lt = at_end wanted fuel name junk
property_loop_unused wanted (suc fuel) name (p ∷ ps) junk hp h lt =
    let (b, t, at, next) = text_cons p ps junk in
    ap (property_loop (suc fuel) wanted none name) at
    ∙ property_loop-miss wanted fuel name p.property t b p.name hp.0 h.0
    ∙ ap (property_loop fuel wanted none name) next
    ∙ property_loop_unused wanted fuel name ps junk hp.1 h.1 (omega arith)

pub config_find_indexed_property_unused :
    (wanted : Bool) (name : Option Bytes) (ps : List Property) (junk : Bytes)
    → AllProperties ps
    → IsUnused name ps
    → config_find_indexed_property wanted (text ps junk) none none name ≡ err missing
unfolding config_find_indexed_property
config_find_indexed_property_unused wanted name ps junk hp h =
    property_loop_unused wanted (suc (length (text ps junk))) name ps junk hp h
      (omega (arith, length-le-text ps junk))
