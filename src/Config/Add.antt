-- ===== src/Config/Add.antt =====
-- A property that is added is the last line of the configuration.
use emile.Common.{
  ℕ, suc, ◌+◌, ◌-◌, ◌<◌, ◌≡◌, ◌≢◌, refl, sym, ap, ◌∙◌, true, List, [], ◌∷◌, ◌++◌, Bytes, arith, ltb,
  if◌then◌else◌, length, length-append, inl, inr,
}
use emile.Config.{Result, ok, ◌>>=◌, config_get_property}
use emile.Config.Edit.{text_length, overwrite, end_index, separate, config_add_property}
use emile.Config.Lines.{Property, IsProperty, line}
use emile.Config.Search.{text, AllProperties, Finds, config_get_property-Finds}
use emile.Config.Text.{
  lines, append_assoc, line-append, text-lines, lines_snoc, lines_nonzero, text_length-append,
  overwrite-append,
}

-- The first line, in an empty text
add_first :
    (p : Property) (spare junk : Bytes)
    → suc (length spare) ≡ length (line p (0 ∷ []))
    → config_add_property (0 ∷ (spare ++ junk)) p.name p.property ≡ ok (0, text (p ∷ []) junk)
unfolding config_add_property text_length end_index separate text
add_first p spare junk same =
    ap (λ r. r >>= λ written. ok (0, written))
      (overwrite-append [] (0 ∷ spare) (line p (0 ∷ [])) junk same
        ∙ ap ok (line-append p (0 ∷ []) junk))

lines_some : (q : Property) (ps : List Property) → 0 < length (lines (q ∷ ps))
unfolding lines
lines_some q [] = omega (arith, length-append q.name (b' ' ∷ (q.property ++ [])))
lines_some q (r ∷ ps) =
    omega (arith, length-append q.name (b' ' ∷ (q.property ++ (b'\n' ∷ lines (r ∷ ps)))))

pub end_index-lines :
    (q : Property) (ps : List Property) (junk : Bytes)
    → AllProperties (q ∷ ps)
    → end_index (lines (q ∷ ps) ++ (0 ∷ junk)) ≡ ok (length (lines (q ∷ ps)) + 1)
unfolding end_index
end_index-lines q ps junk h =
    let n = length (lines (q ∷ ps)) in
    let some : ltb 0 n ≡ true = ground (arith, lines_some q ps) in
    ap (λ r. r >>= λ n. ok (if ltb 0 n then n + 1 else n))
      (text_length-append (lines (q ∷ ps)) junk (lines_nonzero (q ∷ ps) h))
    ∙ ap (λ b. ok (if b then n + 1 else n)) some

pub length_newline : (s : Bytes) → length (s ++ (b'\n' ∷ [])) ≡ length s + 1
length_newline s = omega (arith, length-append s (b'\n' ∷ []))

-- A '\n' in the place of the final 0
pub separate-append :
    (s t : Bytes) → separate (s ++ (0 ∷ t)) (length s + 1) ≡ ok ((s ++ (b'\n' ∷ [])) ++ t)
unfolding separate
separate-append s t =
    let pos : ltb 0 (length s + 1) ≡ true = ground arith in
    let at : length s + 1 - 1 ≡ length s = omega arith in
    rw (separate, pos, at)
      (overwrite-append s (0 ∷ []) (b'\n' ∷ []) t refl
        ∙ ap ok (sym (append_assoc s (b'\n' ∷ []) t)))

-- A line over as many bytes
pub overwrite-line :
    (s : Bytes) (p : Property) (spare junk : Bytes)
    → length spare ≡ length (line p (0 ∷ []))
    → overwrite ((s ++ (b'\n' ∷ [])) ++ (spare ++ junk)) (length s + 1) (line p (0 ∷ []))
      ≡ ok ((s ++ (b'\n' ∷ line p [])) ++ (0 ∷ junk))
overwrite-line s p spare junk same =
    ap (λ n. overwrite ((s ++ (b'\n' ∷ [])) ++ (spare ++ junk)) n (line p (0 ∷ [])))
      (sym (length_newline s))
    ∙ overwrite-append (s ++ (b'\n' ∷ [])) spare (line p (0 ∷ [])) junk same
    ∙ ap ok (
        append_assoc s (b'\n' ∷ []) (line p (0 ∷ []) ++ junk)
        ∙ ap (λ t. s ++ (b'\n' ∷ t))
            (line-append p (0 ∷ []) junk ∙ sym (line-append p [] (0 ∷ junk)))
        ∙ sym (append_assoc s (b'\n' ∷ line p []) (0 ∷ junk)))

-- Behind other lines: the array, with its two parts written.
add_behind :
    (q : Property) (ps : List Property) (p : Property) (spare junk : Bytes)
    → AllProperties (q ∷ ps)
    → length spare ≡ length (line p (0 ∷ []))
    → config_add_property (text (q ∷ ps) (spare ++ junk)) p.name p.property
      ≡ ok (length (lines (q ∷ ps)) + 1, text ((q ∷ ps) ++ (p ∷ [])) junk)
unfolding config_add_property
add_behind q ps p spare junk h same =
    let s = lines (q ∷ ps) in
    rw
      (
        text-lines (q ∷ ps) (spare ++ junk),
        config_add_property,
        end_index-lines q ps (spare ++ junk) h,
        separate-append s (spare ++ junk),
        overwrite-line s p spare junk same,
        text-lines ((q ∷ ps) ++ (p ∷ [])) junk,
        lines_snoc q ps p,
      )
      refl

-- The bytes that a line more takes behind the text: the '\n' and the line, whose 0 is one of them.
abbrev pub room : List Property → Bytes → ℕ
room [] spare = suc (length spare)
room (q ∷ ps) spare = length spare

abbrev pub last_index : List Property → ℕ
last_index [] = 0
last_index (q ∷ ps) = length (lines (q ∷ ps)) + 1

-- `config_add_property` makes the property the last line, and returns its index; the bytes behind
-- the new line are left as they were. It holds if the array has room for the line.
pub config_add_property-text :
    (ps : List Property) (p : Property) (spare junk : Bytes)
    → AllProperties ps
    → room ps spare ≡ length (line p (0 ∷ []))
    → config_add_property (text ps (spare ++ junk)) p.name p.property
      ≡ ok (last_index ps, text (ps ++ (p ∷ [])) junk)
unfolding text
config_add_property-text [] p spare junk h same = add_first p spare junk same
config_add_property-text (q ∷ ps) p spare junk h same = add_behind q ps p spare junk h same

abbrev pub IsAbsent : Bytes → List Property → Type 0
IsAbsent name [] = Unit
IsAbsent name (p ∷ ps) = (name ≢ p.name) × IsAbsent name ps

pub AllProperties-snoc :
    (ps : List Property) (p : Property)
    → AllProperties ps
    → IsProperty p
    → AllProperties (ps ++ (p ∷ []))
AllProperties-snoc [] p h hp = (hp, tt)
AllProperties-snoc (q ∷ ps) p h hp = (h.0, AllProperties-snoc ps p h.1 hp)

Finds-snoc :
    (ps : List Property) (p : Property) (junk : Bytes) (r : Result (Bytes × Bytes))
    → IsAbsent p.name ps
    → Finds p.name (ps ++ (p ∷ [])) junk r
    → r ≡ ok (text (p ∷ []) junk, p.property)
unfolding Finds
Finds-snoc [] p junk r h (inl (same, e)) = e
Finds-snoc [] p junk r h (inr (other, f)) = absurd (other refl)
Finds-snoc (q ∷ ps) p junk r h (inl (same, e)) = absurd (h.0 same)
Finds-snoc (q ∷ ps) p junk r h (inr (other, f)) = Finds-snoc ps p junk r h.1 f

-- A property that is added is read back: `config_get_property` on what `config_add_property` leaves
-- returns the place of the last line and the property. It holds if the name is new, the lines are
-- properties, and the array has room for the line.
pub config_get_property-config_add_property :
    (ps : List Property) (p : Property) (spare junk : Bytes)
    → AllProperties ps
    → IsProperty p
    → IsAbsent p.name ps
    → room ps spare ≡ length (line p (0 ∷ []))
    → (config_add_property (text ps (spare ++ junk)) p.name p.property >>= λ (index, configuration).
        config_get_property configuration p.name)
      ≡ ok (text (p ∷ []) junk, p.property)
config_get_property-config_add_property ps p spare junk h hp absent same =
    ap (λ r. r >>= λ (index, configuration). config_get_property configuration p.name)
      (config_add_property-text ps p spare junk h same)
    ∙ Finds-snoc ps p junk _ absent (
        config_get_property-Finds p.name (ps ++ (p ∷ [])) junk hp.name_string
          (AllProperties-snoc ps p h hp))
