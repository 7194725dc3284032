-- ===== src/Config/Set.antt =====
-- A property that is new is set as it is added.
use emile.Common.{
  ℕ, zero, suc, ◌+◌, ◌-◌, ◌≤◌, ◌≡◌, refl, sym, ap, ◌∙◌, false, none, some, List, [], ◌∷◌, ◌++◌,
  Bytes, arith, ltb, length, get_or, take, drop, length-append, inl, inr,
}
use emile.Unix.Compare.{IsCString}
use emile.Config.{ok}
use emile.Config.Edit.{
  text_length, overwrite, end_index, separate, new_index, place, remove_ending, config_add_property,
  config_set_indexed_property, config_set_property,
}
use emile.Config.Lines.{Property, IsProperty, line}
use emile.Config.Search.{
  text, AllProperties, IsUnused, same_string_cases, config_find_indexed_property_unused,
}
use emile.Config.Text.{
  lines, text-lines, lines_snoc, AllNonzero, AllNonzero-append, append_assoc, line-append,
  property_nonzero, text_length-append, drop_first, overwrite-append,
}
use emile.Config.Add.{
  length_newline, separate-append, end_index-lines, room, last_index, IsAbsent,
  config_add_property-text,
}

take-drop : (n : ℕ) (s : Bytes) → take n s ++ drop n s ≡ s
take-drop zero s = refl
take-drop (suc n) [] = refl
take-drop (suc n) (c ∷ s) = ap (◌∷◌ c) (take-drop n s)

-- Nothing is moved.
overwrite_nothing : (s : Bytes) (n : ℕ) → n ≤ length s → overwrite s n [] ≡ ok s
unfolding overwrite
overwrite_nothing s n le =
    let inside : ltb (length s) (n + 0) ≡ false = ground arith in
    let same : n + 0 ≡ n = omega arith in rw (overwrite, inside, same) (ap ok (take-drop n s))

get_or-append : (s t : Bytes) (c d : ℕ) → get_or (s ++ (c ∷ t)) (length s) d ≡ c
get_or-append [] t c d = refl
get_or-append (x ∷ s) t c d = get_or-append s t c d

-- A byte behind two parts
overwrite_byte :
    (front s t : Bytes) (x y : ℕ)
    → overwrite (front ++ (s ++ (x ∷ t))) (length front + length s) (y ∷ [])
      ≡ ok (front ++ (s ++ (y ∷ t)))
overwrite_byte front s t x y =
    ap (λ a. overwrite a (length front + length s) (y ∷ [])) (sym (append_assoc front s (x ∷ t)))
    ∙ ap (λ n. overwrite ((front ++ s) ++ (x ∷ t)) n (y ∷ [])) (sym (length-append front s))
    ∙ overwrite-append (front ++ s) (x ∷ []) (y ∷ []) t refl
    ∙ ap ok (append_assoc front s (y ∷ t))

get_byte :
    (front s t : Bytes) (c : ℕ) → get_or (front ++ (s ++ (c ∷ t))) (length front + length s) 0 ≡ c
get_byte front s t c =
    ap (λ a. get_or a (length front + length s) 0) (sym (append_assoc front s (c ∷ t)))
    ∙ ap (λ n. get_or ((front ++ s) ++ (c ∷ t)) n 0) (sym (length-append front s))
    ∙ get_or-append (front ++ s) t c 0

text_length_newline :
    (s junk : Bytes) → AllNonzero s → text_length (s ++ (b'\n' ∷ 0 ∷ junk)) ≡ ok (length s + 1)
text_length_newline s junk h =
    ap text_length (sym (append_assoc s (b'\n' ∷ []) (0 ∷ junk)))
    ∙ text_length-append (s ++ (b'\n' ∷ [])) junk (AllNonzero-append s (b'\n' ∷ []) h (refl, tt))
    ∙ ap ok (length_newline s)

remove_ending_newline :
    (front s junk : Bytes)
    → AllNonzero s
    → remove_ending (front ++ (s ++ (b'\n' ∷ 0 ∷ junk))) (length front)
      ≡ ok (front ++ (s ++ (0 ∷ 0 ∷ junk)))
unfolding remove_ending
remove_ending_newline front s junk h =
    let last : length front + (length s + 1) - 1 ≡ length front + length s = omega arith in
    rw
      (
        remove_ending,
        drop_first front (s ++ (b'\n' ∷ 0 ∷ junk)),
        text_length_newline s junk h,
        last,
        get_byte front s (0 ∷ junk) b'\n',
      )
      (overwrite_byte front s (0 ∷ junk) b'\n' 0)

-- A new name has no place in the text but the end.
IsUnused-name :
    (name : Bytes) (ps : List Property)
    → IsCString name
    → AllProperties ps
    → IsAbsent name ps
    → IsUnused (some name) ps
IsUnused-name name [] hn h absent = tt
IsUnused-name name (p ∷ ps) hn h absent = (
  elim (same_string_cases name p.name hn h.0.name_string) [
    | inl (same, e) ↦ absurd (absent.0 e)
    | inr (other, e) ↦ other
  ],
  IsUnused-name name ps hn h.1 absent.1,
)

IsUnused-none : (ps : List Property) → IsUnused none ps
IsUnused-none [] = tt
IsUnused-none (p ∷ ps) = (refl, IsUnused-none ps)

end_index-text :
    (ps : List Property) (junk : Bytes)
    → AllProperties ps
    → end_index (text ps junk) ≡ ok (last_index ps)
unfolding end_index text_length text
end_index-text [] junk h = refl
end_index-text (q ∷ ps) junk h =
    ap end_index (text-lines (q ∷ ps) junk) ∙ end_index-lines q ps junk h

place_end :
    (ps : List Property) (name junk : Bytes)
    → IsCString name
    → AllProperties ps
    → IsAbsent name ps
    → place (text ps junk) none none name ≡ ok (last_index ps, last_index ps)
unfolding place new_index
place_end ps name junk hn h absent =
    rw
      (
        place,
        config_find_indexed_property_unused false (some name) ps junk h
            (IsUnused-name name ps hn h absent),
        new_index,
        config_find_indexed_property_unused false none ps junk h (IsUnused-none ps),
        end_index-text ps junk h,
      )
      refl

-- The writes behind a front, where no text is to be moved
set_behind :
    (configuration separated front junk : Bytes) (p : Property)
    → IsProperty p
    → place configuration none none p.name ≡ ok (length front, length front)
    → text_length (drop (length front) configuration) ≡ ok 0
    → length front + (length p.name + 1 + length p.property + 1) ≤ length configuration
    → separate configuration (length front) ≡ ok separated
    → overwrite separated (length front) (line p (0 ∷ []))
      ≡ ok (front ++ (line p [] ++ (0 ∷ 0 ∷ junk)))
    → config_set_property configuration p.name p.property
      ≡ ok (length front, front ++ (line p [] ++ (0 ∷ 0 ∷ junk)))
unfolding config_set_property config_set_indexed_property
set_behind configuration separated front junk p hp at empty inside sep written =
    let n = length front + (length p.name + 1 + length p.property + 1) in
    let size : n - 1 ≡ length front + length (line p []) =
      omega
        (arith, length-append p.name (b' ' ∷ (p.property ++ [])), length-append p.property []) in
    rw
      (
        config_set_property,
        config_set_indexed_property,
        at,
        empty,
        overwrite_nothing configuration n inside,
        sep,
        written,
        size,
        overwrite_byte front (line p []) (0 ∷ junk) 0 b'\n',
        remove_ending_newline front (line p []) junk (property_nonzero p [] hp tt),
      )
      refl

both_lines :
    (p : Property) (junk : Bytes) → line p (0 ∷ []) ++ (0 ∷ junk) ≡ line p [] ++ (0 ∷ 0 ∷ junk)
both_lines p junk = line-append p (0 ∷ []) (0 ∷ junk) ∙ sym (line-append p [] (0 ∷ 0 ∷ junk))

set_first :
    (p : Property) (spare junk : Bytes)
    → IsProperty p
    → suc (suc (length spare)) ≡ length (line p (0 ∷ []))
    → config_set_property (text [] ((0 ∷ spare) ++ (0 ∷ junk))) p.name p.property
      ≡ ok (0, text (p ∷ []) (0 ∷ junk))
unfolding text text_length separate
set_first p spare junk hp same =
    set_behind (0 ∷ 0 ∷ (spare ++ (0 ∷ junk))) (0 ∷ 0 ∷ (spare ++ (0 ∷ junk))) [] junk p hp
      (place_end [] p.name ((0 ∷ spare) ++ (0 ∷ junk)) hp.name_string tt tt) refl
      (omega (
        arith,
        same,
        length-append spare (0 ∷ junk),
        length-append p.name (b' ' ∷ (p.property ++ (0 ∷ []))),
        length-append p.property (0 ∷ []),
      ))
      refl
      (overwrite-append [] (0 ∷ 0 ∷ spare) (line p (0 ∷ [])) (0 ∷ junk) same
        ∙ ap ok (both_lines p junk))
    ∙ ap (λ t. ok (0, t)) (line-append p [] (0 ∷ 0 ∷ junk))

text_snoc :
    (q : Property) (ps : List Property) (p : Property) (junk : Bytes)
    → (lines (q ∷ ps) ++ (b'\n' ∷ [])) ++ (line p [] ++ (0 ∷ junk))
      ≡ text ((q ∷ ps) ++ (p ∷ [])) junk
text_snoc q ps p junk =
    append_assoc (lines (q ∷ ps)) (b'\n' ∷ []) (line p [] ++ (0 ∷ junk))
    ∙ sym (append_assoc (lines (q ∷ ps)) (b'\n' ∷ line p []) (0 ∷ junk))
    ∙ ap (λ t. t ++ (0 ∷ junk)) (sym (lines_snoc q ps p))
    ∙ sym (text-lines ((q ∷ ps) ++ (p ∷ [])) junk)

set_last :
    (q : Property) (ps : List Property) (p : Property) (spare junk : Bytes)
    → AllProperties (q ∷ ps)
    → IsProperty p
    → IsAbsent p.name (q ∷ ps)
    → suc (length spare) ≡ length (line p (0 ∷ []))
    → config_set_property (text (q ∷ ps) ((0 ∷ spare) ++ (0 ∷ junk))) p.name p.property
      ≡ ok (length (lines (q ∷ ps)) + 1, text ((q ∷ ps) ++ (p ∷ [])) (0 ∷ junk))
unfolding text_length
set_last q ps p spare junk h hp absent same =
    let s = lines (q ∷ ps) in
    let front = s ++ (b'\n' ∷ []) in
    let tail = (0 ∷ spare) ++ (0 ∷ junk) in
    let at : length front ≡ length s + 1 = length_newline s in
    let array : text (q ∷ ps) tail ≡ s ++ (0 ∷ tail) = text-lines (q ∷ ps) tail in
    let place_at : place (s ++ (0 ∷ tail)) none none p.name ≡ ok (length front, length front) =
      ap (λ a. place a none none p.name) (sym array)
      ∙ place_end (q ∷ ps) p.name tail hp.name_string h absent
      ∙ ap (λ n. ok (n, n)) (sym at) in
    let behind : drop (length front) (s ++ (0 ∷ tail)) ≡ tail =
      ap (λ n. drop n (s ++ (0 ∷ tail))) (at ∙ sym (omega (arith, length-append s (0 ∷ []))))
      ∙ ap (drop (length (s ++ (0 ∷ [])))) (sym (append_assoc s (0 ∷ []) tail))
      ∙ drop_first (s ++ (0 ∷ [])) tail in
    ap (λ a. config_set_property a p.name p.property) array
    ∙ set_behind (s ++ (0 ∷ tail)) (front ++ tail) front junk p hp place_at (ap text_length behind)
        (omega (
          arith,
          same,
          at,
          length-append s (0 ∷ tail),
          length-append spare (0 ∷ junk),
          length-append p.name (b' ' ∷ (p.property ++ (0 ∷ []))),
          length-append p.property (0 ∷ []),
        ))
        (ap (separate (s ++ (0 ∷ tail))) at ∙ separate-append s tail)
        (overwrite-append front (0 ∷ spare) (line p (0 ∷ [])) (0 ∷ junk) same
          ∙ ap (λ t. ok (front ++ t)) (both_lines p junk))
    ∙ ap (λ n. ok (n, front ++ (line p [] ++ (0 ∷ 0 ∷ junk)))) at
    ∙ ap (λ t. ok (length s + 1, t)) (text_snoc q ps p (0 ∷ junk))

pub config_set_property-config_add_property :
    (ps : List Property) (p : Property) (spare junk : Bytes)
    → AllProperties ps
    → IsProperty p
    → IsAbsent p.name ps
    → room ps (0 ∷ spare) ≡ length (line p (0 ∷ []))
    → config_set_property (text ps ((0 ∷ spare) ++ (0 ∷ junk))) p.name p.property
      ≡ config_add_property (text ps ((0 ∷ spare) ++ (0 ∷ junk))) p.name p.property
config_set_property-config_add_property [] p spare junk h hp absent same =
    set_first p spare junk hp same
    ∙ sym (config_add_property-text [] p (0 ∷ spare) (0 ∷ junk) h same)
config_set_property-config_add_property (q ∷ ps) p spare junk h hp absent same =
    set_last q ps p spare junk h hp absent same
    ∙ sym (config_add_property-text (q ∷ ps) p (0 ∷ spare) (0 ∷ junk) h same)
