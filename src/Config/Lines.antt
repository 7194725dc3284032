-- ===== src/Config/Lines.antt =====
-- A line of a configuration is read as it was written.
use emile.Common.{
  ℕ, suc, ◌-◌, ◌<◌, ◌≡◌, refl, ap, ◌∙◌, Bool, true, false, ◌||◌, [], ◌∷◌, ◌++◌, Bytes, arith, ltb,
  ◌==◌, if◌then◌else◌, length, take, length-append, Bool-cases, inl, inr,
}
use emile.Unix.Compare.{IsCString}
use emile.Config.{
  Result, ok, ◌>>=◌, is_blank, eat, line_end, read_line, word_end, config_read_word, strip_newline,
  copy_property, Entry, read_entry, config_get_next_property, name_room, in_room, next_named,
}

pub record Property : Type 0 where
  pub name : Bytes
  pub property : Bytes

-- Words have neither a blank nor a final 0, values neither a final 0 nor the end of a line.
abbrev pub AllWord : Bytes → Type 0
AllWord [] = Unit
AllWord (c ∷ s) = ((c == 0 || is_blank c) ≡ false) × AllWord s

abbrev pub AllLine : Bytes → Type 0
AllLine [] = Unit
AllLine (c ∷ s) = ((c == 0) ≡ false) × ((c == b'\n') ≡ false) × AllLine s

-- Nothing that is skipped begins it.
abbrev pub IsStart : Bytes → Type 0
IsStart [] = ⊥
IsStart (c ∷ s) = (is_blank c ≡ false) × ((c == b'#') ≡ false)

pub record IsProperty (p : Property) : Type 0 where
  pub name_word : AllWord p.name
  pub name_start : IsStart p.name
  pub name_string : IsCString p.name
  pub name_short : length p.name < name_room
  pub property_line : AllLine p.property
  pub property_start : IsStart p.property

-- What ends a line, in front of other bytes, and the next line then.
abbrev pub ending : Bool → Bytes → Bytes
ending true t = b'\n' ∷ t
ending false t = 0 ∷ t

abbrev pub after : Bool → Bytes → Bytes
after true t = t
after false t = 0 ∷ t

eat-start : (s t : Bytes) → IsStart s → eat false (s ++ t) ≡ ok (s ++ t)
unfolding eat
eat-start [] t h = absurd h
eat-start (c ∷ s) t h = rw (h.0, eat) (rw (h.1, eat) refl)

line_end-ending : (s t : Bytes) (b : Bool) → AllLine s → line_end (s ++ ending b t) ≡ ok (after b t)
unfolding line_end
line_end-ending [] t true h = refl
line_end-ending [] t false h = refl
line_end-ending (c ∷ s) t b h = rw (h.0, line_end) (rw (h.1, line_end) (line_end-ending s t b h.2))

word_end-blank : (s t : Bytes) → AllWord s → word_end (s ++ b' ' ∷ t) ≡ ok (s, b' ' ∷ t)
unfolding word_end
word_end-blank [] t h = refl
word_end-blank (c ∷ s) t h =
    rw (h.0, word_end) (ap (λ r. r >>= λ (w, n). ok (c ∷ w, n)) (word_end-blank s t h.1))

-- The word that a value begins with ends.
word_end_total :
    (s t : Bytes) (b : Bool) → AllLine s → (r : Bytes × Bytes) × (word_end (s ++ ending b t) ≡ ok r)
unfolding word_end
word_end_total [] t true h = (_, refl)
word_end_total [] t false h = (_, refl)
word_end_total (c ∷ s) t b h =
    let (r, e) = word_end_total s t b h.2 in
    elim (Bool-cases (c == 0 || is_blank c)) [
      | inl stop ↦ (([], c ∷ s ++ ending b t), rw (stop, word_end) refl)
      | inr go ↦ ((c ∷ r.0, r.1), rw (go, word_end) (ap (λ r. r >>= λ (w, n). ok (c ∷ w, n)) e))
    ]

take-append : (s t : Bytes) → take (length s) (s ++ t) ≡ s
take-append [] t = refl
take-append (c ∷ s) t = ap (◌∷◌ c) (take-append s t)

take_one_more : (s t : Bytes) (c : ℕ) → take (suc (length s)) (s ++ c ∷ t) ≡ s ++ c ∷ []
take_one_more [] t c = refl
take_one_more (d ∷ s) t c = ap (◌∷◌ d) (take_one_more s t c)

strip_newline-line : (s : Bytes) → AllLine s → strip_newline s ≡ s
unfolding strip_newline
strip_newline-line [] h = refl
strip_newline-line (c ∷ []) h = rw h.1 refl
strip_newline-line (c ∷ d ∷ s) h = ap (◌∷◌ c) (strip_newline-line (d ∷ s) (h.2))

strip_newline_end : (s : Bytes) → AllLine s → strip_newline (s ++ b'\n' ∷ []) ≡ s
unfolding strip_newline
strip_newline_end [] h = refl
strip_newline_end (c ∷ []) h = refl
strip_newline_end (c ∷ d ∷ s) h = ap (◌∷◌ c) (strip_newline_end (d ∷ s) (h.2))

line_end-line :
    (n v t : Bytes) (b : Bool)
    → AllWord n
    → AllLine v
    → line_end (n ++ (b' ' ∷ (v ++ ending b t))) ≡ ok (after b t)
unfolding line_end
line_end-line [] v t b hn hv = line_end-ending v t b hv
line_end-line (c ∷ n) v t b hn hv =
    rw ((word_byte c hn.0).0, line_end)
      (rw ((word_byte c hn.0).1, line_end) (line_end-line n v t b hn.1 hv))
  where
    word_byte :
        (c : ℕ) → (c == 0 || is_blank c) ≡ false → ((c == 0) ≡ false) × ((c == b'\n') ≡ false)
    word_byte c h = ground arith

copy_property-line :
    (v t : Bytes) (b : Bool) → AllLine v → copy_property (v ++ ending b t) (after b t) ≡ ok v
unfolding copy_property
copy_property-line v t true h = rw (long, size, take_one_more v t b'\n', strip_newline_end v h) refl
  where
    long : ltb (length (v ++ b'\n' ∷ t)) (length t) ≡ false
    long = ground (arith, length-append v (b'\n' ∷ t))

    size : length (v ++ b'\n' ∷ t) - length t ≡ suc (length v)
    size = omega (arith, length-append v (b'\n' ∷ t))
copy_property-line v t false h = rw (long, size, take-append v (0 ∷ t), strip_newline-line v h) refl
  where
    long : ltb (length (v ++ 0 ∷ t)) (suc (length t)) ≡ false
    long = ground (arith, length-append v (0 ∷ t))

    size : length (v ++ 0 ∷ t) - suc (length t) ≡ length v
    size = omega (arith, length-append v (0 ∷ t))

abbrev pub line : Property → Bytes → Bytes
line p end = p.name ++ (b' ' ∷ (p.property ++ end))

-- What is read of a line, in front of the next one
abbrev pub entry_of : Bool → Property → Bytes → Entry
entry_of wanted p next = record {
  name = p.name;
  property = if wanted then p.property else [];
  next = next;
}

pub nonzero : (c : ℕ) → (c == 0 || is_blank c) ≡ false → (c == 0) ≡ false
nonzero c e = ground arith

nonempty :
    (wanted : Bool) (s t : Bytes)
    → IsStart s
    → AllWord s
    → config_get_next_property wanted (s ++ t) ≡ read_entry wanted (s ++ t)
unfolding config_get_next_property
nonempty wanted [] t h w = absurd h
nonempty wanted (c ∷ s) t h w = rw (nonzero c w.0) refl

module _ (p : Property) (t : Bytes) (b : Bool) (h : IsProperty p) where
  read_line-line : read_line (line p (ending b t)) ≡ ok (after b t)
  unfolding read_line
  read_line-line =
      ap (λ r. r >>= line_end) (eat-start p.name (b' ' ∷ (p.property ++ ending b t)) h.name_start)
      ∙ line_end-line p.name p.property t b h.name_word h.property_line

  config_read_word-line :
      config_read_word (line p (ending b t)) ≡ ok (p.name, b' ' ∷ (p.property ++ ending b t))
  unfolding config_read_word
  config_read_word-line =
      ap (λ r. r >>= word_end) (eat-start p.name (b' ' ∷ (p.property ++ ending b t)) h.name_start)
      ∙ word_end-blank p.name (p.property ++ ending b t) h.name_word

  eat-property : eat false (b' ' ∷ (p.property ++ ending b t)) ≡ ok (p.property ++ ending b t)
  unfolding eat
  eat-property = eat-start p.property (ending b t) h.property_start

  pub read_entry-line :
      (wanted : Bool) → read_entry wanted (line p (ending b t)) ≡ ok (entry_of wanted p (after b t))
  unfolding read_entry
  read_entry-line wanted =
      let (r, e) = word_end_total p.property t b h.property_line in
      rw (read_entry, read_line-line, config_read_word-line, eat-property, e) (last wanted)
    where
      with_property : Bytes → Result Entry
      with_property v = ok (record { name = p.name; property = v; next = after b t })

      last :
          (wanted : Bool)
          → (if wanted then copy_property (p.property ++ ending b t) (after b t) else ok [])
              >>= with_property
            ≡ ok (entry_of wanted p (after b t))
      last true = rw (copy_property-line p.property t b h.property_line) refl
      last false = refl

  pub config_get_next_property-line :
      (wanted : Bool)
      → config_get_next_property wanted (line p (ending b t)) ≡ ok (entry_of wanted p (after b t))
  config_get_next_property-line wanted =
      nonempty wanted p.name (b' ' ∷ (p.property ++ ending b t)) h.name_start h.name_word
      ∙ read_entry-line wanted

  pub next_named-line :
      (wanted : Bool) → next_named wanted (line p (ending b t)) ≡ ok (entry_of wanted p (after b t))
  unfolding next_named
  next_named-line wanted =
      let fits : in_room p.name ≡ ok p.name = ground (arith, h.name_short) in
      rw (config_get_next_property-line wanted, fits) refl
