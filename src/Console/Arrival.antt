-- ===== src/Console/Arrival.antt =====
-- A byte that arrives at a serial port while `console_getchar` waits for it.
use emile.Common.{
  ℕ, zero, suc, ◌+◌, ◌≤◌, ◌<◌, ◌≡◌, ◌≢◌, ◌⊎◌, inl, inr, Bool-cases, sym, ltb, refl, ap, ap₂, ◌∙◌,
  true, false, arith, ◌==◌, if◌then◌else◌,
}
use emile.Common.Arith.{equal_of_test, ltb-lt, ltb-ge}
use emile.Console.{
  Console, console_modem, modem_char, poll_from, poll, getchar_loop, console_getchar,
}

-- The console behind `n` questions to the modem port
abbrev pub asked_more : Console → ℕ → Console
asked_more con n = record con { modem = record con.modem { asked = con.modem.asked + n } }

poll-modem : (con : Console) → con.selected_console ≡ console_modem → poll con ≡ modem_char con
unfolding poll poll_from
poll-modem con h = rw h refl

asked_more-add : (con : Console) (n : ℕ) → asked_more (asked_more con 1) n ≡ asked_more con (suc n)
asked_more-add con n = ap (λ k. record con { modem = record con.modem { asked = k } }) (omega arith)

-- The byte that the next question gets
abbrev pub next_byte : Console → ℕ → ℕ
next_byte con k = con.modem.arrives (con.modem.asked + k)

next_byte-more : (con : Console) (k : ℕ) → next_byte (asked_more con 1) k ≡ next_byte con (suc k)
next_byte-more con k = ap con.modem.arrives (omega arith)

getchar_loop-byte :
    (rounds : ℕ) (con : Console)
    → con.selected_console ≡ console_modem
    → next_byte con 0 == 0 ≡ false
    → getchar_loop rounds con ≡ (next_byte con 0, asked_more con 1)
unfolding getchar_loop modem_char
getchar_loop-byte zero con sel byte =
    poll-modem con sel ∙ ap (λ q. (con.modem.arrives q, asked_more con 1)) (now con.modem.asked)
  where
    now : (n : ℕ) → n ≡ n + 0
    now n = omega arith
getchar_loop-byte (suc rounds) con sel byte =
    let at : con.modem.asked ≡ con.modem.asked + 0 = omega arith in
    let here : con.modem.arrives con.modem.asked == 0 ≡ false =
      ap (λ q. con.modem.arrives q == 0) at ∙ byte in
    rw (getchar_loop, poll-modem con sel, here)
      (ap (λ q. (con.modem.arrives q, asked_more con 1)) at)

getchar_loop-silent :
    (rounds : ℕ) (con : Console)
    → con.selected_console ≡ console_modem
    → next_byte con 0 ≡ 0
    → getchar_loop (suc rounds) con ≡ getchar_loop rounds (asked_more con 1)
unfolding getchar_loop modem_char
getchar_loop-silent rounds con sel none =
    let at : con.modem.asked ≡ con.modem.asked + 0 = omega arith in
    let here : con.modem.arrives con.modem.asked ≡ 0 = ap con.modem.arrives at ∙ none in
    rw (getchar_loop, poll-modem con sel, here) refl

getchar_loop-arrives :
    (rounds k : ℕ) (con : Console)
    → con.selected_console ≡ console_modem
    → k ≤ rounds
    → ((i : ℕ) → i < k → next_byte con i ≡ 0)
    → next_byte con k == 0 ≡ false
    → getchar_loop rounds con ≡ (next_byte con k, asked_more con (suc k))
getchar_loop-arrives rounds zero con sel le silent byte = getchar_loop-byte rounds con sel byte
getchar_loop-arrives zero (suc k) con sel le silent byte = absurd (omega arith)
getchar_loop-arrives (suc rounds) (suc k) con sel le silent byte =
    getchar_loop-silent rounds con sel (silent 0 (omega arith))
    ∙ getchar_loop-arrives rounds k (asked_more con 1) sel (omega arith)
        (λ i lt. next_byte-more con i ∙ silent (suc i) (omega arith))
        (ap (λ b. b == 0) (next_byte-more con k) ∙ byte)
    ∙ ap₂ (λ b c. (b, c)) (next_byte-more con k) (asked_more-add con (suc k))

getchar_loop-quiet :
    (rounds : ℕ) (con : Console)
    → con.selected_console ≡ console_modem
    → ((i : ℕ) → i ≤ rounds → next_byte con i ≡ 0)
    → getchar_loop rounds con ≡ (0, asked_more con (suc rounds))
unfolding getchar_loop modem_char
getchar_loop-quiet zero con sel silent =
    let at : con.modem.asked ≡ con.modem.asked + 0 = omega arith in
    poll-modem con sel
    ∙ ap (λ b. (b, asked_more con 1)) (ap con.modem.arrives at ∙ silent 0 (omega arith))
getchar_loop-quiet (suc rounds) con sel silent =
    getchar_loop-silent rounds con sel (silent 0 (omega arith))
    ∙ getchar_loop-quiet rounds (asked_more con 1) sel
        (λ i le. next_byte-more con i ∙ silent (suc i) (omega arith))
    ∙ ap (λ c. (0, c)) (asked_more-add con (suc rounds))

getchar_loop-ends :
    (rounds k : ℕ) (con : Console)
    → con.selected_console ≡ console_modem
    → k ≤ rounds
    → ((i : ℕ) → i < k → next_byte con i ≡ 0)
    → (next_byte con k ≢ 0) ⊎ (k ≡ rounds)
    → getchar_loop rounds con ≡ (next_byte con k, asked_more con (suc k))
getchar_loop-ends rounds k con sel le silent end = elim (Bool-cases (next_byte con k == 0)) [
  | inr byte ↦ getchar_loop-arrives rounds k con sel le silent byte
  | inl zero_byte ↦
      let nothing : next_byte con k ≡ 0 = equal_of_test _ 0 zero_byte in
      let last : k ≡ rounds = at_last nothing end in
      getchar_loop-quiet rounds con sel (λ i upto. up_to nothing last i upto)
      ∙ ap₂ (λ b m. (b, asked_more con (suc m))) (sym nothing) (sym last)
]
  where
    at_last : next_byte con k ≡ 0 → (next_byte con k ≢ 0) ⊎ (k ≡ rounds) → k ≡ rounds
    at_last nothing (inl some_byte) = absurd (some_byte nothing)
    at_last nothing (inr last) = last

    up_to : next_byte con k ≡ 0 → k ≡ rounds → (i : ℕ) → i ≤ rounds → next_byte con i ≡ 0
    up_to nothing last i upto = elim (Bool-cases (ltb i k)) [
      | inl below ↦ silent i (ltb-lt i k below)
      | inr above ↦ ap (next_byte con) (omega (arith, ltb-ge i k above, last, upto)) ∙ nothing
    ]

-- `console_getchar` on the modem port, while it waits, asks no further than for the first byte that
-- arrives and is not 0, and returns it; if none arrives within the time to wait, it asks as often as
-- that time is enough for, and returns the 0 that it got last.
pub console_getchar-arrives :
    (con : Console) (k : ℕ)
    → con.selected_console ≡ console_modem
    → con.wait_char ≡ true
    → k ≤ con.patience
    → ((i : ℕ) → i < k → next_byte con i ≡ 0)
    → (next_byte con k ≢ 0) ⊎ (k ≡ con.patience)
    → console_getchar con ≡ (next_byte con k, asked_more con (suc k))
unfolding console_getchar
console_getchar-arrives con k sel waits le silent end =
    ap (λ w. getchar_loop (if w then con.patience else 0) con) waits
    ∙ getchar_loop-ends con.patience k con sel le silent end
