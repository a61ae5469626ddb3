-- ===== src/Mro50/Commands.antt =====
-- The control values that src/oscillators/mRo50_oscillator.c reads from a device that answers.
use oscillatord.Base.{
  ℕ, ◌+◌, ◌^◌, ◌≤◌, ◌<◌, ◌≡◌, refl, sym, ap, ◌∙◌, ◌≢◌, true, none, some, List, [], ◌∷◌, ◌++◌, arith,
  length, drop, length-append,
}
use oscillatord.Base.Text.{zeros, c_string, IsText, c_string-append}
use oscillatord.Structs.{OscillatorCtrl}
use oscillatord.Mro50.Hex.{print_hex, digit_value, scan_hex}
use oscillatord.Mro50.HexRoundTrip.{
  AllDigits, length-print_hex, print_hex-AllDigits, scan_hex-print_hex,
}
use oscillatord.Mro50.Serial.{
  mro_answer_len, Exchange, waits, gives, ◌>>◌, return, cleared, byte, cmd, Reopening, clean_serial,
}
use oscillatord.Mro50.Control.{read_number, get_ctrl}
use oscillatord.Mro50.Exchange.{
  drop-append, drop-zero, concat, answer, answering, cmd-answer, bind-gives,
}
use mathlib.Core.List.{append_assoc}

cleared-answer :
    (xs s : List ℕ) → cleared (length xs) (xs ++ drop (length xs) s) ≡ cleared (length xs) s
unfolding cleared
cleared-answer xs s =
    let z : length xs + 0 ≡ length xs = omega arith in
    ap (λ l. zeros (length xs) ++ l)
      (ap (λ n. drop n (xs ++ drop (length xs) s)) (sym z)
        ∙ drop-append xs (drop (length xs) s) 0
        ∙ drop-zero (drop (length xs) s))

digit-text : (c : ℕ) → digit_value c ≢ none → (c ≢ 0) × (c ≢ b'?')
unfolding digit_value
digit-text c h = ground (arith, h)

answer-IsText : (xs : List ℕ) → AllDigits xs → IsText (answer xs)
answer-IsText [] h = ((λ e. omega (arith, e)), ((λ e. omega (arith, e)), tt))
answer-IsText (c ∷ xs) h = ((digit-text c h.0).0, answer-IsText xs h.1)

answer-head : (xs t : List ℕ) → AllDigits xs → byte (answer xs ++ t) 0 ≢ b'?'
answer-head [] t h = λ e. omega (arith, e)
answer-head (c ∷ xs) t h = (digit-text c h.0).1

read_number-parsed :
    (e : Exchange) (r : Reopening) (s t : List ℕ) (n : ℕ)
    → cmd e s ≡ gives (some n) t
    → read_number e r s ≡ gives (scan_hex (c_string t)) (cleared n t)
unfolding read_number
read_number-parsed e r s t n h =
    ap
      (λ o. elim o [
        | waits ↦ waits
        | gives none t ↦ (do clean_serial r; return none) t
        | gives (some n) t ↦ gives (scan_hex (c_string t)) (cleared n t)
      ])
      h

-- A number in digits, in any pieces, is read, and its bytes in the buffer are zeros after it.
read_number-answer :
    (cs : List (List ℕ)) (r : Reopening) (xs s : List ℕ)
    → concat cs ≡ answer xs
    → length (answer xs) ≤ mro_answer_len
    → AllDigits xs
    → read_number (answering cs) r s
      ≡ gives
          (scan_hex (answer xs ++ c_string (drop (length (answer xs)) s)))
          (cleared (length (answer xs)) s)
read_number-answer cs r xs s e h d =
    let n = length (answer xs) in
    let rest = drop n s in
    read_number-parsed (answering cs) r s (answer xs ++ rest) n
      (cmd-answer cs xs s e h (answer-head xs rest d))
    ∙ ap (λ l. gives (scan_hex l) (cleared n (answer xs ++ rest)))
        (c_string-append (answer xs) rest (answer-IsText xs d))
    ∙ ap (gives (scan_hex (answer xs ++ c_string rest))) (cleared-answer (answer xs) s)

read_number-printed :
    (cs : List (List ℕ)) (r : Reopening) (w v : ℕ) (s : List ℕ)
    → w ≤ 8
    → v < 2 ^ 32
    → concat cs ≡ answer (print_hex w v)
    → read_number (answering cs) r s ≡ gives (some v) (cleared (length (answer (print_hex w v))) s)
unfolding digit_value
read_number-printed cs r w v s h k e =
    let a = answer (print_hex w v) in
    let l : length a ≡ length (print_hex w v) + 2 = length-append (print_hex w v) (10 ∷ 10 ∷ []) in
    let rest = c_string (drop (length a) s) in
    read_number-answer cs r (print_hex w v) s e (omega (arith, l, length-print_hex w v h))
      (print_hex-AllDigits w v)
    ∙ ap (λ n. gives n (cleared (length a) s))
        (ap scan_hex (append_assoc (print_hex w v) (10 ∷ 10 ∷ []) rest)
          ∙ scan_hex-print_hex w v (10 ∷ 10 ∷ rest) k
              (refl, (λ e. omega (arith, e)), (λ e. omega (arith, e))))

-- The two reads, one after the other.
get_ctrl-read :
    (coarse fine : Exchange) (r q : Reopening) (ctrl : OscillatorCtrl) (s t u : List ℕ) (c f : ℕ)
    → read_number coarse r s ≡ gives (some c) t
    → read_number fine q t ≡ gives (some f) u
    → get_ctrl coarse r fine q ctrl s
      ≡ gives (true, record ctrl { fine_ctrl = f; coarse_ctrl = c }) u
unfolding get_ctrl
get_ctrl-read coarse fine r q ctrl s t u c f h k =
    bind-gives (read_number coarse r) _ s t (some c) h
    ∙ bind-gives (read_number fine q) _ t u (some f) k

-- A device that answers the two reads with a coarse and a fine value of 32 bits in at most eight
-- digits each, as the driver prints them, and two line feeds, in any pieces, has them read, whatever
-- the buffer holds before: `get_ctrl` succeeds with these two values, and leaves zeros in the places of
-- the two answers.
pub get_ctrl-print_hex :
    (cs ds : List (List ℕ)) (r q : Reopening) (ctrl : OscillatorCtrl) (w x c f : ℕ) (s : List ℕ)
    → w ≤ 8
    → x ≤ 8
    → c < 2 ^ 32
    → f < 2 ^ 32
    → concat cs ≡ answer (print_hex w c)
    → concat ds ≡ answer (print_hex x f)
    → get_ctrl (answering cs) r (answering ds) q ctrl s
      ≡ gives
          (true, record ctrl { fine_ctrl = f; coarse_ctrl = c })
          (cleared (length (answer (print_hex x f))) (cleared (length (answer (print_hex w c))) s))
get_ctrl-print_hex cs ds r q ctrl w x c f s hw hx hc hf e d =
    let t = cleared (length (answer (print_hex w c))) s in
    let u = cleared (length (answer (print_hex x f))) t in
    get_ctrl-read (answering cs) (answering ds) r q ctrl s t u c f
      (read_number-printed cs r w c s hw hc e) (read_number-printed ds q x f t hx hf d)
