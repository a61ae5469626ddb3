-- ===== src/Mro50/Exchange.antt =====
-- What an exchange of src/oscillators/mRo50_oscillator.c achieves with a device that answers.
use oscillatord.Base.{
  ℕ, zero, suc, ◌+◌, ◌-◌, ◌≤◌, ◌≡◌, refl, sym, ap, ◌∙◌, ◌≢◌, true, some, List, [], ◌∷◌, ◌++◌, map,
  arith, length, take, drop, length-append, take-drop,
}
use oscillatord.Mro50.Serial.{
  mro_answer_len, Poll, timed_out, arrived, Exchange, waits, gives, Serial, ◌>>=◌, overwrite,
  receive, byte, accept, cmd,
}
use mathlib.Core.List.{append_assoc, append-nil}

pub take-all : (xs : List ℕ) (n : ℕ) → length xs ≤ n → take n xs ≡ xs
take-all [] zero h = refl
take-all [] (suc n) h = refl
take-all (x ∷ xs) zero h = ground arith
take-all (x ∷ xs) (suc n) h = ap (λ l. x ∷ l) (take-all xs n (omega (arith, h)))

pub take-append : (xs ys : List ℕ) → take (length xs) (xs ++ ys) ≡ xs
take-append [] ys = refl
take-append (x ∷ xs) ys = ap (λ l. x ∷ l) (take-append xs ys)

pub drop-append : (xs ys : List ℕ) (n : ℕ) → drop (length xs + n) (xs ++ ys) ≡ drop n ys
drop-append [] ys n = let e : 0 + n ≡ n = omega arith in rw e refl
drop-append (x ∷ xs) ys n =
    let e : suc (length xs) + n ≡ suc (length xs + n) = omega arith in rw e (drop-append xs ys n)

pub drop-zero : (xs : List ℕ) → drop 0 xs ≡ xs
drop-zero [] = refl
drop-zero (x ∷ xs) = refl

drop-drop : (m n : ℕ) (xs : List ℕ) → drop n (drop m xs) ≡ drop (m + n) xs
drop-drop zero n xs =
    ap (drop n) (drop-zero xs) ∙ (let e : n ≡ 0 + n = omega arith in ap (λ k. drop k xs) e)
drop-drop (suc m) zero [] = let e : suc m + 0 ≡ suc (m + 0) = omega arith in rw e refl
drop-drop (suc m) (suc n) [] = let e : suc m + suc n ≡ suc (m + suc n) = omega arith in rw e refl
drop-drop (suc m) n (x ∷ xs) =
    let e : suc m + n ≡ suc (m + n) = omega arith in rw e (drop-drop m n xs)

-- A piece written behind the text so far.
pub overwrite-text :
    (xs c r : List ℕ) → overwrite (xs ++ r) (length xs) c ≡ (xs ++ c) ++ drop (length c) r
unfolding overwrite
overwrite-text xs c r =
    ap (λ l. l ++ c ++ drop (length xs + length c) (xs ++ r)) (take-append xs r)
    ∙ ap (λ l. xs ++ c ++ l) (drop-append xs r (length c))

-- The rounds in which an answer arrives in pieces, and the time runs out after it.
abbrev pub arrivals : List (List ℕ) → List Poll → List Poll
arrivals [] ps = timed_out ∷ ps
arrivals (c ∷ cs) ps = arrived c ∷ arrivals cs ps

abbrev pub concat : List (List ℕ) → List ℕ
concat [] = []
concat (c ∷ cs) = c ++ concat cs

-- Bytes that fit are all taken.
receive-arrived :
    (bs : List ℕ) (ps : List Poll) (n : ℕ) (s : List ℕ)
    → length bs ≤ mro_answer_len - n
    → receive (arrived bs ∷ ps) n s ≡ receive ps (n + length bs) (overwrite s n bs)
unfolding receive
receive-arrived bs ps n s h =
    ap (λ g. receive ps (n + length g) (overwrite s n g)) (take-all bs (mro_answer_len - n) h)

receive-taken :
    (bs : List ℕ) (ps : List Poll) (s : List ℕ)
    → receive (arrived bs ∷ ps) mro_answer_len s ≡ receive ps mro_answer_len s
unfolding receive overwrite
receive-taken bs ps s = ap (receive ps mro_answer_len) (
    ap (λ l. l ++ drop mro_answer_len s) (append-nil (take mro_answer_len s))
    ∙ take-drop mro_answer_len s)

receive-arrivals :
    (cs : List (List ℕ)) (xs r : List ℕ) (ps : List Poll)
    → length xs + length (concat cs) ≤ mro_answer_len
    → receive (arrivals cs ps) (length xs) (xs ++ r)
      ≡ gives (some (length (xs ++ concat cs))) ((xs ++ concat cs) ++ drop (length (concat cs)) r)
unfolding receive
receive-arrivals [] xs r ps h =
    ap (gives (some (length xs))) (ap (λ l. xs ++ l) (sym (drop-zero r)))
    ∙ ap (λ l. gives (some (length l)) (l ++ drop 0 r)) (sym (append-nil xs))
receive-arrivals (c ∷ cs) xs r ps h =
    let both : length (c ++ concat cs) ≡ length c + length (concat cs) =
      length-append c (concat cs) in
    let fits : length xs + length c ≤ mro_answer_len = omega (arith, h, both) in
    let sum : length (xs ++ c) ≡ length xs + length c = length-append xs c in
    receive-arrived c (arrivals cs ps) (length xs) (xs ++ r) (omega (arith, fits))
    ∙ ap (receive (arrivals cs ps) (length xs + length c)) (overwrite-text xs c r)
    ∙ ap (λ n. receive (arrivals cs ps) n ((xs ++ c) ++ drop (length c) r)) (sym sum)
    ∙ receive-arrivals cs (xs ++ c) (drop (length c) r) ps (omega (arith, h, both, sum))
    ∙ ap (λ l. gives (some (length l)) (l ++ drop (length (concat cs)) (drop (length c) r)))
        (append_assoc xs c (concat cs))
    ∙ ap (λ l. gives (some (length (xs ++ (c ++ concat cs)))) ((xs ++ (c ++ concat cs)) ++ l))
        (drop-drop (length c) (length (concat cs)) r ∙ ap (λ n. drop n r) (sym both))

-- Once 128 bytes have been read, bytes that arrive are not taken any more, however many rounds they
-- come in: each round leaves the number of bytes and the buffer as they are, so that the loop goes on
-- with `poll` finding the same bytes again.
pub receive-full :
    (css : List (List ℕ)) (ps : List Poll) (s : List ℕ)
    → receive (map arrived css ++ ps) mro_answer_len s ≡ receive ps mro_answer_len s
receive-full [] ps s = refl
receive-full (c ∷ css) ps s = receive-taken c (map arrived css ++ ps) s ∙ receive-full css ps s

-- The last bytes of an answer.
byte-append : (xs ys : List ℕ) (n : ℕ) → byte (xs ++ ys) (length xs + n) ≡ byte ys n
byte-append [] ys n = let e : 0 + n ≡ n = omega arith in rw e refl
byte-append (x ∷ xs) ys n =
    let e : suc (length xs) + n ≡ suc (length xs + n) = omega arith in rw e (byte-append xs ys n)

-- A whole answer: not refused, and with two line feeds at its end.
abbrev pub answer : List ℕ → List ℕ
answer xs = xs ++ 10 ∷ 10 ∷ []

accept-ended :
    (n : ℕ) (s : List ℕ)
    → 2 ≤ n
    → byte s 0 ≢ b'?'
    → byte s (n - 1) ≡ 10
    → byte s (n - 2) ≡ 10
    → accept n s ≡ gives (some n) s
unfolding accept
accept-ended n s h f a b = ground arith

accept-answer :
    (xs t : List ℕ)
    → byte (answer xs ++ t) 0 ≢ b'?'
    → accept (length (answer xs)) (answer xs ++ t)
      ≡ gives (some (length (answer xs))) (answer xs ++ t)
accept-answer xs t h =
    let n : length (answer xs) ≡ length xs + 2 = length-append xs (10 ∷ 10 ∷ []) in
    let e : answer xs ++ t ≡ xs ++ 10 ∷ 10 ∷ t = append_assoc xs (10 ∷ 10 ∷ []) t in
    let last : length (answer xs) - 1 ≡ length xs + 1 = omega (arith, n) in
    let first : length (answer xs) - 2 ≡ length xs + 0 = omega (arith, n) in
    accept-ended (length (answer xs)) (answer xs ++ t) (omega (arith, n)) h
      (ap (byte (answer xs ++ t)) last
        ∙ ap (λ l. byte l (length xs + 1)) e
        ∙ byte-append xs (10 ∷ 10 ∷ t) 1)
      (ap (byte (answer xs ++ t)) first
        ∙ ap (λ l. byte l (length xs + 0)) e
        ∙ byte-append xs (10 ∷ 10 ∷ t) 0)

-- A device that answers in these pieces, and then is quiet.
abbrev pub answering : List (List ℕ) → Exchange
answering cs = record { is_written = true; polls = arrivals cs [] }

cmd-accept :
    (e : Exchange) (s t : List ℕ) (n : ℕ)
    → e.is_written ≡ true
    → receive e.polls 0 s ≡ gives (some n) t
    → cmd e s ≡ accept n t
unfolding cmd
cmd-accept e s t n w r = rw (w, r) refl

-- An answer of up to 128 bytes is taken whole, whatever the pieces it arrives in and whatever the
-- buffer holds.
pub cmd-answer :
    (cs : List (List ℕ)) (xs s : List ℕ)
    → concat cs ≡ answer xs
    → length (answer xs) ≤ mro_answer_len
    → byte (answer xs ++ drop (length (answer xs)) s) 0 ≢ b'?'
    → cmd (answering cs) s
      ≡ gives (some (length (answer xs))) (answer xs ++ drop (length (answer xs)) s)
cmd-answer cs xs s e h q =
    let l : length (concat cs) ≡ length (answer xs) = ap length e in
    cmd-accept (answering cs) s (answer xs ++ drop (length (answer xs)) s) (length (answer xs)) refl
      (receive-arrivals cs [] s [] (omega (arith, h, l))
        ∙ ap (λ l. gives (some (length l)) (l ++ drop (length l) s)) e)
    ∙ accept-answer xs (drop (length (answer xs)) s) q

-- A function of the serial line, and what follows it.
pub bind-gives :
    {A B : Type 0} (m : Serial A) (f : A → Serial B) (s t : List ℕ) (a : A)
    → m s ≡ gives a t
    → (m >>= f) s ≡ f a t
bind-gives m f s t a h = ap (λ o. elim o [ waits ↦ waits | gives a t ↦ f a t ]) h
