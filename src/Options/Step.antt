-- ===== src/Options/Step.antt =====
-- The loop over the options, one option at a time.
use redundant_mptcp_r_mptcp.Prelude.{
  ℕ, zero, suc, ◌+◌, ◌-◌, ◌≤◌, ◌<◌, ◌≡◌, refl, ◌∙◌, ap, sym, Bool, true, false, ◌||◌, Bool-cases,
  inl, inr, List, [], ◌∷◌, ◌++◌, ltb, ◌==◌, length, length-append, replicate, arith, if◌then◌else◌,
}
use mathlib.Core.List.{append_assoc}
use mathlib.Core.Path.{ap₂}
use redundant_mptcp_r_mptcp.Options.Wire.{byte, skip, skip-append}
use redundant_mptcp_r_mptcp.Options.Header.{Parsed, tcpopt_eol, tcpopt_nop, tcpopt_mptcp}
use redundant_mptcp_r_mptcp.Options.Parse.{ParseEnv, mptcp_parse_options, parse_loop}
use redundant_mptcp_r_mptcp.Options.Write.{when}

-- The rest of a round, as a function of what the rounds after it give.
abbrev round_end :
    ParseEnv → (len off : ℕ) → List ℕ → Parsed → (ℕ → ℕ → List ℕ → Parsed → Parsed) → Parsed
round_end env len off bs p next =
    let opcode = byte bs 0 in
    let opsize = byte bs 1 in
    let p' = if opcode == tcpopt_mptcp then mptcp_parse_options env off bs opsize p else p in
    if (len == 0) || (opcode == tcpopt_eol)
    then p
    else if opcode == tcpopt_nop
    then next (len - 1) (off + 1) (skip 1 bs) p
    else if ltb opsize 2 || ltb len opsize
    then p
    else next (len - opsize) (off + opsize) (skip opsize bs) p'

round-step :
    (env : ParseEnv) (fuel len off : ℕ) (bs : List ℕ) (p : Parsed)
    → parse_loop env (suc fuel) len off bs p ≡ round_end env len off bs p (parse_loop env fuel)
unfolding parse_loop
round-step env fuel len off bs p = refl

-- A round looks at later rounds only with fewer bytes left.
round_end-cong :
    (env : ParseEnv) (len off : ℕ) (bs : List ℕ) (p : Parsed)
    (f g : ℕ → ℕ → List ℕ → Parsed → Parsed)
    → ((len' off' : ℕ) (bs' : List ℕ) (p' : Parsed)
        → len' < len
        → f len' off' bs' p' ≡ g len' off' bs' p')
    → round_end env len off bs p f ≡ round_end env len off bs p g
round_end-cong env len off bs p f g h =
    elim (Bool-cases ((len == 0) || (byte bs 0 == tcpopt_eol))) [
      | inl stop ↦ rw stop refl
      | inr go ↦
          let some_left : 1 ≤ len = ground (arith, go) in
          elim (Bool-cases (byte bs 0 == tcpopt_nop)) [
            | inl nop ↦ rw (go, nop) (h (len - 1) (off + 1) (skip 1 bs) p (omega arith))
            | inr other ↦ elim (Bool-cases (ltb (byte bs 1) 2 || ltb len (byte bs 1))) [
              | inl silly ↦ rw (go, other, silly) refl
              | inr whole ↦
                  let less : len - byte bs 1 < len = ground (arith, whole, some_left) in
                  rw (go, other, whole) (h _ _ _ _ less)
            ]
          ]
    ]

-- More rounds than bytes change nothing.
parse_loop_enough :
    (env : ParseEnv) (f g len off : ℕ) (bs : List ℕ) (p : Parsed)
    → len ≤ f
    → len ≤ g
    → parse_loop env f len off bs p ≡ parse_loop env g len off bs p
parse_loop_enough env zero zero len off bs p h k = refl
parse_loop_enough env zero (suc g) len off bs p h k =
    let none_left : len ≡ 0 = omega arith in unfold parse_loop in rw (none_left, parse_loop) refl
parse_loop_enough env (suc f) zero len off bs p h k =
    let none_left : len ≡ 0 = omega arith in unfold parse_loop in rw (none_left, parse_loop) refl
parse_loop_enough env (suc f) (suc g) len off bs p h k =
    round-step env f len off bs p
    ∙ round_end-cong env len off bs p (parse_loop env f) (parse_loop env g)
        (λ len' off' bs' p' less.
          parse_loop_enough env f g len' off' bs' p' (omega arith) (omega arith))
    ∙ sym (round-step env g len off bs p)

-- The loop with as many rounds as there are bytes.
abbrev pub parse : ParseEnv → (len off : ℕ) → List ℕ → Parsed → Parsed
parse env len off bs p = parse_loop env len len off bs p

parse_nop :
    (env : ParseEnv) (len off : ℕ) (tail : List ℕ) (p : Parsed)
    → parse env (suc len) off (tcpopt_nop ∷ tail) p ≡ parse env len (off + 1) tail p
parse_nop env len off tail p =
    let less : suc len - 1 ≡ len = omega arith in
    let some_left : (suc len == 0) ≡ false = ground arith in
    round-step env len (suc len) off (tcpopt_nop ∷ tail) p
    ∙ rw some_left (ap (λ n. parse_loop env len n (off + 1) tail p) less)

parse_option :
    (env : ParseEnv) (n len off : ℕ) (rest tail : List ℕ) (p : Parsed)
    → length rest ≡ n
    → let o = tcpopt_mptcp ∷ suc (suc n) ∷ rest in
      parse env (suc (suc n) + len) off (o ++ tail) p
      ≡ parse env len
          (off + suc (suc n))
          tail
          (mptcp_parse_options env off (o ++ tail) (suc (suc n)) p)
parse_option env n len off rest tail p h =
    let size = suc (suc n) in
    let k = suc n + len in
    let bs = tcpopt_mptcp ∷ size ∷ (rest ++ tail) in
    let p' = mptcp_parse_options env off bs size p in
    let total : size + len ≡ suc k = omega arith in
    let some_left : (suc k == 0) ≡ false = ground arith in
    let whole : (ltb size 2 || ltb (suc k) size) ≡ false = ground arith in
    let left : suc k - size ≡ len = omega arith in
    let behind : skip n (rest ++ tail) ≡ tail =
      ap (λ m. skip m (rest ++ tail)) (sym h) ∙ skip-append rest tail in
    ap (λ m. parse env m off bs p) total
    ∙ round-step env k (suc k) off bs p
    ∙ rw (some_left, whole) (ap₂ (λ m cs. parse_loop env k m (off + size) cs p') left behind)
    ∙ parse_loop_enough env k len len (off + size) tail p' (omega arith) (omega arith)

-- The loop reads a part off the front of what is left, which changes the result so.
abbrev pub Reads : ParseEnv → List ℕ → (ℕ → Parsed → Parsed) → Type 0
Reads env bs f =
    (len off : ℕ) (tail : List ℕ) (p : Parsed)
    → parse env (length bs + len) off (bs ++ tail) p
      ≡ parse env len (off + length bs) tail (f off p)

pub Reads-append :
    (env : ParseEnv) (xs ys : List ℕ) (f g : ℕ → Parsed → Parsed)
    → Reads env xs f
    → Reads env ys g
    → Reads env (xs ++ ys) (λ off p. g (off + length xs) (f off p))
Reads-append env xs ys f g h k len off tail p =
    let size = length-append xs ys in
    let there : length (xs ++ ys) + len ≡ length xs + (length ys + len) = omega (arith, size) in
    let at : off + length xs + length ys ≡ off + length (xs ++ ys) = omega (arith, size) in
    let p' = g (off + length xs) (f off p) in
    ap₂ (λ n cs. parse env n off cs p) there (append_assoc xs ys tail)
    ∙ h (length ys + len) off (ys ++ tail) p
    ∙ k len (off + length xs) tail (f off p)
    ∙ ap (λ n. parse env len n tail p') at

pub Reads-nil : (env : ParseEnv) → Reads env [] (λ off p. p)
Reads-nil env len off tail p =
    let there : 0 + len ≡ len = omega arith in
    let at : off ≡ off + 0 = omega arith in
    ap (λ n. parse env n off tail p) there ∙ ap (λ n. parse env len n tail p) at

-- A part with a flag, and what follows it.
pub Reads-when :
    (env : ParseEnv) (b : Bool) (xs ys : List ℕ) (f g : ℕ → Parsed → Parsed)
    → Reads env xs f
    → Reads env ys g
    → Reads env (when b xs ++ ys) (λ off p. g (off + length (when b xs)) (if b then f off p else p))
Reads-when env true xs ys f g h k = Reads-append env xs ys f g h k
Reads-when env false xs ys f g h k = Reads-append env [] ys (λ off p. p) g (Reads-nil env) k

-- A part that says nothing to the parser.
pub Reads-when_mute :
    (env : ParseEnv) (b : Bool) (xs ys : List ℕ) (g : ℕ → Parsed → Parsed)
    → Reads env xs (λ off p. p)
    → Reads env ys g
    → Reads env (when b xs ++ ys) (λ off p. g (off + length (when b xs)) p)
Reads-when_mute env true xs ys g h k = Reads-append env xs ys (λ off p. p) g h k
Reads-when_mute env false xs ys g h k = Reads-append env [] ys (λ off p. p) g (Reads-nil env) k

pub Reads-last :
    (env : ParseEnv) (b : Bool) (bs : List ℕ) (f : ℕ → Parsed → Parsed)
    → Reads env bs f
    → Reads env (when b bs) (λ off p. if b then f off p else p)
Reads-last env true bs f h = h
Reads-last env false bs f h = Reads-nil env

-- Padding.
pub Reads-nops : (env : ParseEnv) (n : ℕ) → Reads env (replicate n tcpopt_nop) (λ off p. p)
Reads-nops env zero len off tail p = Reads-nil env len off tail p
Reads-nops env (suc n) len off tail p =
    let r = replicate n tcpopt_nop in
    let there : suc (length r) + len ≡ suc (length r + len) = omega arith in
    let at : off + 1 + length r ≡ off + suc (length r) = omega arith in
    ap (λ m. parse env m off (tcpopt_nop ∷ (r ++ tail)) p) there
    ∙ parse_nop env (length r + len) off (r ++ tail) p
    ∙ Reads-nops env n len (off + 1) tail p
    ∙ ap (λ m. parse env len m tail p) at

-- One option.
pub Reads-option :
    (env : ParseEnv) (n : ℕ) (rest : List ℕ) (f : ℕ → Parsed → Parsed)
    → length rest ≡ n
    → let o = tcpopt_mptcp ∷ suc (suc n) ∷ rest in
      ((off : ℕ) (tail : List ℕ) (p : Parsed)
        → mptcp_parse_options env off (o ++ tail) (suc (suc n)) p ≡ f off p)
      → Reads env o f
Reads-option env n rest f h same len off tail p =
    let o = tcpopt_mptcp ∷ suc (suc n) ∷ rest in
    let size : length o ≡ suc (suc n) = omega (arith, h) in
    ap (λ m. parse env (m + len) off (o ++ tail) p) size
    ∙ parse_option env n len off rest tail p h
    ∙ ap₂ (λ m q. parse env len (off + m) tail q) (sym size) (same off tail p)
