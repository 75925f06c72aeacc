-- ===== src/Shell/Args/Numbers.antt =====
-- What the arguments of `run` are, described without their array.
use mathlib.Core.List.{append_assoc, append-nil}
use simbly.Prelude.{
  ℕ, zero, suc, lt→ltb, ge→ltb, ltb, take, undefined, signed_overflow, Outcome, Bool, true, ◌+◌,
  ◌-◌, ◌*◌, ◌^◌, ◌<◌, ◌≤◌, ◌≡◌, refl, sym, ap, ◌∙◌, inl, inr, not, List, [], ◌∷◌, ◌++◌, Bytes, ℤ,
  pos, length, length-append, is_digit, leb, if◌then◌else◌, done, ◌>>=◌, arith, Bool-cases,
}
use simbly.Scanner.Operand.{digits_value}
use simbly.Shell.Args.Growth.{max_args, Doubles-le, twelve-Doubles, Room, put_arg_lem}
use simbly.Shell.Args.{
  max_int_str_len, all_digits, Args, Parsed, arguments, not_a_number, number_too_long, word_value,
  read_args, no_args,
}

abbrev pub also : ℤ → Parsed → Parsed
also v (arguments vs) = arguments (v ∷ vs)
also v not_a_number = not_a_number
also v number_too_long = number_too_long

-- The values of all the words, or what is wrong with the first that has none.
abbrev pub values : List Bytes → Parsed
values [] = arguments []
values (w ∷ words) =
    if not (all_digits w)
    then not_a_number
    else if leb max_int_str_len (length w)
    then number_too_long
    else also (word_value w) (values words)

-- Every argument is a number of at most eight digits.
abbrev pub Small : List ℤ → Type 0
Small [] = Unit
Small (v ∷ vs) = ((k : ℕ) × (v ≡ pos k) × (k < 10 ^ 8)) × Small vs

abbrev pub InRange : Parsed → Type 0
InRange (arguments vs) = Small vs
InRange not_a_number = Unit
InRange number_too_long = Unit

-- `b` with `n` zeros behind it.
shifted : ℕ → ℕ → ℕ
shifted b zero = b
shifted b (suc n) = shifted (b * 10) n

le-shifted : (b n : ℕ) → b ≤ shifted b n
unfolding shifted
le-shifted b zero = omega arith
le-shifted b (suc n) = omega (arith, le-shifted (b * 10) n)

digits_value-shifted :
    (n : ℕ) (w : Bytes) (acc b : ℕ) → acc < b → length w ≤ n → digits_value acc w < shifted b n
unfolding digits_value shifted
digits_value-shifted n [] acc b h l = omega (arith, h, le-shifted b n)
digits_value-shifted zero (c ∷ w) acc b h l = absurd (omega (arith, l))
digits_value-shifted (suc n) (c ∷ w) acc b h l = elim (Bool-cases (is_digit c)) [
  | inl digit ↦
      rw digit
        (digits_value-shifted n w (acc * 10 + (c - 48)) (b * 10) (ground arith) (omega (arith, l)))
  | inr other ↦ rw other (omega (arith, h, le-shifted (b * 10) n))
]

also-InRange : (k : ℕ) (o : Parsed) → k < 10 ^ 8 → InRange o → InRange (also (pos k) o)
also-InRange k (arguments vs) h i = ((k, refl, h), i)
also-InRange k not_a_number h i = i
also-InRange k number_too_long h i = i

-- The words behind the arguments that have been read.
abbrev behind : List ℤ → Parsed → Parsed
behind vs (arguments us) = arguments (vs ++ us)
behind vs not_a_number = not_a_number
behind vs number_too_long = number_too_long

behind-also : (vs : List ℤ) (v : ℤ) (o : Parsed) → behind (vs ++ (v ∷ [])) o ≡ behind vs (also v o)
behind-also vs v (arguments us) = ap arguments (append_assoc vs (v ∷ []) us)
behind-also vs v not_a_number = refl
behind-also vs v number_too_long = refl

-- What reading ends with, where the words have the values `o`, and all of them fit or not.
abbrev pub read_result : Bool → Parsed → Outcome Parsed
read_result fit (arguments vs) = if fit then done (arguments vs) else undefined signed_overflow
read_result fit not_a_number = done not_a_number
read_result fit number_too_long = done number_too_long

ltb-suc : (a b : ℕ) → ltb (suc a) (suc b) ≡ ltb a b
ltb-suc a b = ground arith

-- The last argument that there is room for is read, and `len` overflows, or no word is left.
read_args-behind :
    (words : List Bytes) (a : Args) (left : ℕ)
    → Room a
    → length a.argv + left ≡ max_args
    → read_args words a
      ≡ read_result (ltb (length words) left) (behind a.argv (values (take left words)))
unfolding read_args
read_args-behind words a zero (lt, j, d) h =
    let top = Doubles-le j a.len d in absurd (omega (arith, lt, top, h))
read_args-behind [] a (suc left) r h =
    rw (lt→ltb 0 (suc left) (omega arith))
      (ap (λ vs. done (arguments vs)) (sym (append-nil a.argv)))
read_args-behind (w ∷ words) a (suc left) r h = elim (Bool-cases (all_digits w)) [
  | inr other ↦ rw other refl
  | inl digits ↦ elim (Bool-cases (leb max_int_str_len (length w))) [
    | inl long ↦ rw (digits, long) refl
    | inr short ↦
        let v = word_value w in
        elim (put_arg_lem v a left r h) [
          | inl (full, last) ↦
              rw (digits, short, last, ge→ltb (suc (length words)) 1 (omega arith))
                (ap (λ m. m >>= read_args words) full)
          | inr (a', put, argv, room) ↦
              rw (digits, short, ltb-suc (length words) left)
                (ap (λ m. m >>= read_args words) put
                  ∙ read_args-behind words a' left room
                      (omega (arith, h, ap length argv, length-append a.argv (v ∷ [])))
                  ∙ ap
                      (λ vs.
                        read_result (ltb (length words) left)
                          (behind vs (values (take left words))))
                      argv
                  ∙ ap (read_result (ltb (length words) left))
                      (behind-also a.argv v (values (take left words))))
        ]
  ]
]

values-InRange : (words : List Bytes) → InRange (values words)
unfolding shifted
values-InRange [] = tt
values-InRange (w ∷ words) = elim (Bool-cases (all_digits w)) [
  | inr other ↦ rw other tt
  | inl digits ↦ elim (Bool-cases (leb max_int_str_len (length w))) [
    | inl long ↦ rw (digits, long) tt
    | inr short ↦
        rw (digits, short)
          (also-InRange (digits_value 0 w) (values words)
            (digits_value-shifted 8 w 0 1 (omega arith) (ground (arith, short)))
            (values-InRange words))
  ]
]

behind_nothing : (o : Parsed) → behind [] o ≡ o
behind_nothing (arguments vs) = refl
behind_nothing not_a_number = refl
behind_nothing number_too_long = refl

take_all : (n : ℕ) (xs : List Bytes) → length xs < n → take n xs ≡ xs
take_all zero xs h = absurd (omega (arith, h))
take_all (suc n) [] h = refl
take_all (suc n) (x ∷ xs) h = ap (λ ys. x ∷ ys) (take_all n xs (omega (arith, h)))

read_result-done : (o : Parsed) → read_result true o ≡ done o
read_result-done (arguments vs) = refl
read_result-done not_a_number = refl
read_result-done number_too_long = refl

-- The arguments of `run` are the values of all its words, or the message is about the first word that
-- is no number of at most eight digits; each argument is below 10 ^ 8, and none is written outside of
-- the array. That is for fewer than 12 * 2 ^ 27 words: where the first 12 * 2 ^ 27 are all such
-- numbers, doubling `len` overflows an int.
pub read_args_lem :
    (words : List Bytes)
    → (read_args words no_args
        ≡ read_result (ltb (length words) max_args) (values (take max_args words)))
      × InRange (values (take max_args words))
read_args_lem words = (
  read_args-behind words no_args max_args (omega arith, 27, twelve-Doubles) refl
      ∙ ap (read_result (ltb (length words) max_args))
          (behind_nothing (values (take max_args words))),
  values-InRange (take max_args words),
)

-- Fewer words than that fit.
pub read_args_fits :
    (words : List Bytes) → length words < max_args → read_args words no_args ≡ done (values words)
read_args_fits words h =
    (read_args_lem words).0
    ∙ ap (λ b. read_result b (values (take max_args words))) (lt→ltb (length words) max_args h)
    ∙ read_result-done (values (take max_args words))
    ∙ ap (λ ws. done (values ws)) (take_all max_args words h)
