-- ===== src/Shell/Args.antt =====
-- The words of a line, and the integer arguments of `run` in main of src/main.c.
pub mod Growth
pub mod Numbers
use simbly.Prelude.{
  ℕ, ◌+◌, Bool, true, false, not, ◌&&◌, List, [], ◌∷◌, ◌++◌, Bytes, ℤ, pos, length, is_digit,
  int_bound, ltb, leb, ◌==◌, if◌then◌else◌, Outcome, done, undefined, ◌>>=◌, out_of_bounds,
  signed_overflow,
}
use simbly.Scanner.Operand.{digits_value}

abbrev word_before : Bytes → List Bytes → List Bytes
word_before [] words = words
word_before (c ∷ w) words = (c ∷ w) ∷ words

-- The words that strtok_r returns in turn for a line and the separator " ": `w` is what has been read
-- of a word.
abbrev pub words_from : Bytes → Bytes → List Bytes
words_from w [] = word_before w []
words_from w (c ∷ line) =
    let next = words_from [] line in
    let longer = words_from (w ++ c ∷ []) line in if c == 32 then word_before w next else longer

abbrev pub words : Bytes → List Bytes
words = words_from []

-- MAX_INT_STR_LEN
abbrev pub max_int_str_len : ℕ
max_int_str_len = 9

-- The loop over `isdigit`, which ends at the terminator or at another character.
abbrev pub all_digits : Bytes → Bool
all_digits [] = true
all_digits (c ∷ w) = is_digit c && all_digits w

-- `_argv` with what has been written to it, and `len`. `_argc` is their number.
pub record Args : Type 0 where
  pub argv : List ℤ
  pub len : ℕ

-- `_argv[_argc++] = …`, and the realloc behind it. `len` is an int.
abbrev pub grown : List ℤ → ℕ → Outcome Args
grown argv len =
    if leb len (length argv)
    then (if ltb (len + len) int_bound
        then done (record { argv = argv; len = len + len })
        else undefined signed_overflow)
    else done (record { argv = argv; len = len })

abbrev pub put_arg : ℤ → Args → Outcome Args
put_arg v a =
    if ltb (length a.argv) a.len then grown (a.argv ++ v ∷ []) a.len else undefined out_of_bounds

-- What the words have given: the arguments, or the message that has been written.
pub data Parsed : Type 0 where
  arguments : List ℤ → Parsed
  not_a_number number_too_long : Parsed

-- `strtol(word, NULL, 10)`, for digits.
abbrev pub word_value : Bytes → ℤ
word_value w = pos (digits_value 0 w)

unfoldable pub read_args : List Bytes → Args → Outcome Parsed
unfolding digits_value
read_args [] a = done (arguments a.argv)
read_args (w ∷ words) a =
    if not (all_digits w)
    then done not_a_number
    else if leb max_int_str_len (length w)
    then done number_too_long
    else (put_arg (word_value w) a >>= read_args words)

abbrev pub no_args : Args
no_args = record { argv = []; len = 12 }
