-- ===== src/Scanner/Operand.antt =====
-- Arguments of instructions: parse_varval_token of src/scanner.c. The word is a C string, so a read
-- past its end gives the terminator, 0; no read goes further, since 0 ends every loop.
pub mod Grammar
pub mod Refusal
pub mod Bounds
pub mod Words
pub mod Position
pub mod Keeps
pub mod Adds
use simbly.Prelude.{
  ℕ, zero, suc, ◌+◌, ◌-◌, ◌*◌, Bool, true, false, not, ◌||◌, [], ◌∷◌, Bytes, ℤ, pos, sub_ℕ, leb,
  ◌==◌, if◌then◌else◌, get_or, drop, length, is_alpha, is_alnum, is_digit, Outcome, done, ◌>>=◌,
}
use simbly.Program.{
  Reader, Program, Token, Operand, int_val, int_var, int_arr, unset, operand, stop_with, warn_msg,
  bad_variable_name, symbol_too_long, unclosed_bracket, bad_index_symbol, bad_number,
  number_too_long, unclosed_number, unrecognized_operand, Message,
}
use simbly.Scanner.Tokens.{add_new_token}
use simbly.Voids.{RingBuffer}

abbrev pub char_at : Bytes → ℕ → ℕ
char_at s i = get_or s i 0

-- MAX_ALLOWED_SYMBOL_LEN and MAX_INT_STR_LEN
abbrev pub max_allowed_symbol_len : ℕ
max_allowed_symbol_len = 127

abbrev pub max_int_str_len : ℕ
max_int_str_len = 9

-- Where the loop over a name ends: at the stop character, at `[`, or by a `break`.
pub data NameEnd : Type 0 where
  at_stop at_bracket bad_char too_long : NameEnd

-- The characters passed over, what follows them, and why the loop ended.
abbrev pub Scan : Type 0
Scan = Bytes × Bytes × NameEnd

abbrev keep : ℕ → Scan → Scan
keep b (w, rest, end) = (b ∷ w, rest, end)

-- `k` is `i - (start_idx + 2)`.
unfoldable pub scan_name : ℕ → ℕ → Bytes → Scan
scan_name stop k [] = if stop == 0 then ([], [], at_stop) else ([], [], bad_char)
scan_name stop k (b ∷ s) =
    let rest = scan_name stop (k + 1) s in
    if b == stop
    then ([], b ∷ s, at_stop)
    else if b == b'['
    then ([], b ∷ s, at_bracket)
    else if not (is_alnum b)
    then ([], b ∷ s, bad_char)
    else if leb max_allowed_symbol_len k
    then ([], b ∷ s, too_long)
    else keep b rest

-- `k` is `i - start_idx`.
unfoldable pub scan_number : ℕ → ℕ → Bytes → NameEnd
scan_number stop k [] = if stop == 0 then at_stop else bad_char
scan_number stop k (b ∷ s) =
    let rest = scan_number stop (k + 1) s in
    if b == stop
    then at_stop
    else if not (is_digit b)
    then bad_char
    else if leb max_int_str_len k
    then too_long
    else rest

unfoldable pub digits_value : ℕ → Bytes → ℕ
digits_value acc [] = acc
digits_value acc (b ∷ s) =
    let rest = digits_value (acc * 10 + (b - b'0')) s in if is_digit b then rest else acc

-- `atoi` at a digit or a minus sign.
unfoldable pub atoi : Bytes → ℤ
unfolding digits_value
atoi s = if char_at s 0 == b'-' then sub_ℕ 0 (digits_value 0 (drop 1 s)) else pos (digits_value 0 s)

-- The results of a call for an index: `success`, `*tok_data` and `*depth`.
pub record Index : Type 0 where
  pub reader : Reader
  pub success : Bool
  pub idx : Operand
  pub depth : ℕ

abbrev index_failed : Reader → ℕ → Index
index_failed r depth = record { reader = r; success = false; idx = unset; depth = depth }

abbrev pub index_found : Reader → Operand → ℕ → Index
index_found r idx depth = record { reader = r; success = true; idx = idx; depth = depth }

abbrev name_error : NameEnd → Message
name_error too_long = symbol_too_long
name_error _ = bad_variable_name

abbrev number_error : NameEnd → Message
number_error too_long = number_too_long
number_error _ = bad_number

-- An index that is a number, by how the loop over its digits ended.
abbrev index_number : Bytes → ℕ → Reader → NameEnd → Index
index_number s depth r at_stop = index_found r (int_val (atoi s)) depth
index_number s depth r end =
    index_failed (warn_msg unclosed_number (stop_with (number_error end) r)) depth

abbrev index_array : Bytes → Index → Index
index_array name i = record i { idx = int_arr name i.idx }

-- An index that is a variable or an element, given the call for the index behind a `[`.
abbrev index_name : (Bytes → Index) → ℕ → ℕ → Reader → Scan → Index
index_name nested first depth r (w, rest, at_stop) = index_found r (int_var (first ∷ w)) depth
index_name nested first depth r (w, rest, at_bracket) =
    index_array (first ∷ w) (nested (drop 1 rest))
index_name nested first depth r (w, rest, end) =
    index_failed (stop_with unclosed_bracket (stop_with (name_error end) r)) depth

-- The call with `is_array_idx` set, on the word from `start_idx`. Each nested call is on a shorter
-- rest of the word, so fuel for one call more than the word has characters is enough.
unfoldable pub parse_index : ℕ → Bytes → ℕ → Reader → Index
unfolding scan_name scan_number atoi
parse_index zero s depth r = index_failed r depth
parse_index (suc fuel) s depth r =
    if char_at s 0 == b'$'
    then (if is_alpha (char_at s 1)
        then index_name (λ rest. parse_index fuel rest (depth + 1) r) (char_at s 1) depth r
            (scan_name b']' 0 (drop 2 s))
        else index_failed (stop_with bad_variable_name r) depth)
    else if char_at s 0 == b'-' || is_digit (char_at s 0)
    then (if char_at s 0 == b'-'
        then index_failed (stop_with bad_index_symbol r) depth
        else index_number s depth r (scan_number b']' 1 (drop 1 s)))
    else index_failed (stop_with unrecognized_operand r) depth

-- The count of `]` up to the terminator.
unfoldable pub closing_brackets : Bytes → ℕ
closing_brackets [] = 0
closing_brackets (b ∷ s) =
    let rest = closing_brackets s in if b == 0 then 0 else (if b == b']' then 1 + rest else rest)

module _ {VarTable : Type 0} (ring : RingBuffer Token) where
  open ring use {Buffer}

  abbrev pub add_operand :
      Program VarTable Buffer → Operand → Bool → Outcome (Program VarTable Buffer × Bool)
  add_operand p o success = add_new_token ring p (operand o) >>= λ q. done (q, success)

  abbrev refuse : Program VarTable Buffer → Message → Outcome (Program VarTable Buffer × Bool)
  refuse p m = done (record p { reader = stop_with m p.reader }, false)

  abbrev word_number : Program VarTable Buffer → NameEnd → Outcome (Program VarTable Buffer × Bool)
  word_number p at_stop = add_operand p (int_val (atoi p.input)) true
  word_number p end = refuse p (number_error end)

  -- An element: the token is added, its index parsed and the brackets counted.
  abbrev word_array :
      Program VarTable Buffer → Bytes → Bytes → Index → Outcome (Program VarTable Buffer × Bool)
  word_array p name rest i = add_operand p (int_arr name i.idx) true >>= λ (q, _).
      if not i.success
      then done (record q { reader = i.reader }, false)
      else if closing_brackets rest == i.depth
      then done (record q { reader = i.reader }, true)
      else refuse (record q { reader = i.reader }) unclosed_bracket

  abbrev word_name : Program VarTable Buffer → ℕ → Scan → Outcome (Program VarTable Buffer × Bool)
  word_name p first (w, rest, at_stop) = add_operand p (int_var (first ∷ w)) true
  word_name p first (w, rest, at_bracket) =
      word_array p (first ∷ w) (drop 1 rest)
        (parse_index (suc (length rest)) (drop 1 rest) 1 p.reader)
  word_name p first (w, rest, end) = refuse p (name_error end)

  -- `parse_varval_token(prog, 0, NULL, NULL, 0, NULL)`, the call on a whole word.
  unfoldable pub parse_varval_token :
      Program VarTable Buffer → Outcome (Program VarTable Buffer × Bool)
  unfolding parse_index scan_name scan_number atoi closing_brackets add_new_token
  parse_varval_token p =
      if char_at p.input 0 == b'$'
      then (if is_alpha (char_at p.input 1)
          then word_name p (char_at p.input 1) (scan_name 0 0 (drop 2 p.input))
          else refuse p bad_variable_name)
      else if char_at p.input 0 == b'-' || is_digit (char_at p.input 0)
      then word_number p (scan_number 0 1 (drop 1 p.input))
      else refuse p unrecognized_operand
