-- ===== src/Tests/Words.antt =====
-- The properties of the scanner at concrete inputs.
use simbly.Prelude.{
  ◌+◌, ◌<◌, ◌≡◌, refl, ◌⊎◌, inl, inr, true, not, none, some, [], ◌∷◌, ◌++◌, Bytes, codes, str_eq,
  pos, abs, fits_int, arith, done, fatal,
}
use simbly.Program.Init.{open_file, program_with_id}
use simbly.Program.{
  Program, Payload, Cell, Token, Instruction, instruction_line, operand, int_val, int_arr, string,
}
use simbly.Scanner.Chars.Word.{Reads, first_word, word_loop-Reads}
use simbly.Scanner.Chars.{word_loop}
use simbly.Scanner.Lines.Quoted.{read_string-quoted}
use simbly.Scanner.Lines.{read_string}
use simbly.Scanner.Magic.Header.{parse_magic-first_line}
use simbly.Scanner.Magic.{magic_bytes, parse_magic}
use simbly.Scanner.Operand.Bounds.{atoi_small}
use simbly.Scanner.Operand.Grammar.{name, digits, SpellsIndex, number, parse_index-spelled}
use simbly.Scanner.Operand.Refusal.{Settles, parse_varval_token-Settles}
use simbly.Scanner.Operand.Words.{Spells, parse_varval_token-Reads}
use simbly.Scanner.Operand.{
  atoi, index_found, parse_index, parse_varval_token, digits_value, scan_number,
}
use simbly.Scanner.Tokenize.Table.{mnemonic, lexer_init-mnemonics}
use simbly.Scanner.Tokenize.{lexer_init}
use simbly.Scanner.Tokens.Append.{Appends, Lacks, add_new_token-Appends}
use simbly.Scanner.Tokens.{add_new_token, new_token}
use simbly.Voids.Lists.{list_table, list_ring}

abbrev P : Type 0
P = Program (list_table Cell).Table (list_ring Token).Buffer

abbrev on_word : Bytes → P
on_word w =
    let p = program_with_id (list_table Cell) (list_ring Token) [] [] (pos 1) in
    record p { reader = record p.reader { input = w } }

add_new_token-Appends_example :
    Appends
      (list_ring Token)
      (on_word [])
      (string (codes "x"))
      (add_new_token (list_ring Token) (on_word []) (string (codes "x")))
    ⊎ ((add_new_token (list_ring Token) (on_word []) (string (codes "x")) ≡ fatal)
        × Lacks (list_ring Token) (on_word []) (string (codes "x")))
add_new_token-Appends_example =
    add_new_token-Appends (list_ring Token) (on_word []) (string (codes "x"))

-- There is memory.
memory : (payload : Payload) → Lacks (list_ring Token) (on_word (codes "$a[12]")) payload → ⊥
memory payload (inl e) = cc
memory payload (inr (full, e)) = cc

abbrev twelve : SpellsIndex (codes "12") (int_val (pos (digits_value 0 (codes "12")))) 0
twelve = number (digits b'1' (codes "2") refl (refl, tt) (omega arith))

parse_index-spelled_example :
    parse_index 2 (codes "12" ++ (b']' ∷ [])) 1 (open_file [])
    ≡ index_found (open_file []) (int_val (pos (digits_value 0 (codes "12")))) (1 + 0)
parse_index-spelled_example = parse_index-spelled 2 [] 1 (open_file []) twelve (omega arith)

parse_varval_token-Reads_example :
    (b : (list_ring Token).Buffer) × (parse_varval_token
        (list_ring Token)
        (on_word (codes "$a[12]"))
      ≡ done (record (on_word (codes "$a[12]")) { translated_line = b }, true))
    × (b.1
        ≡ new_token
            (list_ring Token)
            (on_word (codes "$a[12]"))
            (operand (int_arr (codes "a") (int_val (pos (digits_value 0 (codes "12"))))))
          ∷ [])
parse_varval_token-Reads_example =
    parse_varval_token-Reads (list_ring Token) (on_word (codes "$a[12]")) _
      (memory (operand (int_arr (codes "a") (int_val (pos (digits_value 0 (codes "12")))))))
      (Spells.element {w = codes "a"} {s = codes "12"} (name b'a' [] refl tt (omega arith)) twelve)

atoi_small_example :
    (abs (atoi (codes "-12")) < 1_000_000_000) × (fits_int (atoi (codes "-12")) ≡ true)
unfolding scan_number
atoi_small_example = atoi_small 0 b'-' (codes "12") (inl refl) (inl refl) refl

parse_varval_token-Settles_example :
    Settles
      (list_ring Token)
      (on_word (codes "$1"))
      (parse_varval_token (list_ring Token) (on_word (codes "$1")))
parse_varval_token-Settles_example =
    parse_varval_token-Settles (list_ring Token) (on_word (codes "$1"))

parse_magic-first_line_example :
    let r = parse_magic (open_file (codes "#PROGRAX" ++ (b'\n' ∷ codes "RETURN"))) in
    (r.state ≡ instruction_line)
    × (r.unread ≡ codes "RETURN")
    × (r.error_flag ≡ not (str_eq magic_bytes (codes "#PROGRAX")))
parse_magic-first_line_example = parse_magic-first_line (codes "#PROGRAX") (codes "RETURN") refl

word_loop-Reads_example :
    Reads 127
      (codes "S")
      (first_word (codes "ET $a 1"))
      (word_loop 127 (codes "ET $a 1") (open_file (codes "ET $a 1")) (codes "S"))
word_loop-Reads_example =
    word_loop-Reads 127 (codes "ET $a 1") (open_file (codes "ET $a 1")) (codes "S") (omega arith)

lexer_init-mnemonics_example :
    (t : (list_table Instruction).Table) × (lexer_init (list_table Instruction) ≡ done t)
    × ((c : Instruction) → (list_table Instruction).find t (mnemonic c) ≡ some c)
    × ((k : Bytes)
        → ((list_table Instruction).find t k ≡ none)
          ⊎ ((c : Instruction) × ((list_table Instruction).find t k ≡ some c) × (k ≡ mnemonic c)))
lexer_init-mnemonics_example = lexer_init-mnemonics (list_table Instruction)

abbrev a_program : P
a_program =
    program_with_id (list_table Cell) (list_ring Token) (codes "LX SET $a 1\nRETURN\n") [] (pos 1)

read_string-quoted_example :
    let (r, v, ok) = read_string (codes "hi" ++ (b'"' ∷ (32 ∷ codes "$a\n"))) (open_file []) [] in
    (v ≡ codes "hi") × (ok ≡ true) × (r.unread ≡ codes "$a\n") × (r.c ≡ some 32) × (r.messages ≡ [])
read_string-quoted_example =
    read_string-quoted (codes "hi") 32 (codes "$a\n") (open_file []) refl refl (omega arith)
