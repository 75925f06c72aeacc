-- ===== src/Exec/Branch/Jump.antt =====
-- Jumps of src/exec.c to a label that tokenize_next_line has passed.
use simbly.Prelude.{
  ℕ, ◌≡◌, ◌∙◌, sym, ap, drop, none, some, Bytes, done, [], ◌∷◌, ◌++◌, done_inj, inl, inr,
  Bool-cases, ltb, arith,
}
use mathlib.Core.Option.{some-injective}
use simbly.Exec.Branch.{jump}
use simbly.Exec.Machine.{label_data_size, label_of, next_token, insert_label_to_vartable}
use simbly.Program.{
  Program, Reader, Token, Cell, Payload, LabelData, Instruction, label, label_data,
}
use simbly.Scanner.Tokenize.Position.{IsReader}
use simbly.Scanner.Tokens.{add_new_token, new_token}
use simbly.Scanner.Tokens.Append.{Appends, add_new_token-Appends}
use simbly.Voids.{HashTable, RingBuffer}

module _ (max_alloc : ℕ) (instructions : HashTable Instruction) (vars : HashTable Cell)
    (ring : RingBuffer Token) (table : instructions.Table) where
  open vars use {Table, find, insert, insert_new, find-insert_self}
  open ring use {Buffer, items, read_next}

  returned :
      (p a : Program Table Buffer) (payload : Payload)
      → add_new_token ring p payload ≡ done a
      → Appends ring p payload (add_new_token ring p payload)
  returned p a payload added = elim (add_new_token-Appends ring p payload) [
    | inl appends ↦ appends
    | inr (e, lacks) ↦ cc
  ]

  -- The first token of a line is read again as it was made.
  first_token :
      (p a : Program Table Buffer) (payload : Payload)
      → items p.translated_line ≡ []
      → add_new_token ring p payload ≡ done a
      → (next_token max_alloc vars ring a).0 ≡ some (new_token ring p payload)
  unfolding next_token
  first_token p a payload none_yet added =
      let (b, e, back) = returned p a payload added in
      let same : a.translated_line ≡ b = ap (λ u. u.translated_line) (done_inj (sym added ∙ e)) in
      (read_next a.translated_line (new_token ring p payload) []
        (ap items same ∙ back ∙ ap (λ xs. xs ++ new_token ring p payload ∷ []) none_yet)).0

  -- A label that is new goes into the table with the position of its token.
  recorded :
      (r r' : Program Table Buffer) (tok : Token) (name : Bytes) (offset : ℕ) (l : LabelData)
      → find r.vartable name ≡ none
      → insert_label_to_vartable max_alloc vars ring r tok name offset ≡ done (r', some l)
      → find r'.vartable name ≡ some (label_data (label_of max_alloc vars ring tok offset))
  unfolding insert_label_to_vartable
  recorded r r' tok name offset l unknown records =
      let d = label_data (label_of max_alloc vars ring tok offset) in
      elim (Bool-cases (ltb max_alloc label_data_size)) [
        | inl fails ↦ absurd (ground (arith, fails, records))
        | inr room ↦ ground (
          arith,
          room,
          records,
          insert_new r.vartable name d unknown,
          find-insert_self r.vartable name d unknown,
        )
      ]

  -- The reader that a jump to a label leaves: all as it was at `q`, but for the place in the file,
  -- which is the place where the scanner stood when it had read the label, at `p`, and the character
  -- read last, which is a space.
  abbrev pub back_at : Reader → Reader → Reader
  back_at p q = record q {
    c = some 32;
    unread = p.unread;
    offset = p.offset;
    line = p.line;
    column = p.column;
    prev_col = p.prev_col;
  }

  -- A jump leads back to where its label was scanned. `p` is the program when the scanner has read a
  -- label into an empty line, `a` when the label's token is added, `r` when exec_instruction_line
  -- records the token that it has read from that line, under a name that the table does not have, and
  -- `q` any later program, of the same text, whose table still has for the name what was recorded. A
  -- branch at `q` to the name returns `q`, changed only in that the unread bytes, the offset, the line
  -- and the columns are those of `p` and the character read last is a space.
  pub jump-back :
      (p a r r' q : Program Table Buffer) (tok goto : Token) (name : Bytes) (l : LabelData) (k : ℕ)
      → IsReader p.reader
      → items p.translated_line ≡ []
      → add_new_token ring p (label name p.offset) ≡ done a
      → (next_token max_alloc vars ring a).0 ≡ some tok
      → find r.vartable name ≡ none
      → insert_label_to_vartable max_alloc vars ring r tok name p.offset ≡ done (r', some l)
      → q.text ≡ p.text
      → find q.vartable name ≡ find r'.vartable name
      → goto.payload ≡ label name k
      → jump max_alloc instructions vars ring table q goto
        ≡ done (record q { reader = back_at p.reader q.reader })
  unfolding jump
  jump-back p a r r' q tok goto name l k whole none_yet added reads unknown records text kept to =
      let made : tok ≡ new_token ring p (label name p.offset) =
        some-injective _ _ (sym reads ∙ first_token p a (label name p.offset) none_yet added) in
      let found = recorded r r' tok name p.offset l unknown records in
      let label_found : find q.vartable name
          ≡ some (
              label_data
                (label_of max_alloc vars ring (new_token ring p (label name p.offset)) p.offset)) =
        kept ∙ found ∙ ap (λ u. some (label_data (label_of max_alloc vars ring u p.offset))) made in
      let bytes : drop p.offset q.text ≡ p.unread = ap (drop p.offset) text ∙ sym whole in
      rw (to, label_found)
        (ap
          (λ u. done (record q {
            reader = record q.reader {
              c = some 32;
              unread = u;
              offset = p.offset;
              line = p.line;
              column = p.column;
              prev_col = p.prev_col;
            };
          }))
          bytes)
