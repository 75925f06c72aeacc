-- ===== src/Exec/Branch/Fuel.antt =====
-- The search of a branch for its label (src/exec.c) has enough fuel.
use simbly.Exec.Branch.{is_finished, search_on, passed_line, search_label}
use simbly.Exec.Machine.{next_token, read_or, read_unchecked, drain_all}
use simbly.Exec.Machine.Drain.{drain_all-empties}
use simbly.Prelude.{
  ℕ, zero, suc, ◌+◌, ◌≤◌, ◌<◌, ◌≡◌, refl, ap, ◌∙◌, inl, inr, Bool-cases, Option, none, some, [],
  ◌∷◌, arith, Bytes, str_eq, length, Outcome, done, undefined, null_dereference, Always-map,
  same_bind,
}
use simbly.Program.{Program, Token, Payload, label, instruction, operand, string, Cell, Instruction}
use simbly.Scanner.Chars.Progress.{words_left, words_left-le}
use simbly.Scanner.Tokenize.Progress.{
  LessOrSame, tokenize_next_line-AtMost, tokenize_next_line-LessOrSame,
}
use simbly.Scanner.Tokenize.Table.{lexer_init-eof}
use simbly.Scanner.Tokenize.{lexer_init, tokenize_next_line}
use simbly.Voids.{HashTable, RingBuffer}

module _ (max_alloc : ℕ) (instructions : HashTable Instruction) (vars : HashTable Cell)
    (ring : RingBuffer Token) (table : instructions.Table) where
  open instructions use {find}
  open ring use {Buffer, items, read, read_empty}

  abbrev P : Type 0
  P = Program vars.Table Buffer

  abbrev Loop : Type 0
  Loop = P → Outcome P

  left : P → ℕ
  left p = words_left p.c p.unread

  search_agree :
      (f g : Loop) (tok : Token) (q : P)
      → f q ≡ g q
      → search_on max_alloc instructions vars ring table f tok q
        ≡ search_on max_alloc instructions vars ring table g tok q
  search_agree f g tok q h = elim (Bool-cases (is_finished q.state)) [
    | inl stopped ↦ rw stopped refl
    | inr goes_on ↦ rw goes_on h
  ]

  -- Two searches that agree behind the line agree on the line.
  passed_agree :
      (f g : Loop) (tok : Token) (name : Bytes) (new : Token) (payload : Payload) (q : P)
      → f q ≡ g q
      → passed_line max_alloc instructions vars ring table f tok name new payload q
        ≡ passed_line max_alloc instructions vars ring table g tok name new payload q
  passed_agree f g tok name new (label found offset) q h = elim (Bool-cases (str_eq found name)) [
    | inl same ↦ rw same refl
    | inr other ↦ rw other (search_agree f g tok q h)
  ]
  passed_agree f g tok name new (instruction code) q h = search_agree f g tok q h
  passed_agree f g tok name new (operand o) q h = search_agree f g tok q h
  passed_agree f g tok name new (string w) q h = search_agree f g tok q h

  -- The rest of a round, on a line that has been read.
  abbrev round : Loop → Token → Bytes → Loop
  round f tok name p = read_unchecked max_alloc vars ring p λ new q.
      passed_line max_alloc instructions vars ring table f tok name new new.payload
        (drain_all max_alloc vars ring q)

  -- Where the line has a token, the loops go on with the reader as it is and no token left.
  round_agree :
      (f g : Loop) (tok : Token) (name : Bytes) (p : P)
      → ((q : P) → q.reader ≡ p.reader → items q.translated_line ≡ [] → f q ≡ g q)
      → round f tok name p ≡ round g tok name p
  unfolding next_token
  round_agree f g tok name p h = from (read p.translated_line).0
    where
      q : P
      q = record p { translated_line = (read p.translated_line).1 }

      rest : Loop → Token → Outcome P
      rest f new =
          passed_line max_alloc instructions vars ring table f tok name new new.payload
            (drain_all max_alloc vars ring q)

      from :
          (o : Option Token)
          → read_or max_alloc vars ring (undefined null_dereference) o (rest f)
            ≡ read_or max_alloc vars ring (undefined null_dereference) o (rest g)
      from none = refl
      from (some new) =
          let (empty, same, t) = drain_all-empties max_alloc vars ring q in
          passed_agree f g tok name new new.payload (drain_all max_alloc vars ring q)
            (h (drain_all max_alloc vars ring q) same empty)

  -- Where it has none, the loop does not go on.
  round_empty :
      (f g : Loop) (tok : Token) (name : Bytes) (p : P)
      → items p.translated_line ≡ []
      → round f tok name p ≡ round g tok name p
  unfolding next_token
  round_empty f g tok name p e = rw (read_empty p.translated_line e) refl

  line_agree :
      (f g : Loop) (tok : Token) (name : Bytes) (p p' : P)
      → items p.translated_line ≡ []
      → LessOrSame instructions ring table (left p) p p'
      → ((q : P) → left q < left p → items q.translated_line ≡ [] → f q ≡ g q)
      → round f tok name p' ≡ round g tok name p'
  unfolding left
  line_agree f g tok name p p' e (inl less) h =
      round_agree f g tok name p' λ q same empty. h q (rw same less) empty
  line_agree f g tok name p p' e (inr same) h = round_empty f g tok name p' (ap items same ∙ e)

  -- From a line with no token left, a round that goes on has read a word.
  agree :
      (f g : ℕ) (tok : Token) (name : Bytes) (p : P)
      → find table (255 ∷ []) ≡ none
      → items p.translated_line ≡ []
      → left p < f
      → left p < g
      → search_label max_alloc instructions vars ring table f tok name p
        ≡ search_label max_alloc instructions vars ring table g tok name p
  unfolding search_label left
  agree zero g tok name p u e a b = absurd (omega (arith, a))
  agree (suc f) zero tok name p u e a b = absurd (omega (arith, b))
  agree (suc f) (suc g) tok name p u e a b =
      same_bind (tokenize_next_line instructions ring table p) _ _ (
        Always-map (LessOrSame instructions ring table (left p) p) _
          (tokenize_next_line instructions ring table p)
          (tokenize_next_line-LessOrSame instructions ring table p u)
          λ p' l.
            line_agree (search_label max_alloc instructions vars ring table f tok name)
              (search_label max_alloc instructions vars ring table g tok name) tok name p p' e l
              λ q k empty. agree f g tok name q u empty (omega (arith, a, k)) (omega (arith, b, k)))

  -- The search for a label gives the same for any two amounts of fuel that are three more than the count
  -- of the unread bytes, or above that, whatever tokens are left of the line: it never ends for want of
  -- fuel. The table of instructions is the one that lexer_init builds.
  pub search_label-fuel :
      (f g : ℕ) (tok : Token) (name : Bytes) (p : P)
      → lexer_init instructions ≡ done table
      → length p.unread + 3 ≤ f
      → length p.unread + 3 ≤ g
      → search_label max_alloc instructions vars ring table f tok name p
        ≡ search_label max_alloc instructions vars ring table g tok name p
  unfolding search_label left
  search_label-fuel zero g tok name p u a b = absurd (omega (arith, a))
  search_label-fuel (suc f) zero tok name p u a b = absurd (omega (arith, b))
  search_label-fuel (suc f) (suc g) tok name p u a b =
      same_bind (tokenize_next_line instructions ring table p) _ _ (
        Always-map (λ q. left q ≤ left p) _ (tokenize_next_line instructions ring table p)
          (tokenize_next_line-AtMost instructions ring table (left p) p (omega arith))
          λ p' l.
            round_agree (search_label max_alloc instructions vars ring table f tok name)
              (search_label max_alloc instructions vars ring table g tok name) tok name p'
              λ q same empty.
                let k : left q ≤ left p = rw same l in
                let w = words_left-le p.c p.unread in
                agree f g tok name q (lexer_init-eof instructions table u) empty
                  (omega (arith, a, k, w)) (omega (arith, b, k, w)))
