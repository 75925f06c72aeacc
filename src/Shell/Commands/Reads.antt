-- ===== src/Shell/Commands/Reads.antt =====
-- A line of input as a command.
use simbly.Global.{GlobalVar}
use simbly.Prelude.{
  ℕ, ◌<◌, ◌^◌, ◌≡◌, refl, subst, sym, ap, ◌∙◌, inl, inr, true, false, Bool-cases, Option, none,
  some, List, [], ◌∷◌, ◌++◌, Bytes, length, is_space, replicate, ◌==◌, if◌then◌else◌, done,
  undefined, uninitialised_read, use_after_free, ◌>>=◌, arith,
}
use simbly.Program.{Program, Cell, Token}
use simbly.Shell.Args.{words_from, words}
use simbly.Shell.Commands.{Sh, empty_input, command, shell_step}
use simbly.Shell.Input.{is_blank}
use simbly.Shell.Input.Squeeze.{before, first_line, squeeze, behind_space, newlines, read_line_lem}
use simbly.Voids.{HashTable, RingBuffer, CircularList}

HasWord : List Bytes → Type 0
HasWord ws = (w : Bytes) × (rest : List Bytes) × (ws ≡ w ∷ rest)

words_from-some : (c : ℕ) (w line : Bytes) → HasWord (words_from (c ∷ w) line)
unfolding HasWord
words_from-some c w [] = (c ∷ w, [], refl)
words_from-some c w (x ∷ line) = elim (Bool-cases (x == 32)) [
  | inl space ↦ rw space (c ∷ w, words_from [] line, refl)
  | inr other ↦ rw other (words_from-some c (w ++ x ∷ []) line)
]

squeeze-HasWord : (x : ℕ) (l : Bytes) → is_space x ≡ false → HasWord (words (squeeze false (x ∷ l)))
squeeze-HasWord x l h =
    let not_blank : is_blank x ≡ false = ground (arith, h) in
    let not_space : (x == 32) ≡ false = ground (arith, h) in
    rw (not_blank, not_space) (words_from-some x [] (squeeze false l))

before-HasWord :
    (x : ℕ) (o : Option (Bytes × Bytes)) (l rest : Bytes)
    → is_space x ≡ false
    → before x o ≡ some (l, rest)
    → HasWord (words (squeeze false l))
before-HasWord x none l rest h e = cc
before-HasWord x (some (m, r)) l rest h e =
    subst (λ k. HasWord (words (squeeze false k))) (ap (line_in l) e) (squeeze-HasWord x m h)
  where
    line_in : Bytes → Option (Bytes × Bytes) → Bytes
    line_in d none = d
    line_in d (some (k, r)) = k

-- A line that is read has a word.
line-HasWord :
    (input l rest : Bytes)
    → first_line (behind_space input) ≡ some (l, rest)
    → HasWord (words (squeeze false l))
line-HasWord [] l rest e = cc
line-HasWord (x ∷ xs) l rest e = elim (Bool-cases (is_space x)) [
  | inl space ↦
      line-HasWord xs l rest
        (sym (ap (λ t. first_line (if t then behind_space xs else x ∷ xs)) space) ∙ e)
  | inr other ↦ before-HasWord x (first_line xs) l rest other (
      sym (
        ap (λ t. first_line (if t then behind_space xs else x ∷ xs)) other
        ∙ ap (λ t. if t then some ([], xs) else before x (first_line xs)) (no_newline other))
      ∙ e)
]
  where
    no_newline : is_space x ≡ false → (x == b'\n') ≡ false
    no_newline h = ground (arith, h)

module _ (max_alloc : ℕ) (vars : HashTable Cell) (ring : RingBuffer Token)
    (globals : HashTable (Option GlobalVar))
    (list : CircularList (Program vars.Table ring.Buffer)) where
  -- The shell when it has read a line, behind so many empty ones.
  abbrev pub has_line :
      ℕ → Sh max_alloc vars ring globals list → Sh max_alloc vars ring globals list
  has_line n s = record s { messages = s.messages ++ replicate n empty_input; has_read = true }

  -- Where a newline ends the next line of input that is not blank, the shell executes a command of at
  -- least one word, those of the line, and what is unread then is what is behind the newline.
  pub shell_step-line :
      (files : Bytes → Option Bytes) (input l rest : Bytes)
      (s : Sh max_alloc vars ring globals list)
      → length input < 2 ^ 63
      → first_line (behind_space input) ≡ some (l, rest)
      → (w : Bytes) × (ws : List Bytes) × (words (squeeze false l) ≡ w ∷ ws)
        × (shell_step max_alloc vars ring globals list files input s ≡ (
            command max_alloc vars ring globals list files (w ∷ ws) (has_line (newlines input) s)
            >>= λ o. done (o, rest)))
  unfolding shell_step HasWord
  shell_step-line files input l rest s h e =
      let (w, ws, k) = line-HasWord input l rest e in
      (w, ws, k, rw (read_line_lem input h, e, k) refl)

  -- Where the input ends first, the shell goes on from a pointer that was never written, or that is
  -- in a line that was freed.
  pub shell_step-eof :
      (files : Bytes → Option Bytes) (input : Bytes) (s : Sh max_alloc vars ring globals list)
      → length input < 2 ^ 63
      → first_line (behind_space input) ≡ none
      → shell_step max_alloc vars ring globals list files input s
        ≡ undefined (if s.has_read then use_after_free else uninitialised_read)
  unfolding shell_step
  shell_step-eof files input s h e = rw (read_line_lem input h, e) refl
