-- ===== src/Exec/Keeps.antt =====
-- What holds through all that the executor does to a program. A predicate that is kept by each kind of
-- change (the reader moves within its file, a variable or a label is bound, an array is written, a token
-- is taken, the program is put to sleep or blocked) is kept by a whole line.
pub mod Values
pub mod Handlers
pub mod Branches
pub mod Lines
pub mod Steady
use simbly.Exec.Values.Ensures.{Steps}
use simbly.Exec.Values.{updated}
use simbly.Prelude.{ℕ, ◌<◌, ◌≡◌, ◌≢◌, refl, ◌∙◌, true, Option, none, List, Bytes, ℤ, length}
use simbly.Program.{Reader, Program, Cell, Token, array, label_data, LabelData, stop_with}
use simbly.Scanner.Chars.Position.{Advances}
use simbly.Scanner.Tokenize.Position.{IsReader, Advances-IsReader}
use simbly.Scanner.Tokens.Closed.{Closed}
use simbly.Voids.{HashTable, RingBuffer}

-- The file is the same, and the reader stands in it where its offset says, if it did before.
abbrev pub Moved : Reader → Reader → Type 0
Moved r u = (u.text ≡ r.text) × (IsReader r → IsReader u)

module _ (max_alloc : ℕ) (vars : HashTable Cell) (ring : RingBuffer Token) where
  open vars use {Table, find, insert}
  open ring use {Buffer}

  pub record Kept (P : Program Table Buffer → Type 0) : Type 0 where
    pub reads :
        (q : Program Table Buffer) (r : Reader)
        → Moved q.reader r
        → P q
        → P (record q { reader = r })
    pub tokens :
        (q : Program Table Buffer) (b : Buffer) → P q → P (record q { translated_line = b })
    pub binds :
        (q : Program Table Buffer) (x : Bytes) (xs : List ℤ)
        → P q
        → 0 < length xs
        → (insert q.vartable x (array xs)).1 ≡ true
        → P (record q { vartable = (insert q.vartable x (array xs)).0 })
    pub writes :
        (q : Program Table Buffer) (x : Bytes) (xs : List ℤ)
        → P q
        → 0 < length xs
        → find q.vartable x ≢ none
        → P (updated max_alloc vars ring q x xs)
    pub labels :
        (q : Program Table Buffer) (x : Bytes) (l : LabelData)
        → P q
        → P (record q { vartable = (insert q.vartable x (label_data l)).0 })
    pub sleeps :
        (q : Program Table Buffer) (sec nsec : ℤ)
        → P q
        → P (record q { sleep_sec = sec; sleep_nsec = nsec })
    pub waits :
        (q : Program Table Buffer) (key : Option Bytes) (idx : ℕ)
        → P q
        → P (record q { sem = key; blocked_idx = idx })

  module _ {P : Program Table Buffer → Type 0} (k : Kept P) where
    -- The reader changes in what is not its place in the file.
    pub same_place :
        (q : Program Table Buffer) (r : Reader)
        → r.unread ≡ q.unread
        → r.offset ≡ q.offset
        → r.text ≡ q.text
        → P q
        → P (record q { reader = r })
    same_place q r u o t h = k.reads q r (t, λ i. rw (u, o, t) i) h

    pub Kept-Closed : Closed ring P
    Kept-Closed = record {
      reads = λ q r a h. k.reads q r (a.text_eq, Advances-IsReader q.reader r a) h;
      tokens = k.tokens;
    }

    pub Kept-Steps : Steps max_alloc vars ring P (λ x. Unit)
    Kept-Steps = record {
      message = λ q m h. same_place q (stop_with m q.reader) refl refl refl h;
      new_name = λ q x xs n h l t. k.binds q x xs h l t;
      write = λ q x xs n h l b. k.writes q x xs h l b;
    }
