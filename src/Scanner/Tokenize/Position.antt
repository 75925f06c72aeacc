-- ===== src/Scanner/Tokenize/Position.antt =====
-- tokenize_next_line of src/scanner.c goes forward in the file, so the offset of a label leads back
-- to the bytes behind it.
use simbly.Prelude.{
  ℕ, ◌+◌, ◌≡◌, refl, ap, sym, ◌∙◌, [], ◌∷◌, ◌++◌, arith, Bytes, length, drop, Always, zero, suc,
}
use simbly.Program.{Reader, Program, Token, Instruction}
use simbly.Scanner.Chars.Position.{Advances}
use simbly.Scanner.Tokenize.Keeps.{tokenize_next_line-Keeps}
use simbly.Scanner.Tokens.Closed.{Closed}
use simbly.Scanner.Tokenize.{tokenize_next_line}
use simbly.Voids.{HashTable, RingBuffer}

-- What has not been read is the text behind the offset.
abbrev pub IsReader : Reader → Type 0
IsReader r = r.unread ≡ drop r.offset r.text

succ_plus : (m n : ℕ) → suc m + n ≡ suc (m + n)
succ_plus m n = omega arith

drop-nil : (n : ℕ) → drop {A = ℕ} n [] ≡ []
drop-nil zero = refl
drop-nil (suc n) = refl

drop-drop : (m n : ℕ) (t : Bytes) → drop (m + n) t ≡ drop n (drop m t)
drop-drop zero n t = ap (λ k. drop k t) (omega arith)
drop-drop (suc m) n [] = ap (λ k. drop k []) (succ_plus m n) ∙ sym (drop-nil n)
drop-drop (suc m) n (b ∷ t) = ap (λ k. drop k (b ∷ t)) (succ_plus m n) ∙ drop-drop m n t

drop-append : (s u : Bytes) → drop (length s) (s ++ u) ≡ u
drop-append [] u = refl
drop-append (b ∷ s) u = drop-append s u

pub Advances-IsReader : (r u : Reader) → Advances r u → IsReader r → IsReader u
Advances-IsReader r u a h =
    let whole = drop-drop r.offset (length a.skipped) r.text in
    let rest = ap (drop (length a.skipped)) (sym h ∙ a.unread_eq) in
    sym (drop-append a.skipped u.unread)
    ∙ sym rest
    ∙ sym whole
    ∙ ap (λ k. drop k r.text) (sym a.offset_eq)
    ∙ ap (drop u.offset) (sym a.text_eq)

module _ {VarTable : Type 0} (instructions : HashTable Instruction) (ring : RingBuffer Token)
    (table : instructions.Table) where
  open ring use {Buffer}

  -- The reader stands where it is to in the file.
  in_file-Closed :
      (text : Bytes) → Closed {VarTable = VarTable} ring (λ q. IsReader q.reader × (q.text ≡ text))
  in_file-Closed text = record {
    reads = λ q r a (h, k). (Advances-IsReader q.reader r a h, a.text_eq ∙ k);
    tokens = λ q b h. h;
  }

  -- In a program whose unread bytes are those of its file behind the offset, they still are where
  -- tokenize_next_line returns, and the file is the same.
  tokenize_next_line-IsReader :
      (p : Program VarTable Buffer)
      → IsReader p.reader
      → Always
          (λ q. IsReader q.reader × (q.text ≡ p.text))
          (tokenize_next_line instructions ring table p)
  tokenize_next_line-IsReader p h =
      tokenize_next_line-Keeps instructions ring table (in_file-Closed p.text) p (h, refl)
