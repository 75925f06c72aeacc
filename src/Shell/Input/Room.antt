-- ===== src/Shell/Input/Room.antt =====
-- The buffer of read_line has room for what is written to it.
use simbly.Prelude.{
  ℕ, ◌+◌, ◌^◌, ◌<◌, ◌≤◌, ◌≡◌, refl, ap, Bool, true, false, [], ◌∷◌, ◌++◌, length, if◌then◌else◌,
  done, arith, Bool-cases, inl, inr, length-append, leb,
}
use simbly.Shell.Input.{max_alloc_size, is_blank, Buffer, with_room, put, put_char, terminated}

-- The bytes fit, and the buffer is at most one allocation larger.
abbrev pub Fits : Buffer → Type 0
Fits b = (length b.bytes ≤ b.size) × (b.size ≤ length b.bytes + max_alloc_size)

pub with_room-Fits :
    (b : Buffer)
    → Fits b
    → length b.bytes < 2 ^ 63
    → ((with_room b).bytes ≡ b.bytes)
      × (length b.bytes < (with_room b).size)
      × ((with_room b).size ≤ length b.bytes + max_alloc_size)
with_room-Fits b f h = elim (Bool-cases (leb b.size (length b.bytes))) [
  | inl full ↦ rw full (refl, ground arith, ground arith)
  | inr room ↦ rw room (refl, ground arith, ground arith)
]

put_room :
    (c : ℕ) (b : Buffer)
    → length b.bytes < b.size
    → put c b ≡ done (record b { bytes = b.bytes ++ c ∷ [] })
put_room c b h = ground arith

pub put_char-Fits :
    (c : ℕ) (b : Buffer)
    → Fits b
    → length b.bytes < 2 ^ 63
    → (b' : Buffer) × (put_char c b ≡ done b')
      × (b'.bytes ≡ b.bytes ++ ((if is_blank c then 32 else c) ∷ []))
      × Fits b'
put_char-Fits c b f h =
    let (same, room, bound) = with_room-Fits b f h in
    let x = if is_blank c then 32 else c in
    let l = length-append (with_room b).bytes (x ∷ []) in
    (
      record (with_room b) { bytes = (with_room b).bytes ++ x ∷ [] },
      put_room x (with_room b) (omega (arith, room, ap length same)),
      ap (λ bs. bs ++ (x ∷ [])) same,
      (omega (arith, l, room, ap length same), omega (arith, l, bound, ap length same)),
    )

-- The buffer where the loops stop.
pub last_room :
    (blanks : Bool) (b : Buffer)
    → Fits b
    → length b.bytes < 2 ^ 63
    → let b' = if blanks then with_room b else b in (b'.bytes ≡ b.bytes) × Fits b'
last_room true b f h =
    let (same, room, bound) = with_room-Fits b f h in
    (same, (omega (arith, room, ap length same), omega (arith, bound, ap length same)))
last_room false b f h = (refl, f)

pub terminated_room : (b : Buffer) → Fits b → length b.bytes < 2 ^ 63 → terminated b ≡ done b.bytes
terminated_room b f h = ground arith
