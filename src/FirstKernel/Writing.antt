-- ===== src/FirstKernel/Writing.antt =====
-- Where `write` of tutorial7 writes.
use cosc.Base.{
  ℕ, ◌+◌, ◌-◌, ◌*◌, ◌%◌, ◌<◌, ◌≤◌, ◌≡◌, ◌≢◌, ◌⊎◌, refl, List, [], ◌∷◌, ◌==◌, arith, inl, inr, ◌∙◌,
  Bool-cases, length, u32, ◌^◌,
}
use cosc.Console.{Video, Screen, set_cursor}
use cosc.FirstKernel.{write_char, write_all, write}

-- No address wraps while `msg` is written from cell `a` on: a character moves the cursor by at most
-- a line.
abbrev Fits : ℕ → List ℕ → Type 0
Fits a msg = a + 80 * length msg < 2 ^ 31

write_all_cursor : (msg : List ℕ) (a : ℕ) (v : Video) → Fits a msg → a ≤ (write_all msg (a, v)).0
unfolding write_all
write_all_cursor [] a v fits = omega arith
write_all_cursor (c ∷ msg) a v fits = elim (Bool-cases (c == b'\n')) [
  | inl e ↦
      rw (write_all, e)
        (omega (arith, write_all_cursor msg (u32 (a + (80 - a % 80))) v (omega arith)))
  | inr e ↦ elim (Bool-cases (c == b'\t')) [
    | inl f ↦
        rw (write_all, e, f)
          (omega (arith, write_all_cursor msg (u32 (a + (4 - a % 4))) v (omega arith)))
    | inr f ↦
        rw (write_all, e, f)
          (omega (arith, write_all_cursor msg (u32 (a + 1)) (write_char a c 7 0 v) (omega arith)))
  ]
]

write_char_other :
    (a c x : ℕ) (v : Video)
    → a < 2 ^ 31
    → (x < a * 2) ⊎ ((a + 1) * 2 ≤ x)
    → write_char a c 7 0 v x ≡ v x
unfolding write_char
write_char_other a c x v small h = ground arith

write_all_other :
    (msg : List ℕ) (a x : ℕ) (v : Video)
    → Fits a msg
    → (x < a * 2) ⊎ ((write_all msg (a, v)).0 * 2 ≤ x)
    → (write_all msg (a, v)).1 x ≡ v x
unfolding write_all
write_all_other [] a x v fits = λ h. refl
write_all_other (c ∷ msg) a x v fits = elim (Bool-cases (c == b'\n')) [
  | inl e ↦
      rw (write_all, e)
        (λ h. write_all_other msg (u32 (a + (80 - a % 80))) x v (omega arith) (ground arith))
  | inr e ↦ elim (Bool-cases (c == b'\t')) [
    | inl f ↦
        rw (write_all, e, f)
          (λ h. write_all_other msg (u32 (a + (4 - a % 4))) x v (omega arith) (ground arith))
    | inr f ↦
        let moved = write_all_cursor msg (u32 (a + 1)) (write_char a c 7 0 v) (omega arith) in
        rw (write_all, e, f)
          (λ h.
            write_all_other msg (u32 (a + 1)) x (write_char a c 7 0 v) (omega arith) (ground arith)
            ∙ write_char_other a c x v (omega arith) (ground (arith, moved)))
  ]
]

-- As long as no address wraps, `write` does not move the cursor back, and it changes only bytes of
-- the cells from the old cursor up to the new one. Nothing keeps it on the screen: a character
-- other than newline and tab that is written with the cursor behind the last cell is stored there,
-- and no byte of the screen changes.
pub write-region :
    (msg : List ℕ) (s : Screen)
    → s.cursor_position + 80 * length msg < 2 ^ 31
    → (s.cursor_position ≤ (write msg s).cursor_position)
      × ((x : ℕ)
          → (x < s.cursor_position * 2) ⊎ ((write msg s).cursor_position * 2 ≤ x)
          → (write msg s).video x ≡ s.video x)
      × ((c : ℕ)
          → (c ≢ b'\n') × (c ≢ b'\t')
          → 80 * 25 ≤ s.cursor_position
          → ((write (c ∷ []) s).video (s.cursor_position * 2) ≡ c)
            × ((x : ℕ) → x < 80 * 25 * 2 → (write (c ∷ []) s).video x ≡ s.video x))
unfolding write write_all write_char set_cursor
write-region msg s fits = (
  write_all_cursor msg s.cursor_position s.video fits,
  λ x h. write_all_other msg s.cursor_position x s.video fits h,
  λ c plain behind. (ground arith, λ x h. ground arith),
)
