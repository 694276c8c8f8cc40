-- ===== src/Console/Clearing.antt =====
-- `clear_screen` and plain text.
use mathlib.Core.Path.{subst}
use cosc.Base.{
  ℕ, zero, suc, ◌+◌, ◌*◌, ◌%◌, ◌<◌, ◌≡◌, ◌≢◌, refl, arith, ◌∙◌, ◌==◌, if◌then◌else◌, List, [], ◌∷◌,
  All, length,
}
use cosc.Console.{
  Screen, Video, write_char, fill_tab, write_one, write_all, set_cursor, write, write_string,
  clear_lines, clear_screen,
}
use cosc.Console.Cells.{blank_at, blanked, fill_tab_lem, fill_tab-address}
use cosc.Console.Scrolling.{scroll_up_lem}
use cosc.Console.Writing.{line_left, fill_line_lem, write_one_cases}

-- Memory with the characters of a text, in colour 7, in the cells from `a` on.
pub text_at : List ℕ → ℕ → Video → Video
text_at [] a video x = video x
text_at (c ∷ msg) a video x =
    if x == a * 2 then c else if x == a * 2 + 1 then 7 else text_at msg (a + 1) video x

-- A newline blanks the rest of the line and goes to the start of the next; at the end of the last
-- line the screen is scrolled first.
newline_above :
    (a x : ℕ) (v : Video)
    → a < 1920
    → ((write_one b'\n' (a, v)).0 ≡ a + line_left a)
      × ((write_one b'\n' (a, v)).1 x ≡ blanked (a * 2) ((a + line_left a) * 2) v x)
newline_above a x v h =
    rw (write_one_cases b'\n' a v (omega arith), fill_line_lem a v)
      (ground (arith, fill_tab-address (line_left a) a v, fill_tab_lem (line_left a) a x v))

newline_last :
    (x : ℕ) (v : Video)
    → ((y : ℕ) → y < 3840 → v y ≡ blank_at y)
    → x < 4000
    → (write_one b'\n' (1920, v)).1 x ≡ blank_at x
newline_last x v above h =
    rw (write_one_cases b'\n' 1920 v (omega arith), fill_line_lem 1920 v)
      (ground (
        arith,
        fill_tab-address 80 1920 v,
        scroll_up_lem (fill_tab 80 1920 v).1 x,
        fill_tab_lem 80 1920 (x + 160) v,
        fill_tab_lem 80 1920 x v,
        above (x + 160),
        above x,
      ))

clear_lines_blank :
    (left k : ℕ) (s : Screen) (x : ℕ)
    → k + suc left ≡ 25
    → s.cursor_position ≡ 80 * k
    → ((y : ℕ) → y < 160 * k → s.video y ≡ blank_at y)
    → x < 4000
    → (clear_lines (suc left) s).video x ≡ blank_at x
unfolding clear_lines write_string write write_all set_cursor
clear_lines_blank zero k s x e c above h =
    subst (λ a. (write_one b'\n' (a, s.video)).1 x ≡ blank_at x) (omega arith)
      (newline_last x s.video (λ y hy. above y (omega arith)) h)
clear_lines_blank (suc left) k s x e c above h =
    clear_lines_blank left (suc k) (write_string (b'\n' ∷ []) s) x (omega arith)
      (omega (arith, (newline_above s.cursor_position x s.video (omega arith)).0))
      (λ y hy. ground (arith, newline_above s.cursor_position y s.video (omega arith), above y)) h

-- `clear_screen` leaves a space in colour 7 in every cell of the screen, whatever was there, and
-- the cursor at the first cell.
pub clear_screen_blank :
    (s : Screen)
    → ((clear_screen s).cursor_position ≡ 0)
      × ((x : ℕ) → x < 80 * 25 * 2 → (clear_screen s).video x ≡ (if x % 2 == 0 then b' ' else 7))
unfolding clear_screen set_cursor
clear_screen_blank s = (
  refl,
  λ x h.
      clear_lines_blank 24 0 (set_cursor 0 s) x (omega arith) refl (λ y hy. absurd (omega arith)) h,
)

text_at_below : (msg : List ℕ) (a x : ℕ) (v : Video) → x < a * 2 → text_at msg a v x ≡ v x
unfolding text_at
text_at_below [] a x v h = refl
text_at_below (c ∷ msg) a x v h = ground (arith, text_at_below msg (a + 1) x v)

pub text_at_cong :
    (msg : List ℕ) (a x : ℕ) (v w : Video) → v x ≡ w x → text_at msg a v x ≡ text_at msg a w x
unfolding text_at
text_at_cong [] a x v w e = e
text_at_cong (c ∷ msg) a x v w e = ground (arith, text_at_cong msg (a + 1) x v w e)

text_at-write_char :
    (msg : List ℕ) (c a x : ℕ) (v : Video)
    → a < 2000
    → text_at msg (a + 1) (write_char a c 7 0 v) x ≡ text_at (c ∷ msg) a v x
unfolding text_at write_char
text_at-write_char msg c a x v h = ground (
  arith,
  text_at_below msg (a + 1) x (write_char a c 7 0 v),
  text_at_cong msg (a + 1) x (write_char a c 7 0 v) v,
)

write_one_plain :
    (c a : ℕ) (v : Video)
    → (c ≢ b'\n') × (c ≢ b'\t')
    → a + 1 < 2000
    → write_one c (a, v) ≡ (a + 1, write_char a c 7 0 v)
write_one_plain c a v plain h = rw (write_one_cases c a v (omega arith)) (ground arith)

write_all_text :
    (msg : List ℕ) (a x : ℕ) (v : Video)
    → All (λ c. (c ≢ b'\n') × (c ≢ b'\t')) msg
    → a + length msg < 2000
    → ((write_all msg (a, v)).0 ≡ a + length msg) × ((write_all msg (a, v)).1 x ≡ text_at msg a v x)
unfolding write_all text_at
write_all_text [] a x v plain fits = (omega arith, refl)
write_all_text (c ∷ msg) a x v plain fits =
    let ih = write_all_text msg (a + 1) x (write_char a c 7 0 v) plain.1 (omega arith) in
    rw (write_all, write_one_plain c a v plain.0 (omega arith))
      (omega (arith, ih.0), ih.1 ∙ text_at-write_char msg c a x v (omega arith))

-- A text without newlines and tabs that ends before the last cell of the screen is put into the
-- cells from the cursor on, in colour 7, every other byte stays, and the cursor moves behind it.
pub write_string_text :
    (msg : List ℕ) (s : Screen)
    → All (λ c. (c ≢ b'\n') × (c ≢ b'\t')) msg
    → s.cursor_position + length msg < 80 * 25
    → ((write_string msg s).cursor_position ≡ s.cursor_position + length msg)
      × ((x : ℕ) → (write_string msg s).video x ≡ text_at msg s.cursor_position s.video x)
unfolding write_string write set_cursor
write_string_text msg s plain fits = (
  (write_all_text msg s.cursor_position 0 s.video plain fits).0,
  λ x. (write_all_text msg s.cursor_position x s.video plain fits).1,
)
