-- ===== src/Console/Writing.antt =====
-- What `write` does to the screen and the cursor.
use cosc.Base.{
  ℕ, suc, ◌+◌, ◌-◌, ◌*◌, ◌%◌, ◌≤◌, ◌<◌, ◌≡◌, arith, ap, ltb, ◌==◌, if◌then◌else◌, List, [], ◌∷◌,
}
use cosc.Console.{
  Screen, Video, write_char, fill_line, fill_tab, scroll_up, scroll, write_one, write_all,
  set_cursor, write,
}
use cosc.Console.Cells.{fill_tab-address, fill_line-eq-fill_tab}

-- The address after the loop of the newline or of another character.
abbrev pub line_left : ℕ → ℕ
line_left a = 80 - a % 80

pub fill_line_lem : (a : ℕ) (v : Video) → fill_line 80 a v ≡ fill_tab (line_left a) a v
fill_line_lem a v =
    fill_line-eq-fill_tab 80 (line_left a) a v (omega arith) (omega arith) (omega arith)
      (omega arith)

scroll_none : (fuel a : ℕ) (v : Video) → a < 2000 → scroll (suc fuel) a v ≡ (a, v)
unfolding scroll
scroll_none fuel a v h = ground arith

scroll_once :
    (fuel a : ℕ) (v : Video)
    → 2000 ≤ a
    → a < 2080
    → scroll (suc (suc fuel)) a v ≡ (a - 80, scroll_up v)
unfolding scroll
scroll_once fuel a v h k = ground arith

-- The address and the memory before scrolling.
abbrev pub before_scroll : ℕ → ℕ → Video → ℕ × Video
before_scroll c a v =
    if c == b'\n'
    then fill_line 80 a v
    else if c == b'\t'
    then fill_tab 8 a v
    else (a + 1, write_char a c 7 0 v)

pub before_scroll-address :
    (c a : ℕ) (v : Video)
    → a < 2000
    → (a < (before_scroll c a v).0) × ((before_scroll c a v).0 ≤ a + 80)
before_scroll-address c a v h = ground (
  arith,
  ap (λ (r : ℕ × Video). r.0) (fill_line_lem a v),
  fill_tab-address (line_left a) a v,
  fill_tab-address 8 a v,
)

-- `write_one` after the loops: at most one line is scrolled.
pub write_one_cases :
    (c a : ℕ) (v : Video)
    → a < 2000
    → write_one c (a, v) ≡ (
        if ltb (before_scroll c a v).0 2000
        then before_scroll c a v
        else ((before_scroll c a v).0 - 80, scroll_up (before_scroll c a v).1))
unfolding write_one
write_one_cases c a v h =
    let m = before_scroll-address c a v h in
    ground (
      arith,
      m,
      scroll_none 1 (before_scroll c a v).0 (before_scroll c a v).1,
      scroll_once 0 (before_scroll c a v).0 (before_scroll c a v).1,
    )

pub write_one-address : (c a : ℕ) (v : Video) → a < 2000 → (write_one c (a, v)).0 < 2000
write_one-address c a v h =
    rw (write_one_cases c a v h) (ground (arith, before_scroll-address c a v h))

write_all-address : (msg : List ℕ) (a : ℕ) (v : Video) → a < 2000 → (write_all msg (a, v)).0 < 2000
unfolding write_all
write_all-address [] a v h = h
write_all-address (c ∷ msg) a v h =
    write_all-address msg (write_one c (a, v)).0 (write_one c (a, v)).1 (write_one-address c a v h)

-- From a cursor on the screen, `write` leaves the cursor on the screen, whatever the message.
pub write-cursor :
    (msg : List ℕ) (s : Screen)
    → s.cursor_position < 80 * 25
    → (write msg s).cursor_position < 80 * 25
unfolding write set_cursor
write-cursor msg s h = write_all-address msg s.cursor_position s.video h
