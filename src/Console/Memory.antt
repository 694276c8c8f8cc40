-- ===== src/Console/Memory.antt =====
-- Which bytes of video memory `write` changes: the screen has 80 * 25 cells of two bytes.
use cosc.Base.{
  ℕ, zero, suc, ◌+◌, ◌*◌, ◌≤◌, ◌<◌, ◌≡◌, ◌≢◌, refl, arith, ◌⊎◌, ◌∙◌, ap, List, [], ◌∷◌, All, inl,
  inr,
}
use cosc.Console.{Screen, Video, write_char, fill_tab, write_one, write_all, set_cursor, write}
use cosc.Console.Cells.{write_char_blank, fill_tab_lem, fill_tab-address}
use cosc.Console.Scrolling.{scroll_up_lem}
use cosc.Console.Writing.{
  line_left, fill_line_lem, before_scroll, write_one_cases, write_one-address,
}

fill_tab_far : (k a x : ℕ) (v : Video) → 4002 ≤ x → (fill_tab k a v).1 x ≡ v x
unfolding fill_tab write_char
fill_tab_far zero a x v h = refl
fill_tab_far (suc k) a x v h = ground (arith, fill_tab_far k (a + 1) x (write_char a b' ' 7 0 v))

-- Memory after the loops for one character, behind the screen.
before_scroll_far :
    (c a x : ℕ) (v : Video)
    → a < 2000
    → 4000 ≤ x
    → (c ≢ b'\t') ⊎ (4002 ≤ x)
    → (before_scroll c a v).1 x ≡ v x
unfolding write_char
before_scroll_far c a x v h far other = ground (
  arith,
  ap (λ (r : ℕ × Video). r.1 x) (fill_line_lem a v),
  fill_tab_lem (line_left a) a x v,
  fill_tab_far 8 a x v,
)

write_one_far :
    (c a x : ℕ) (v : Video)
    → a < 2000
    → 4000 ≤ x
    → (c ≢ b'\t') ⊎ (4002 ≤ x)
    → (write_one c (a, v)).1 x ≡ v x
write_one_far c a x v h far other =
    rw (write_one_cases c a v h) (
      ground
        (arith, before_scroll_far c a x v h far other, scroll_up_lem (before_scroll c a v).1 x))

write_all_far :
    (msg : List ℕ) (a x : ℕ) (v : Video)
    → a < 2000
    → 4000 ≤ x
    → (All (λ c. c ≢ b'\t') msg) ⊎ (4002 ≤ x)
    → (write_all msg (a, v)).1 x ≡ v x
unfolding write_all
write_all_far [] a x v h far other = refl
write_all_far (c ∷ msg) a x v h far (inl no_tab) =
    write_all_far msg _ x _ (write_one-address c a v h) far (inl no_tab.1)
    ∙ write_one_far c a x v h far (inl no_tab.0)
write_all_far (c ∷ msg) a x v h far (inr past) =
    write_all_far msg _ x _ (write_one-address c a v h) far (inr past)
    ∙ write_one_far c a x v h far (inr past)

-- From a cursor on the screen, `write` changes no byte behind the screen if the message has no tab,
-- and with tabs at most the one cell that follows the screen.
pub write-memory :
    (msg : List ℕ) (s : Screen) (x : ℕ)
    → s.cursor_position < 80 * 25
    → 80 * 25 * 2 ≤ x
    → (All (λ c. c ≢ b'\t') msg) ⊎ (80 * 25 * 2 + 2 ≤ x)
    → (write msg s).video x ≡ s.video x
unfolding write set_cursor
write-memory msg s x h far other = write_all_far msg s.cursor_position x s.video h far other

-- From behind the first cell that follows the screen nothing is written.
fill_tab_refused : (k a x : ℕ) (v : Video) → 2000 < a → (fill_tab k a v).1 x ≡ v x
unfolding fill_tab write_char
fill_tab_refused zero a x v h = refl
fill_tab_refused (suc k) a x v h =
    ground (arith, fill_tab_refused k (a + 1) x (write_char a b' ' 7 0 v))

fill_tab_past : (k a : ℕ) (v : Video) → a ≤ 2000 → 2000 < a + k → (fill_tab k a v).1 4000 ≡ b' '
unfolding fill_tab
fill_tab_past zero a v h past = absurd (omega arith)
fill_tab_past (suc k) a v h past = ground (
  arith,
  fill_tab_past k (a + 1) (write_char a b' ' 7 0 v),
  fill_tab_refused k (a + 1) 4000 (write_char a b' ' 7 0 v),
  write_char_blank a 4000 v,
)

-- A tab whose eight cells do not fit on the screen writes a space behind the screen: the test in
-- `write_char` lets the address 80 * 25 pass.
pub tab_writes_past_screen :
    (a : ℕ) (v : Video)
    → a < 80 * 25
    → 80 * 25 < a + 8
    → (write_one b'\t' (a, v)).1 (80 * 25 * 2) ≡ b' '
tab_writes_past_screen a v h past = rw (write_one_cases b'\t' a v h) (
    ground
      (arith, fill_tab_past 8 a v, fill_tab-address 8 a v, scroll_up_lem (fill_tab 8 a v).1 4000))
