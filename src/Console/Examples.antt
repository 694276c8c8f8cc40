-- ===== src/Console/Examples.antt =====
-- Runs of the screen functions, and their theorems at concrete screens.
use cosc.Base.{ℕ, ◌*◌, ◌<◌, ◌≡◌, refl, inl, some, [], ◌∷◌, arith}
use cosc.Console.{
  Screen, fill_line, fill_tab, scroll, write_one, write_all, set_cursor, write, write_string,
  scroll_up,
}
use cosc.Console.Keyboard.{keyboard_handler_main, keyboard_handler_main_lem}
use cosc.Console.Scrolling.{scroll_up_lem}
use cosc.Console.Writing.{write-cursor}
use cosc.Console.Memory.{write-memory, tab_writes_past_screen}
use cosc.Console.Clearing.{text_at, write_string_text}

-- A screen full of exclamation marks with its cursor at a cell.
abbrev screen_at : ℕ → Screen
screen_at a = record { video = λ x. b'!'; cursor_position = a; ports = [] }

-- A newline in the first line goes to the second, a tab goes on by eight cells.
newline_tab : (write (b'\n' ∷ b'\t' ∷ []) (screen_at 5)).cursor_position ≡ 88
unfolding write write_all write_one fill_line fill_tab scroll set_cursor
newline_tab = refl

write-cursor_example : (write (b'a' ∷ b'\n' ∷ []) (screen_at 1999)).cursor_position < 2000
write-cursor_example = write-cursor (b'a' ∷ b'\n' ∷ []) (screen_at 1999) (omega arith)

write-memory_example : (write (b'a' ∷ b'\n' ∷ []) (screen_at 1999)).video 4000 ≡ b'!'
write-memory_example =
    write-memory (b'a' ∷ b'\n' ∷ []) (screen_at 1999) 4000 (omega arith) (omega arith)
      (inl (omega arith))

tab_writes_past_screen_example : (write_one b'\t' (1996, λ x. b'!')).1 4000 ≡ b' '
tab_writes_past_screen_example = tab_writes_past_screen 1996 (λ x. b'!') (omega arith) (omega arith)

scroll_up_lem_example : scroll_up (λ x. x) 100 ≡ 260
scroll_up_lem_example = scroll_up_lem (λ x. x) 100

write_string_text_example :
    ((write_string (b'o' ∷ b'k' ∷ []) (screen_at 993)).cursor_position ≡ 995)
    × ((x : ℕ)
        → (write_string (b'o' ∷ b'k' ∷ []) (screen_at 993)).video x
          ≡ text_at (b'o' ∷ b'k' ∷ []) 993 (λ y. b'!') x)
write_string_text_example =
    write_string_text (b'o' ∷ b'k' ∷ []) (screen_at 993) (omega arith) (omega arith)

-- The key of the letter d is pressed with the cursor at the end of the screen.
keyboard_handler_main_lem_example :
    (s : Screen) × (keyboard_handler_main 1 32 (screen_at 1999) ≡ some s)
    × (s.cursor_position < 80 * 25)
keyboard_handler_main_lem_example = keyboard_handler_main_lem 1 32 (screen_at 1999) (omega arith)
