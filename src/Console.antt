-- ===== src/Console.antt =====
-- The text screen of tutorials/tutorial8/kernel.c: `set_cursor`, `write_char`, `write`,
-- `write_string` and `clear_screen`. `out_port` is assembly: what is written to a port is recorded.
pub mod Cells
pub mod Scrolling
pub mod Writing
pub mod Memory
pub mod Clearing
pub mod Keyboard
mod Examples
use Prim.Native.Nat.{bit_and, bit_or}
use cosc.Base.{
  ℕ, zero, suc, ◌+◌, ◌-◌, ◌*◌, ◌/◌, ◌%◌, ◌^◌, Bool, true, false, List, [], ◌∷◌, ◌++◌, ltb, leb,
  ◌==◌, if◌then◌else◌,
}

-- Video memory, by the offset from `vidptr`.
abbrev pub Video : Type 0
Video = ℕ → ℕ

abbrev pub store : ℕ → ℕ → Video → Video
store offset value video j = if offset == j then value else video j

pub record Screen : Type 0 where
  pub video : Video
  pub cursor_position : ℕ
  pub ports : List (ℕ × ℕ)

-- A character is its byte. `address` counts cells; `0 <= address` holds of any unsigned int.
unfoldable pub write_char : ℕ → ℕ → ℕ → ℕ → Video → Video
write_char address c foreground background video =
    let colour = bit_or (bit_and background 0x0F * 2 ^ 4) (bit_and foreground 0x0F) in
    if leb address (80 * 25)
    then store (address * 2 + 1) colour (store (address * 2) c video)
    else video

-- The `do` loop for a newline, with at most `fuel` rounds: a line has 80 cells.
unfoldable pub fill_line : ℕ → ℕ → Video → ℕ × Video
fill_line zero current_address video = (current_address, video)
fill_line (suc fuel) current_address video =
    let video' = write_char current_address b' ' 7 0 video in
    let current_address' = current_address + 1 in
    let more = fill_line fuel current_address' video' in
    if current_address' % 80 == 0 then (current_address', video') else more

-- The loop for a tab, with the rounds left.
unfoldable pub fill_tab : ℕ → ℕ → Video → ℕ × Video
fill_tab zero current_address video = (current_address, video)
fill_tab (suc left) current_address video =
    fill_tab left (current_address + 1) (write_char current_address b' ' 7 0 video)

-- `vidptr[j] = vidptr[j + 80 * 2]` from `j` on, with the rounds left.
unfoldable pub move_up : ℕ → ℕ → Video → Video
move_up zero j video = video
move_up (suc left) j video = move_up left (j + 1) (store j (video (j + 80 * 2)) video)

-- The loop that blanks the last line, from `j` on, with the rounds left.
unfoldable pub blank_last : ℕ → ℕ → Video → Video
blank_last zero j video = video
blank_last (suc left) j video =
    blank_last left (j + 2) (store (80 * 24 * 2 + j + 1) 0x7 (store (80 * 24 * 2 + j) b' ' video))

unfoldable pub scroll_up : Video → Video
scroll_up video = blank_last 80 0 (move_up (80 * 24 * 2) 0 video)

-- "Scroll the screen (if necessary)": the `while` with at most `fuel` rounds.
unfoldable pub scroll : ℕ → ℕ → Video → ℕ × Video
scroll zero current_address video = (current_address, video)
scroll (suc fuel) current_address video =
    let again = scroll fuel (current_address - 80) (scroll_up video) in
    if leb (80 * 25) current_address then again else (current_address, video)

-- One round of the loop of `write`, for the character `c`. No character moves the address by more
-- than 80, so two rounds of `scroll` are enough.
unfoldable pub write_one : ℕ → ℕ × Video → ℕ × Video
write_one c (current_address, video) =
    let (next_address, video') =
      if c == b'\n'
      then fill_line 80 current_address video
      else if c == b'\t'
      then fill_tab 8 current_address video
      else (current_address + 1, write_char current_address c 7 0 video) in
    scroll 2 next_address video'

unfoldable pub set_cursor : ℕ → Screen → Screen
set_cursor address screen =
    let high = bit_and (address / 2 ^ 8) 0xFF in
    let low = bit_and address 0xFF in
    record screen {
      cursor_position = address;
      ports = screen.ports ++ (0x3D4, 14) ∷ (0x3D5, high) ∷ (0x3D4, 15) ∷ (0x3D5, low) ∷ [];
    }

unfoldable pub write_all : List ℕ → ℕ × Video → ℕ × Video
write_all [] state = state
write_all (c ∷ msg) state = write_all msg (write_one c state)

-- The message is the characters `msg[0]` up to `msg[msg_len - 1]`.
unfoldable pub write : List ℕ → Screen → Screen
write msg screen =
    let (current_address, video) = write_all msg (screen.cursor_position, screen.video) in
    set_cursor current_address (record screen { video = video })

-- A C string is the list of its characters before the terminating NUL, which the loop counts.
unfoldable pub write_string : List ℕ → Screen → Screen
write_string msg screen = write msg screen

unfoldable pub clear_lines : ℕ → Screen → Screen
clear_lines zero screen = screen
clear_lines (suc left) screen = clear_lines left (write_string (b'\n' ∷ []) screen)

unfoldable pub clear_screen : Screen → Screen
clear_screen screen = set_cursor 0 (clear_lines 25 (set_cursor 0 screen))
