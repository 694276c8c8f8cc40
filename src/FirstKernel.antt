-- ===== src/FirstKernel.antt =====
-- tutorials/tutorial7/kernel.c, the kernel before it could scroll: its screen functions and
-- `kmain`. `set_cursor`, `enable_keyboard` and the table of keyboard_map.h are the text of
-- tutorial8, and so are the words and the gate that `idt_init` and `load_keyboard` make. An address
-- is an unsigned int, and so are its double and the next one, which wrap. `kmain` is a run without
-- a keyboard interrupt.
pub mod Writing
pub mod Start
mod Examples
use Prim.Native.Nat.{bit_and, bit_or}
use cosc.Base.{
  ℕ, zero, suc, ◌+◌, ◌-◌, ◌*◌, ◌%◌, ◌^◌, List, [], ◌∷◌, ◌++◌, Option, none, some, leb, ◌==◌,
  if◌then◌else◌, get_elem?, set, u32,
}
use cosc.Console.{Video, Screen, store, set_cursor}
use cosc.Console.Keyboard.{keyboard_map}
use cosc.Kernel.{IdtEntry, idt_ptr, gate}

unfoldable pub write_char : ℕ → ℕ → ℕ → ℕ → Video → Video
write_char address c foreground background video =
    let colour = bit_or (bit_and background 0x0F * 2 ^ 4) (bit_and foreground 0x0F) in
    store (u32 (u32 (address * 2) + 1)) colour (store (u32 (address * 2)) c video)

-- The loop of `write`, over the characters left.
unfoldable pub write_all : List ℕ → ℕ × Video → ℕ × Video
unfolding write_char
write_all [] state = state
write_all (c ∷ msg) (current_address, video) = write_all msg (
    if c == b'\n'
    then (u32 (current_address + (80 - current_address % 80)), video)
    else if c == b'\t'
    then (u32 (current_address + (4 - current_address % 4)), video)
    else (u32 (current_address + 1), write_char current_address c 7 0 video))

unfoldable pub write : List ℕ → Screen → Screen
unfolding write_all
write msg screen =
    let (current_address, video) = write_all msg (screen.cursor_position, screen.video) in
    set_cursor current_address (record screen { video = video })

-- A C string is the list of its characters before the terminating NUL, which the loop counts.
unfoldable pub write_string : List ℕ → Screen → Screen
unfolding write
write_string msg screen = write msg screen

-- The loop of `clear_screen`, from cell `i` on, with the rounds left.
unfoldable pub clear_cells : ℕ → ℕ → Video → Video
unfolding write_char
clear_cells zero i video = video
clear_cells (suc left) i video = clear_cells left (i + 1) (write_char i b' ' 7 0 video)

unfoldable pub clear_screen : Screen → Screen
unfolding clear_cells
clear_screen screen =
    let first = set_cursor 0 screen in
    set_cursor 0 (record first { video = clear_cells (80 * 25) 0 first.video })

-- As in tutorial8, but for `write`: `none` is a read outside of `keyboard_map`.
unfoldable pub keyboard_handler_main : ℕ → ℕ → Screen → Option Screen
unfolding write
keyboard_handler_main status keycode screen =
    let acknowledged = record screen { ports = screen.ports ++ ((0x20, 0x20) ∷ []) } in
    if bit_and status 0x01 == 0
    then some acknowledged
    else if leb 128 keycode
    then some acknowledged
    else elim (get_elem? keyboard_map keycode) [
      | none ↦ none
      | some c ↦ some (write (c ∷ []) acknowledged)
    ]

-- `IDT`, what `load_idt` has been given, and the screen with the port log.
pub record Machine : Type 0 where
  pub idt : List IdtEntry
  pub loaded_idt : Option (ℕ × ℕ)
  pub screen : Screen

unfoldable pub out_ports : List (ℕ × ℕ) → Machine → Machine
out_ports writes m = record m { screen = record m.screen { ports = m.screen.ports ++ writes } }

unfoldable pub idt_init : ℕ → Machine → Machine
unfolding out_ports
idt_init idt_address m =
    let m' =
      out_ports
        ((0x20, 0x11)
          ∷ (0xA0, 0x11)
          ∷ (0x21, 0x20)
          ∷ (0xA1, 0x28)
          ∷ (0x21, 0x00)
          ∷ (0xA1, 0x00)
          ∷ (0x21, 0x01)
          ∷ (0xA1, 0x01)
          ∷ (0x21, 0xFF)
          ∷ (0xA1, 0xFF)
          ∷ [])
        m in
    record m' { loaded_idt = some (idt_ptr idt_address) }

unfoldable pub enable_keyboard : Machine → Machine
unfolding out_ports
enable_keyboard m = out_ports ((0x21, 0xFD) ∷ []) m

unfoldable pub load_keyboard : ℕ → Machine → Machine
load_keyboard keyboard_address m = record m { idt = set m.idt 0x21 (gate keyboard_address) }

-- `kmain` up to `enable_keyboard`, and the whole of it up to the endless loop.
unfoldable pub kmain_enabled : ℕ → Machine → Machine
unfolding idt_init clear_screen enable_keyboard
kmain_enabled idt_address m =
    let m1 = idt_init idt_address m in
    enable_keyboard (record m1 { screen = clear_screen m1.screen })

unfoldable pub kmain : ℕ → ℕ → Machine → Machine
unfolding kmain_enabled load_keyboard
kmain idt_address keyboard_address m = load_keyboard keyboard_address (kmain_enabled idt_address m)
