-- ===== src/FirstKernel/Start.antt =====
-- The screen and the interrupts when `kmain` of tutorial7 runs.
use cosc.Base.{
  ℕ, zero, suc, ◌+◌, ◌*◌, ◌%◌, ◌<◌, ◌≤◌, ◌≡◌, refl, none, some, replicate, arith, ◌==◌,
  if◌then◌else◌, ltb, leb, ◌&&◌, get_elem?, ◌∙◌,
}
use cosc.Console.{Video, Screen, set_cursor}
use cosc.Console.Cells.{blank_at}
use cosc.Kernel.{no_gate, gate, idt_ptr}
use cosc.Kernel.Start.{last_value, last_value-append}
use cosc.FirstKernel.{
  write_char, clear_cells, clear_screen, Machine, out_ports, idt_init, enable_keyboard,
  load_keyboard, kmain_enabled, kmain,
}

clear_cells_blank :
    (left i x : ℕ) (v : Video)
    → i + left ≤ 80 * 25
    → clear_cells left i v x ≡ (if leb (i * 2) x && ltb x ((i + left) * 2) then blank_at x else v x)
unfolding clear_cells write_char
clear_cells_blank zero i x v h = ground arith
clear_cells_blank (suc left) i x v h =
    ground (arith, clear_cells_blank left (i + 1) x (write_char i b' ' 7 0 v))

inside :
    (x : ℕ) (v : Video)
    → x < 4000
    → (if leb 0 x && ltb x 4000 then blank_at x else v x) ≡ (if x % 2 == 0 then b' ' else 7)
inside x v h = ground arith

cells_blank :
    (x : ℕ) (v : Video)
    → x < 80 * 25 * 2
    → clear_cells (80 * 25) 0 v x ≡ (if x % 2 == 0 then b' ' else 7)
cells_blank x v h = clear_cells_blank (80 * 25) 0 x v (omega arith) ∙ inside x v h

abbrev pub start : Screen → Machine
start screen = record { idt = replicate 256 no_gate; loaded_idt = none; screen = screen }

-- In a run without a keyboard interrupt, `kmain` clears the screen, but it unmasks the keyboard
-- interrupt, in a processor that has been given the table, while the entry of that interrupt still
-- is the empty one; only at the end of `kmain` is it the gate that leads to the handler.
pub kmain_enabled_lem :
    (idt_address keyboard_address : ℕ) (s : Screen)
    → let m = kmain_enabled idt_address (start s) in
      (m.loaded_idt ≡ some (idt_ptr idt_address))
      × ((old : ℕ) → last_value 0x21 m.screen.ports old ≡ 0xFD)
      × (get_elem? m.idt 0x21 ≡ some no_gate)
      × (m.screen.cursor_position ≡ 0)
      × ((x : ℕ) → x < 80 * 25 * 2 → m.screen.video x ≡ (if x % 2 == 0 then b' ' else 7))
      × (get_elem? (kmain idt_address keyboard_address (start s)).idt 0x21
          ≡ some (gate keyboard_address))
unfolding gate kmain kmain_enabled load_keyboard idt_init enable_keyboard out_ports clear_screen
    set_cursor
kmain_enabled_lem i k s =
    (refl, λ old. simp last_value-append, refl, refl, λ x h. cells_blank x s.video h, refl)
