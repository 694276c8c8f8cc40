-- ===== src/FirstKernel/Examples.antt =====
-- The first kernel at concrete inputs.
use cosc.Base.{
  ℕ, ◌*◌, ◌%◌, ◌<◌, ◌≤◌, ◌≡◌, ◌≢◌, ◌⊎◌, [], ◌∷◌, some, ◌==◌, if◌then◌else◌, get_elem?, arith,
}
use cosc.Console.{Screen}
use cosc.Kernel.{no_gate, gate, idt_ptr}
use cosc.Kernel.Start.{last_value}
use cosc.FirstKernel.{write, kmain_enabled, kmain}
use cosc.FirstKernel.Writing.{write-region}
use cosc.FirstKernel.Start.{start, kmain_enabled_lem}

-- The cursor behind the last cell.
abbrev behind : Screen
behind = record { video = λ x. b'!'; cursor_position = 2000; ports = [] }

write-region_example :
    (2000 ≤ (write (b'a' ∷ b'\n' ∷ []) behind).cursor_position)
    × ((x : ℕ)
        → (x < 2000 * 2) ⊎ ((write (b'a' ∷ b'\n' ∷ []) behind).cursor_position * 2 ≤ x)
        → (write (b'a' ∷ b'\n' ∷ []) behind).video x ≡ b'!')
    × ((c : ℕ)
        → (c ≢ b'\n') × (c ≢ b'\t')
        → 80 * 25 ≤ 2000
        → ((write (c ∷ []) behind).video (2000 * 2) ≡ c)
          × ((x : ℕ) → x < 80 * 25 * 2 → (write (c ∷ []) behind).video x ≡ b'!'))
write-region_example = write-region (b'a' ∷ b'\n' ∷ []) behind (omega arith)

kmain_enabled_lem_example :
    let m = kmain_enabled 0x00102040 (start behind) in
    (m.loaded_idt ≡ some (idt_ptr 0x00102040))
    × ((old : ℕ) → last_value 0x21 m.screen.ports old ≡ 0xFD)
    × (get_elem? m.idt 0x21 ≡ some no_gate)
    × (m.screen.cursor_position ≡ 0)
    × ((x : ℕ) → x < 80 * 25 * 2 → m.screen.video x ≡ (if x % 2 == 0 then b' ' else 7))
    × (get_elem? (kmain 0x00102040 0x00101234 (start behind)).idt 0x21 ≡ some (gate 0x00101234))
kmain_enabled_lem_example = kmain_enabled_lem 0x00102040 0x00101234 behind
