-- ===== src/Kernel/Start.antt =====
-- The machine when `kmain` calls the module.
use cosc.Base.{
  ℕ, ◌/◌, ◌%◌, ◌<◌, ◌≡◌, refl, List, [], ◌∷◌, ◌++◌, some, false, get_elem?, arith, ◌==◌,
  if◌then◌else◌, ◌∙◌,
}
use cosc.Console.{Screen, set_cursor}
use cosc.Kernel.{GdtEntry, IdtEntry, Machine}
use cosc.Kernel.Fields.{base_of, limit_of, flags_of, offset_of}

-- What the processor finds for the keyboard interrupt: the gate, and the segment that it names,
-- of `0xFFFFF + 1` units of 4 KB, with code for ring 0.
pub record HandlesKeyboard (m : Machine) (keyboard_address : ℕ) : Type 0 where
  pub entry : IdtEntry
  pub code : GdtEntry
  pub found : get_elem? m.idt 0x21 ≡ some entry
  pub leads : offset_of entry ≡ keyboard_address
  pub present : entry.type_attr ≡ 0x8e
  pub selected : get_elem? m.gdt (entry.selector / 8) ≡ some code
  pub base : base_of code ≡ 0
  pub limit : limit_of code ≡ 0xFFFFF
  pub pages_and_32_bits : flags_of code ≡ 0xC
  pub code_of_ring_0 : code.access ≡ 0x9A

-- The value that was last written to a port, or `old`.
abbrev pub last_value : ℕ → List (ℕ × ℕ) → ℕ → ℕ
last_value port [] old = old
last_value port ((q, value) ∷ log) old = last_value port log (if q == port then value else old)

pub last_value-append :
    (port : ℕ) (log more : List (ℕ × ℕ)) (old : ℕ)
    → last_value port (log ++ more) old ≡ last_value port more (last_value port log old)
last_value-append port [] more old = refl
last_value-append port ((q, value) ∷ log) more old =
    last_value-append port log more (if q == port then value else old)

-- A port of an interrupt controller, none of the screen's.
abbrev IsController : ℕ → Type 0
IsController port = port < 0x3D4

pub set_cursor_keeps :
    (port address : ℕ) (s : Screen) (old : ℕ)
    → IsController port
    → last_value port (set_cursor address s).ports old ≡ last_value port s.ports old
unfolding set_cursor
set_cursor_keeps port address s old h =
    let high : (0x3D4 == port) ≡ false = ground arith in
    let low : (0x3D5 == port) ≡ false = ground arith in
    last_value-append port s.ports _ old ∙ rw (high, low) refl

abbrev blank : ℕ → ℕ
blank x = if x % 2 == 0 then b' ' else 7
