-- ===== src/Kernel.antt =====
-- The rest of tutorials/tutorial8/kernel.c: the descriptor tables, the interrupt controllers and
-- `kmain` up to the call of the module that the boot loader has put in memory. Where the linker
-- puts `gdt`, `IDT` and `keyboard_handler` is a parameter. `gdt_flush` and `load_idt` are assembly:
-- what they are given is recorded. An unsigned long has 32 bits.
pub mod Fields
pub mod Start
mod Examples
use Prim.Native.Nat.{bit_and, bit_or}
use cosc.Base.{
  ℕ, ◌+◌, ◌-◌, ◌*◌, ◌/◌, ◌^◌, List, [], ◌∷◌, ◌++◌, Option, none, some, ◌==◌, if◌then◌else◌, set,
  replicate, u32,
}
use cosc.Console.{Screen, clear_screen, set_cursor, write_string}

pub record GdtEntry : Type 0 where
  pub limit_low : ℕ
  pub base_low : ℕ
  pub base_middle : ℕ
  pub access : ℕ
  pub granularity : ℕ
  pub base_high : ℕ

-- `struct gdt_ptr`.
pub record GdtPtr : Type 0 where
  pub limit : ℕ
  pub base : ℕ

pub record IdtEntry : Type 0 where
  pub offset_lowerbits : ℕ
  pub selector : ℕ
  pub zero : ℕ
  pub type_attr : ℕ
  pub offset_higherbits : ℕ

abbrev pub idt_size : ℕ
idt_size = 256

-- The two tables, `gp`, what the processor has been given by `lgdt` and `lidt`, and the screen with
-- the port log.
pub record Machine : Type 0 where
  pub gdt : List GdtEntry
  pub gp : GdtPtr
  pub idt : List IdtEntry
  pub loaded_gdt : Option GdtPtr
  pub loaded_idt : Option (ℕ × ℕ)
  pub screen : Screen

abbrev pub no_segment : GdtEntry
no_segment = record {
  limit_low = 0;
  base_low = 0;
  base_middle = 0;
  access = 0;
  granularity = 0;
  base_high = 0;
}

abbrev pub no_gate : IdtEntry
no_gate = record {
  offset_lowerbits = 0;
  selector = 0;
  zero = 0;
  type_attr = 0;
  offset_higherbits = 0;
}

-- What `gdt_set` puts in the entry.
unfoldable pub segment : ℕ → ℕ → ℕ → ℕ → GdtEntry
segment base limit access gran = record {
  limit_low = bit_and limit 0xFFFF;
  base_low = bit_and base 0xFFFF;
  base_middle = bit_and (base / 2 ^ 16) 0xFF;
  access = access;
  granularity = bit_or (bit_and (limit / 2 ^ 16) 0x0F) (bit_and gran 0xF0);
  base_high = bit_and (base / 2 ^ 24) 0xFF;
}

unfoldable pub gdt_set : ℕ → ℕ → ℕ → ℕ → ℕ → List GdtEntry → List GdtEntry
gdt_set num base limit access gran gdt = set gdt num (segment base limit access gran)

-- `gdt_address` is `&gdt`; an entry has 8 bytes.
unfoldable pub load_gdt : ℕ → Machine → Machine
unfolding gdt_set
load_gdt gdt_address m =
    let gp : GdtPtr = record { limit = 8 * 5 - 1; base = gdt_address } in
    let gdt0 = gdt_set 0 0 0 0 0 m.gdt in
    let gdt1 = gdt_set 1 0 0xFFFFFFFF 0x9A 0xCF gdt0 in
    let gdt2 = gdt_set 2 0 0xFFFFFFFF 0x92 0xCF gdt1 in
    let gdt3 = gdt_set 3 0 0xFFFFFFFF 0xFA 0xCF gdt2 in
    let gdt4 = gdt_set 4 0 0xFFFFFFFF 0xF2 0xCF gdt3 in
    record m { gp = gp; gdt = gdt4; loaded_gdt = some gp }

unfoldable pub out_port : ℕ → ℕ → Machine → Machine
out_port io_port value m = record m {
  screen = record m.screen { ports = m.screen.ports ++ ((io_port, value) ∷ []) };
}

-- The words that `load_idt` is given: `idt_address` is `IDT`, and an entry has 8 bytes.
unfoldable pub idt_ptr : ℕ → ℕ × ℕ
idt_ptr idt_address =
    (u32 (8 * idt_size + u32 (bit_and idt_address 0xffff * 2 ^ 16)), idt_address / 2 ^ 16)

unfoldable pub idt_init : ℕ → Machine → Machine
unfolding out_port idt_ptr
idt_init idt_address m =
    let icw1 = out_port 0xA0 0x11 (out_port 0x20 0x11 m) in
    let icw2 = out_port 0xA1 0x28 (out_port 0x21 0x20 icw1) in
    let icw3 = out_port 0xA1 0x00 (out_port 0x21 0x00 icw2) in
    let icw4 = out_port 0xA1 0x01 (out_port 0x21 0x01 icw3) in
    let masked = out_port 0xA1 0xFF (out_port 0x21 0xFF icw4) in
    record masked { loaded_idt = some (idt_ptr idt_address) }

-- The gate of the keyboard interrupt.
unfoldable pub gate : ℕ → IdtEntry
gate keyboard_address = record {
  offset_lowerbits = bit_and keyboard_address 0xffff;
  selector = 0x08;
  zero = 0;
  type_attr = 0x8e;
  offset_higherbits = bit_and keyboard_address 0xffff0000 / 2 ^ 16;
}

unfoldable pub load_keyboard : ℕ → Machine → Machine
unfolding gate
load_keyboard keyboard_address m = record m { idt = set m.idt 0x21 (gate keyboard_address) }

unfoldable pub enable_keyboard : Machine → Machine
unfolding out_port
enable_keyboard m = out_port 0x21 0xFD m

abbrev pub hello : List ℕ
hello = b'H' ∷ b'e' ∷ b'l' ∷ b'l' ∷ b'o' ∷ b' ' ∷ b'W' ∷ b'o' ∷ b'r' ∷ b'l' ∷ b'd' ∷ b'!' ∷ []

-- `kmain` before the module is called, in a run without a keyboard interrupt: from `load_idt` on,
-- which executes `sti`, one could come between any two accesses to the screen.
unfoldable pub kmain : ℕ → ℕ → ℕ → Machine → Machine
unfolding load_gdt load_keyboard idt_init enable_keyboard
kmain gdt_address idt_address keyboard_address m =
    let m1 = load_gdt gdt_address m in
    let m2 = load_keyboard keyboard_address m1 in
    let m3 = idt_init idt_address m2 in
    let m4 = enable_keyboard m3 in
    record m4 { screen = write_string hello (set_cursor (80 * 12 + 33) (clear_screen m4.screen)) }

-- The tables as the program starts, with any screen.
abbrev pub start : Screen → Machine
start screen = record {
  gdt = replicate 5 no_segment;
  gp = record { limit = 0; base = 0 };
  idt = replicate idt_size no_gate;
  loaded_gdt = none;
  loaded_idt = none;
  screen = screen;
}
