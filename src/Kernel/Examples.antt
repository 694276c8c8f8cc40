-- ===== src/Kernel/Examples.antt =====
-- The tables at concrete addresses.
use cosc.Base.{ℕ, ◌≡◌, ◌≢◌, [], some, get_elem?, replicate, arith}
use cosc.Console.{Screen}
use cosc.Kernel.{GdtEntry, no_segment, gdt_set}
use cosc.Kernel.Fields.{base_of, limit_of, flags_of, gdt_set_lem}

abbrev screen : Screen
screen = record { video = λ x. b'!'; cursor_position = 0; ports = [] }

gdt_set_lem_example :
    (e : GdtEntry) × (get_elem? (gdt_set 2 0x12345678 0xABCDE 0x92 0xCF (replicate 5 no_segment)) 2
      ≡ some e)
    × (base_of e ≡ 0x12345678)
    × (limit_of e ≡ 0xABCDE)
    × (flags_of e ≡ 0xC)
    × (e.access ≡ 0x92)
    × (◌≢◌ {A = ℕ} 2 3
        → get_elem? (gdt_set 2 0x12345678 0xABCDE 0x92 0xCF (replicate 5 no_segment)) 3
          ≡ get_elem? (replicate 5 no_segment) 3)
gdt_set_lem_example =
    gdt_set_lem 2 0x12345678 0xABCDE 0x92 0xCF 3 (replicate 5 no_segment) (omega arith)
      (omega arith) (omega arith)
