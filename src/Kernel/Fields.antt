-- ===== src/Kernel/Fields.antt =====
-- The fields that addresses and sizes are split into, put together again as the processor does.
use Prim.Native.Nat.{bit_and, bit_or}
use cosc.Base.{
  ℕ, zero, suc, ◌+◌, ◌*◌, ◌/◌, ◌%◌, ◌^◌, ◌<◌, ◌≡◌, ◌≢◌, refl, List, [], ◌∷◌, some, set, get_elem?,
  length, arith, ap,
}
use cosc.Base.Bits.{mask_4, mask_8, mask_16, mask_high_4, mask_high_16, bit_or_fields}
use cosc.Kernel.{GdtEntry, IdtEntry, segment, gdt_set, idt_ptr, idt_size, gate}

-- How the processor reads a segment descriptor: its base, its limit, and its flags.
abbrev pub base_of : GdtEntry → ℕ
base_of e = e.base_low + e.base_middle * 2 ^ 16 + e.base_high * 2 ^ 24

abbrev pub limit_of : GdtEntry → ℕ
limit_of e = e.limit_low + e.granularity % 2 ^ 4 * 2 ^ 16

abbrev pub flags_of : GdtEntry → ℕ
flags_of e = e.granularity / 2 ^ 4

-- How it reads an interrupt gate, and the two words that `lidt` is given: the limit is the low half
-- of the first, and the base the six bytes' other four.
abbrev pub offset_of : IdtEntry → ℕ
offset_of e = e.offset_lowerbits + e.offset_higherbits * 2 ^ 16

abbrev pub table_limit : ℕ × ℕ → ℕ
table_limit (w, v) = w % 2 ^ 16

abbrev pub table_base : ℕ × ℕ → ℕ
table_base (w, v) = w / 2 ^ 16 + v % 2 ^ 16 * 2 ^ 16

segment_granularity :
    (limit gran : ℕ)
    → bit_or (bit_and (limit / 2 ^ 16) 0x0F) (bit_and gran 0xF0)
      ≡ limit / 2 ^ 16 % 2 ^ 4 + gran / 2 ^ 4 % 2 ^ 4 * 2 ^ 4
segment_granularity limit gran =
    rw (mask_4 (limit / 2 ^ 16), mask_high_4 gran)
      (bit_or_fields (limit / 2 ^ 16) (gran / 2 ^ 4 % 2 ^ 4))

get_elem?-set :
    {A : Type 0} (l : List A) (i j : ℕ) (v : A)
    → i < length l
    → (get_elem? (set l i v) i ≡ some v) × (i ≢ j → get_elem? (set l i v) j ≡ get_elem? l j)
get_elem?-set [] i j v h = absurd (omega arith)
get_elem?-set (x ∷ l) zero zero v h = (refl, λ ne. absurd (ne refl))
get_elem?-set (x ∷ l) zero (suc j) v h = (refl, λ ne. refl)
get_elem?-set (x ∷ l) (suc i) zero v h = ((get_elem?-set l i zero v (omega arith)).0, λ ne. refl)
get_elem?-set (x ∷ l) (suc i) (suc j) v h =
    let r = get_elem?-set l i j v (omega arith) in (r.0, λ ne. r.1 (λ e. ne (ap suc e)))

-- What the processor reads from an entry that `gdt_set` has written is the base, the low 20 bits of
-- the limit, the high half of the granularity byte and the access byte that it was given; the other
-- entries are as before.
pub gdt_set_lem :
    (num base limit access gran j : ℕ) (gdt : List GdtEntry)
    → num < length gdt
    → base < 2 ^ 32
    → gran < 2 ^ 8
    → (e : GdtEntry) × (get_elem? (gdt_set num base limit access gran gdt) num ≡ some e)
      × (base_of e ≡ base)
      × (limit_of e ≡ limit % 2 ^ 20)
      × (flags_of e ≡ gran / 2 ^ 4)
      × (e.access ≡ access)
      × (num ≢ j → get_elem? (gdt_set num base limit access gran gdt) j ≡ get_elem? gdt j)
unfolding gdt_set segment
gdt_set_lem num base limit access gran j gdt inside b g =
    let r = get_elem?-set gdt num j (segment base limit access gran) inside in
    (
      segment base limit access gran,
      r.0,
      omega (arith, mask_16 base, mask_8 (base / 2 ^ 16), mask_8 (base / 2 ^ 24)),
      omega (arith, mask_16 limit, segment_granularity limit gran),
      omega (arith, segment_granularity limit gran),
      refl,
      r.1,
    )

-- The gate of the keyboard interrupt leads to the handler.
pub gate-offset_of : (a : ℕ) → a < 2 ^ 32 → offset_of (gate a) ≡ a
unfolding gate
gate-offset_of a h = omega (arith, mask_16 a, mask_high_16 a)

-- The words for `lidt` have the address of the table; the limit is its size in bytes, one more than
-- the last byte's offset.
pub idt_ptr_lem :
    (a : ℕ) → a < 2 ^ 32 → (table_base (idt_ptr a) ≡ a) × (table_limit (idt_ptr a) ≡ 8 * idt_size)
unfolding idt_ptr
idt_ptr_lem a h = omega (arith, mask_16 a)
