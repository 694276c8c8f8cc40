-- ===== src/Console/Keyboard.antt =====
-- `keyboard_handler_main` of tutorials/tutorial8/kernel.c, and the table of
-- tutorials/tutorial8/keyboard_map.h. `in_port` is assembly: what it returns is an argument.
use Prim.Native.Nat.{bit_and}
use cosc.Base.{
  ℕ, zero, suc, ◌*◌, ◌<◌, ◌≡◌, refl, List, [], ◌∷◌, ◌++◌, Option, none, some, leb, ◌==◌,
  if◌then◌else◌, get_elem?, length, arith, replicate, Bool-cases, inl, inr,
}
use cosc.Console.{Screen, write}
use cosc.Console.Writing.{write-cursor}

-- What the table lists, in ASCII: 8 is a backspace, 27 an escape, 39 a single quote and 92 a
-- backslash. The other elements of the array are 0.
unfoldable pub keyboard_map : List ℕ
keyboard_map =
    0
    ∷ 27
    ∷ b'1'
    ∷ b'2'
    ∷ b'3'
    ∷ b'4'
    ∷ b'5'
    ∷ b'6'
    ∷ b'7'
    ∷ b'8'
    ∷ b'9'
    ∷ b'0'
    ∷ b'-'
    ∷ b'='
    ∷ 8
    ∷ b'\t'
    ∷ b'q'
    ∷ b'w'
    ∷ b'e'
    ∷ b'r'
    ∷ b't'
    ∷ b'y'
    ∷ b'u'
    ∷ b'i'
    ∷ b'o'
    ∷ b'p'
    ∷ b'['
    ∷ b']'
    ∷ b'\n'
    ∷ 0
    ∷ b'a'
    ∷ b's'
    ∷ b'd'
    ∷ b'f'
    ∷ b'g'
    ∷ b'h'
    ∷ b'j'
    ∷ b'k'
    ∷ b'l'
    ∷ b';'
    ∷ 39
    ∷ b'`'
    ∷ 0
    ∷ 92
    ∷ b'z'
    ∷ b'x'
    ∷ b'c'
    ∷ b'v'
    ∷ b'b'
    ∷ b'n'
    ∷ b'm'
    ∷ b','
    ∷ b'.'
    ∷ b'/'
    ∷ 0
    ∷ b'*'
    ∷ 0
    ∷ b' '
    ∷ 0
    ∷ 0
    ∷ 0
    ∷ 0
    ∷ 0
    ∷ 0
    ∷ 0
    ∷ 0
    ∷ 0
    ∷ 0
    ∷ 0
    ∷ 0
    ∷ 0
    ∷ 0
    ∷ 0
    ∷ 0
    ∷ b'-'
    ∷ 0
    ∷ 0
    ∷ 0
    ∷ b'+'
    ∷ 0
    ∷ 0
    ∷ 0
    ∷ 0
    ∷ 0
    ∷ 0
    ∷ 0
    ∷ 0
    ∷ 0
    ∷ 0
    ∷ 0
    ∷ replicate 38 0

-- `status` and `keycode` are what the ports 0x64 and 0x60 give; a keycode from 128 on is negative
-- as a `char`. A read outside the table gives `none`.
unfoldable pub keyboard_handler_main : ℕ → ℕ → Screen → Option Screen
keyboard_handler_main status keycode screen =
    let acknowledged = record screen { ports = screen.ports ++ (0x20, 0x20) ∷ [] } in
    if bit_and status 0x01 == 0
    then some acknowledged
    else if leb 128 keycode
    then some acknowledged
    else elim (get_elem? keyboard_map keycode) [
      | none ↦ none
      | some c ↦ some (write (c ∷ []) acknowledged)
    ]

get_elem?-below {ℓ} :
    {A : Type ℓ} (xs : List A) (i : ℕ) → i < length xs → (a : A) × (get_elem? xs i ≡ some a)
get_elem?-below [] i h = absurd (omega arith)
get_elem?-below (x ∷ xs) zero h = (x, refl)
get_elem?-below (x ∷ xs) (suc i) h = get_elem?-below xs i (omega arith)

keyboard_map-length : length keyboard_map ≡ 128
unfolding keyboard_map
keyboard_map-length = refl

-- From a cursor on the screen the keyboard handler reads no element outside `keyboard_map`,
-- whatever the ports give, and leaves the cursor on the screen.
pub keyboard_handler_main_lem :
    (status keycode : ℕ) (s : Screen)
    → s.cursor_position < 80 * 25
    → (s' : Screen) × (keyboard_handler_main status keycode s ≡ some s')
      × (s'.cursor_position < 80 * 25)
unfolding keyboard_handler_main
keyboard_handler_main_lem status keycode s h =
    let acknowledged : Screen = record s { ports = s.ports ++ (0x20, 0x20) ∷ [] } in
    elim (Bool-cases (bit_and status 0x01 == 0)) [
      | inl e ↦ (acknowledged, rw e refl, h)
      | inr e ↦ elim (Bool-cases (leb 128 keycode)) [
        | inl r ↦ (acknowledged, rw (e, r) refl, h)
        | inr r ↦
            let (c, found) =
              get_elem?-below keyboard_map keycode (ground (arith, keyboard_map-length)) in
            (
              write (c ∷ []) acknowledged,
              rw (e, r, found) refl,
              write-cursor (c ∷ []) acknowledged h,
            )
      ]
    ]
