-- ===== src/Console/Scrolling.antt =====
-- Scrolling, which copies in place.
use cosc.Base.{ℕ, zero, suc, ◌+◌, ◌*◌, ◌%◌, ◌≡◌, arith, ◌&&◌, ltb, leb, if◌then◌else◌}
use cosc.Console.{Video, store, move_up, blank_last, scroll_up}
use cosc.Console.Cells.{blank_at, blanked}

-- The loop reads each byte before it is overwritten.
move_up_lem :
    (k j x : ℕ) (v : Video)
    → move_up k j v x ≡ (if leb j x && ltb x (j + k) then v (x + 160) else v x)
unfolding move_up
move_up_lem zero j x v = ground arith
move_up_lem (suc k) j x v = ground (arith, move_up_lem k (j + 1) x (store j (v (j + 80 * 2)) v))

blank_last_lem :
    (k j x : ℕ) (v : Video)
    → j % 2 ≡ 0
    → blank_last k j v x ≡ blanked (3840 + j) (3840 + j + k * 2) v x
unfolding blank_last
blank_last_lem zero j x v e = ground arith
blank_last_lem (suc k) j x v e = ground (
  arith,
  blank_last_lem k (j + 2) x (store (80 * 24 * 2 + j + 1) 0x7 (store (80 * 24 * 2 + j) b' ' v)),
)

-- After scrolling, the byte at each offset of the first 24 lines is the one that stood 160 bytes,
-- a line, further on; the last line is blank; and no byte behind the screen has changed.
pub scroll_up_lem :
    (v : Video) (x : ℕ)
    → scroll_up v x ≡ (if ltb x 3840 then v (x + 160) else if ltb x 4000 then blank_at x else v x)
unfolding scroll_up
scroll_up_lem v x =
    ground (arith, blank_last_lem 80 0 x (move_up (80 * 24 * 2) 0 v), move_up_lem 3840 0 x v)
