-- ===== src/Console/Cells.antt =====
-- What a run of written spaces leaves in video memory.
use cosc.Base.{
  ℕ, zero, suc, ◌+◌, ◌*◌, ◌%◌, ◌≤◌, ◌<◌, ◌≡◌, arith, ◌&&◌, ltb, leb, ◌==◌, if◌then◌else◌,
}
use cosc.Console.{Video, write_char, fill_line, fill_tab}

-- Offsets from `lo` up to `hi` hold blank cells: a space at even offsets, colour 7 at odd ones.
abbrev pub blank_at : ℕ → ℕ
blank_at x = if x % 2 == 0 then b' ' else 7

-- `video` with blank cells from offset `lo` up to `hi`.
abbrev pub blanked : ℕ → ℕ → Video → Video
blanked lo hi video x = if leb lo x && ltb x hi then blank_at x else video x

pub write_char_blank :
    (a x : ℕ) (v : Video) → a ≤ 2000 → write_char a b' ' 7 0 v x ≡ blanked (a * 2) (a * 2 + 2) v x
unfolding write_char
write_char_blank a x v h = ground arith

pub fill_tab_lem :
    (k a x : ℕ) (v : Video)
    → a + k ≤ 2000
    → (fill_tab k a v).1 x ≡ blanked (a * 2) ((a + k) * 2) v x
unfolding fill_tab
fill_tab_lem zero a x v h = ground arith
fill_tab_lem (suc k) a x v h =
    ground (arith, fill_tab_lem k (a + 1) x (write_char a b' ' 7 0 v), write_char_blank a x v)

pub fill_tab-address : (k a : ℕ) (v : Video) → (fill_tab k a v).0 ≡ a + k
unfolding fill_tab
fill_tab-address zero a v = omega arith
fill_tab-address (suc k) a v = omega (arith, fill_tab-address k (a + 1) (write_char a b' ' 7 0 v))

-- The loop for a newline stops at the end of the line.
pub fill_line-eq-fill_tab :
    (fuel k a : ℕ) (v : Video)
    → k ≤ fuel
    → 0 < k
    → k ≤ 80
    → (a + k) % 80 ≡ 0
    → fill_line fuel a v ≡ fill_tab k a v
unfolding fill_line fill_tab
fill_line-eq-fill_tab zero k a v f p q e = absurd (omega arith)
fill_line-eq-fill_tab (suc fuel) zero a v f p q e = absurd (omega arith)
fill_line-eq-fill_tab (suc fuel) (suc zero) a v f p q e = ground arith
fill_line-eq-fill_tab (suc fuel) (suc (suc k)) a v f p q e =
    ground (arith, fill_line-eq-fill_tab fuel (suc k) (a + 1) (write_char a b' ' 7 0 v))
