-- ===== src/HelloKernel/Shown.antt =====
-- What the first kernel shows.
use cosc.Base.{
  ℕ, zero, suc, ◌+◌, ◌*◌, ◌%◌, ◌<◌, ◌≤◌, ◌≡◌, ◌∙◌, refl, List, [], ◌∷◌, arith, ltb, leb, ◌&&◌, ◌==◌,
  if◌then◌else◌,
}
use cosc.Console.{Video, store}
use cosc.Kernel.{hello}
use cosc.HelloKernel.{clear_bytes, write_bytes, kmain}

-- Video memory with a text in bright green from cell `a` on.
abbrev pub green_at : List ℕ → ℕ → Video → Video
green_at [] a v x = v x
green_at (c ∷ str) a v x =
    if x == a * 2 then c else if x == a * 2 + 1 then 0x0a else green_at str (a + 1) v x

-- A black screen, and the memory behind it as it was.
abbrev pub black : Video → Video
black v x = if ltb x (80 * 25 * 2) then if x % 2 == 0 then b' ' else 0x00 else v x

clear_bytes_lem :
    (left i x : ℕ) (v : Video)
    → i % 2 ≡ 0
    → clear_bytes left i v x
      ≡ (if leb i x && ltb x (i + left * 2) then if x % 2 == 0 then b' ' else 0 else v x)
unfolding clear_bytes
clear_bytes_lem zero i x v even = ground arith
clear_bytes_lem (suc left) i x v even =
    ground (arith, clear_bytes_lem left (i + 2) x (store (i + 1) 0x00 (store i b' ' v)))

green_below : (str : List ℕ) (a x : ℕ) (v : Video) → x < a * 2 → green_at str a v x ≡ v x
green_below [] a x v h = refl
green_below (c ∷ str) a x v h = ground (arith, green_below str (a + 1) x v)

green_cong :
    (str : List ℕ) (a x : ℕ) (v w : Video) → v x ≡ w x → green_at str a v x ≡ green_at str a w x
green_cong [] a x v w e = e
green_cong (c ∷ str) a x v w e = ground (arith, green_cong str (a + 1) x v w e)

write_bytes_lem : (str : List ℕ) (a x : ℕ) (v : Video) → write_bytes str a v x ≡ green_at str a v x
unfolding write_bytes
write_bytes_lem [] a x v = refl
write_bytes_lem (c ∷ str) a x v =
    let w : Video = store (a * 2 + 1) 0x0a (store (a * 2) c v) in
    write_bytes_lem str (a + 1) x w
    ∙ ground (arith, green_below str (a + 1) x w, green_cong str (a + 1) x w v)

cleared : (x : ℕ) (v : Video) → clear_bytes (80 * 25) 0 v x ≡ black v x
cleared x v = clear_bytes_lem (80 * 25) 0 x v refl ∙ inside x v
  where
    inside :
        (x : ℕ) (v : Video)
        → (if leb 0 x && ltb x 4000 then if x % 2 == 0 then b' ' else 0 else v x) ≡ black v x
    inside x v = ground arith

-- `kmain` leaves the greeting in bright green at the start of the screen and black blanks in all
-- other cells, and it changes no memory behind the screen.
pub kmain-shows :
    (v : Video) (x : ℕ)
    → (kmain v x ≡ green_at hello 0 (black v) x) × (80 * 25 * 2 ≤ x → kmain v x ≡ v x)
unfolding kmain
kmain-shows v x =
    let shown : kmain v x ≡ green_at hello 0 (black v) x =
      write_bytes_lem hello 0 x (clear_bytes (80 * 25) 0 v)
      ∙ green_cong hello 0 x (clear_bytes (80 * 25) 0 v) (black v) (cleared x v) in
    (shown, λ behind. shown ∙ beyond behind)
  where
    beyond : 80 * 25 * 2 ≤ x → green_at hello 0 (black v) x ≡ v x
    beyond h = ground arith
