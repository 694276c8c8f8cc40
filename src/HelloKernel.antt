-- ===== src/HelloKernel.antt =====
-- tutorials/tutorial6/kernel.c, the first kernel: it blanks the screen and writes a greeting. Its
-- second loop reads the text up to the NUL, here the end of the list.
pub mod Shown
mod Examples
use cosc.Base.{ℕ, zero, suc, ◌+◌, ◌*◌, List, [], ◌∷◌}
use cosc.Console.{Video, store}
use cosc.Kernel.{hello}

-- The first loop, from byte `i` on, with the rounds left.
unfoldable pub clear_bytes : ℕ → ℕ → Video → Video
clear_bytes zero i video = video
clear_bytes (suc left) i video = clear_bytes left (i + 2) (store (i + 1) 0x00 (store i b' ' video))

-- The second loop, from character `i` on.
unfoldable pub write_bytes : List ℕ → ℕ → Video → Video
write_bytes [] i video = video
write_bytes (c ∷ str) i video =
    write_bytes str (i + 1) (store (i * 2 + 1) 0x0a (store (i * 2) c video))

unfoldable pub kmain : Video → Video
unfolding clear_bytes write_bytes
kmain video = write_bytes hello 0 (clear_bytes (80 * 25) 0 video)
