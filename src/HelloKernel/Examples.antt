-- ===== src/HelloKernel/Examples.antt =====
-- The second letter of the greeting.
use cosc.Base.{◌*◌, ◌≤◌, ◌≡◌}
use cosc.HelloKernel.{kmain}
use cosc.HelloKernel.Shown.{kmain-shows}

kmain-shows_example : (kmain (λ x. b'?') 2 ≡ b'e') × (80 * 25 * 2 ≤ 2 → kmain (λ x. b'?') 2 ≡ b'?')
kmain-shows_example = kmain-shows (λ x. b'?') 2
