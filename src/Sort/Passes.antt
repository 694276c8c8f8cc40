-- ===== src/Sort/Passes.antt =====
-- A round of the outer loop of tutorials/tutorial5/sort.c.
use cosc.Base.{
  ℕ, zero, suc, ◌+◌, ◌≡◌, refl, Bool, true, false, List, [], ◌∷◌, ◌++◌, some, if◌then◌else◌,
  get_elem?, set, length, total, All, arith, Bool-cases, inl, inr, ap, ◌∙◌, sym, length-append,
}
use cosc.Sort.{exchange, inner_loop}

-- The test is that of a total order.
pub record IsOrder {A : Type 0} (greater : A → A → Bool) : Type 0 where
  pub asym : (x y : A) → greater x y ≡ true → greater y x ≡ false
  pub trans : (x y z : A) → greater x y ≡ false → greater y z ≡ false → greater x z ≡ false

module _ {A : Type 0} where
  get_elem?-at :
      (before after : List A) (x : A) (i : ℕ)
      → i ≡ length before
      → get_elem? (before ++ x ∷ after) i ≡ some x
  get_elem?-at [] after x zero e = refl
  get_elem?-at [] after x (suc i) e = absurd (omega arith)
  get_elem?-at (b ∷ before) after x zero e = absurd (omega arith)
  get_elem?-at (b ∷ before) after x (suc i) e = get_elem?-at before after x i (omega arith)

  set-at :
      (before after : List A) (x v : A) (i : ℕ)
      → i ≡ length before
      → set (before ++ x ∷ after) i v ≡ before ++ v ∷ after
  set-at [] after x v zero e = refl
  set-at [] after x v (suc i) e = absurd (omega arith)
  set-at (b ∷ before) after x v zero e = absurd (omega arith)
  set-at (b ∷ before) after x v (suc i) e =
      ap (λ l. b ∷ l) (set-at before after x v i (omega arith))

  pub append-cons :
      (before after : List A) (x : A) → (before ++ x ∷ []) ++ after ≡ before ++ x ∷ after
  append-cons [] after x = refl
  append-cons (b ∷ before) after x = ap (λ l. b ∷ l) (append-cons before after x)

  append_assoc : (xs ys zs : List A) → (xs ++ ys) ++ zs ≡ xs ++ (ys ++ zs)
  append_assoc [] ys zs = refl
  append_assoc (x ∷ xs) ys zs = ap (λ l. x ∷ l) (append_assoc xs ys zs)

module _ {A : Type 0} (greater : A → A → Bool) where
  -- What a round makes of the front element and the elements behind it.
  abbrev pub pass : A → List A → A × List A
  pass x [] = (x, [])
  pass x (y ∷ ys) =
      let swapped = pass y ys in
      let kept = pass x ys in
      if greater x y then (swapped.0, x ∷ swapped.1) else (kept.0, y ∷ kept.1)

  exchange_lem :
      (before between after : List A) (x y : A) (i j : ℕ)
      → i ≡ length before
      → j ≡ length before + suc (length between)
      → exchange greater i j (before ++ (x ∷ (between ++ (y ∷ after))))
        ≡ some (
            if greater x y
            then before ++ (y ∷ (between ++ (x ∷ after)))
            else before ++ (x ∷ (between ++ (y ∷ after))))
  unfolding exchange
  exchange_lem before between after x y i j ei ej =
      let at : (a b : A)
          → before ++ (a ∷ (between ++ (b ∷ after))) ≡ (before ++ (a ∷ between)) ++ (b ∷ after) =
        λ a b. sym (append_assoc before (a ∷ between) (b ∷ after)) in
      let second : get_elem? (before ++ (x ∷ (between ++ (y ∷ after)))) j ≡ some y =
        ap (λ l. get_elem? l j) (at x y)
        ∙ get_elem?-at (before ++ (x ∷ between)) after y j
            (omega (arith, length-append before (x ∷ between))) in
      let written : set (set (before ++ (x ∷ (between ++ (y ∷ after)))) i y) j x
          ≡ before ++ (y ∷ (between ++ (x ∷ after))) =
        ap (λ l. set l j x) (set-at before _ x y i ei ∙ at y y)
        ∙ set-at (before ++ (y ∷ between)) after y x j
            (omega (arith, length-append before (y ∷ between)))
        ∙ sym (at y x) in
      rw (exchange, get_elem?-at before (between ++ (y ∷ after)) x i ei, second, written) refl

  pub inner_loop_lem :
      (before between ys : List A) (x : A) (i j : ℕ)
      → i ≡ length before
      → j ≡ length before + suc (length between)
      → inner_loop greater (length ys) i j (before ++ (x ∷ (between ++ ys)))
        ≡ some (before ++ ((pass x ys).0 ∷ (between ++ (pass x ys).1)))
  unfolding inner_loop
  inner_loop_lem before between [] x i j ei ej = refl
  inner_loop_lem before between (y ∷ ys) x i j ei ej =
      let next : (a b : A)
          → inner_loop greater (length ys) i (j + 1) (before ++ (a ∷ (between ++ (b ∷ ys))))
            ≡ some (before ++ ((pass a ys).0 ∷ (between ++ (b ∷ (pass a ys).1)))) =
        λ a b.
          ap (λ l. inner_loop greater (length ys) i (j + 1) (before ++ (a ∷ l)))
            (sym (append-cons between ys b))
          ∙ inner_loop_lem before (between ++ b ∷ []) ys a i (j + 1) ei
              (omega (arith, length-append between (b ∷ [])))
          ∙ ap (λ l. some (before ++ ((pass a ys).0 ∷ l))) (append-cons between (pass a ys).1 b) in
      elim (Bool-cases (greater x y)) [
        | inl g ↦ rw (inner_loop, exchange_lem before between ys x y i j ei ej, g) (next y x)
        | inr g ↦ rw (inner_loop, exchange_lem before between ys x y i j ei ej, g) (next x y)
      ]

  -- The first element of a pass is the least of all, and nothing is lost.
  pub record Selects (x : A) (ys : List A) (r : A × List A) : Type 0 where
    pub below : greater r.0 x ≡ false
    pub least : All (λ z. greater r.0 z ≡ false) r.1
    pub same : (w : A → ℕ) → w r.0 + total w r.1 ≡ w x + total w ys
    pub count : length r.1 ≡ length ys

  irrefl : IsOrder greater → (x : A) → greater x x ≡ false
  irrefl o x = elim (Bool-cases (greater x x)) [ inl g ↦ o.asym x x g | inr g ↦ g ]

  pub pass-Selects : IsOrder greater → (x : A) (ys : List A) → Selects x ys (pass x ys)
  pass-Selects o x [] = record { below = irrefl o x; least = tt; same = λ w. refl; count = refl }
  pass-Selects o x (y ∷ ys) = elim (Bool-cases (greater x y)) [
    | inl g ↦
        let p = pass-Selects o y ys in
        let b = o.trans (pass y ys).0 y x p.below (o.asym x y g) in
        rw g (record {
          below = b;
          least = (b, p.least);
          same = λ w. omega (arith, p.same w);
          count = omega (arith, p.count);
        })
    | inr g ↦
        let p = pass-Selects o x ys in
        rw g (record {
          below = p.below;
          least = (o.trans (pass x ys).0 x y p.below g, p.least);
          same = λ w. omega (arith, p.same w);
          count = omega (arith, p.count);
        })
  ]
