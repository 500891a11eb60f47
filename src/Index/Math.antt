-- ===== src/Index/Math.antt =====
-- index/_math.py: cosine similarity, and the clamp of a score.
use alvis.Base.{◌≡◌, refl, Bool, false, ◌||◌, List, [], ◌∷◌, arith, length, Bool-cases, inl, inr}
use alvis.Base.{if◌then◌else◌}
use alvis.Base.Sort.{IsStrictWeak}
use alvis.Errors.{Result, ok, err, value_error, other_error}
use alvis.Floats.{Floats}

module _ {F : Type 0} (fl : Floats F) where
  -- `sum(a * b for a, b in zip(left, right, strict=True))`, from what is summed so far
  dot_from : F → List F → List F → Result F
  dot_from acc [] [] = ok acc
  dot_from acc (a ∷ left) (b ∷ right) = dot_from (fl.add acc (fl.mul a b)) left right
  dot_from acc _ _ = err (value_error "zip() arguments have different lengths")

  squares_from : F → List F → F
  squares_from acc [] = acc
  squares_from acc (a ∷ left) = squares_from (fl.add acc (fl.mul a a)) left

  norm : List F → F
  unfolding squares_from
  norm left = fl.sqrt (squares_from fl.zero left)

  -- `/` of floats, which raises a ZeroDivisionError
  divide : F → F → Result F
  divide left right =
      if fl.eq right fl.zero
      then err (other_error "float division by zero")
      else ok (fl.div left right)

  over_norms : Result F → F → F → Result F
  unfolding divide
  over_norms (err e) left_norm right_norm = err e
  over_norms (ok dot) left_norm right_norm =
      if fl.eq left_norm fl.zero || fl.eq right_norm fl.zero
      then ok fl.zero
      else divide dot (fl.mul left_norm right_norm)

  unfoldable pub cosine_similarity : List F → List F → Result F
  unfolding dot_from norm over_norms
  cosine_similarity left right = over_norms (dot_from fl.zero left right) (norm left) (norm right)

  -- Python's `min(1.0, v)` is `v` only if it is smaller, and `max(-1.0, w)` is `w` only if larger.
  min_one : F → F
  min_one value = if fl.lt value fl.one then value else fl.one

  unfoldable pub clamp : F → F
  unfolding min_one
  clamp value = if fl.lt fl.minus_one (min_one value) then min_one value else fl.minus_one

  dot_from_total :
      (acc : F) (left right : List F)
      → length left ≡ length right
      → (dot : F) × (dot_from acc left right ≡ ok dot)
  unfolding dot_from
  dot_from_total acc [] [] h = (acc, refl)
  dot_from_total acc [] (b ∷ right) h = absurd (omega arith)
  dot_from_total acc (a ∷ left) [] h = absurd (omega arith)
  dot_from_total acc (a ∷ left) (b ∷ right) h =
      dot_from_total (fl.add acc (fl.mul a b)) left right (omega arith)

  -- What the guard of the division relies on: square roots that are not zero have a product that is
  -- not zero. It holds of doubles, whose least positive number has the square root 2 ** -537.
  abbrev pub RootsMultiply : Type 0
  RootsMultiply =
      (x y : F)
      → fl.eq (fl.sqrt x) fl.zero ≡ false
      → fl.eq (fl.sqrt y) fl.zero ≡ false
      → fl.eq (fl.mul (fl.sqrt x) (fl.sqrt y)) fl.zero ≡ false

  no_zero : (a b : Bool) → (a || b) ≡ false → (a ≡ false) × (b ≡ false)
  no_zero a b h = ground arith

  -- Vectors of one length have a similarity.
  pub cosine_similarity_total :
      RootsMultiply
      → (left right : List F) → length left ≡ length right
      → (s : F) × (cosine_similarity left right ≡ ok s)
  unfolding cosine_similarity norm divide
  cosine_similarity_total roots left right h =
      let (dot, e) = dot_from_total fl.zero left right h in
      elim (Bool-cases (fl.eq (norm left) fl.zero || fl.eq (norm right) fl.zero)) [
        | inl z ↦ (fl.zero, rw (e, over_norms) (rw z refl))
        | inr z ↦
            let (u, v) = no_zero (fl.eq (norm left) fl.zero) (fl.eq (norm right) fl.zero) z in
            let some_product : fl.eq (fl.mul (norm left) (norm right)) fl.zero ≡ false =
              roots (squares_from fl.zero left) (squares_from fl.zero right) u v in
            (
              fl.div dot (fl.mul (norm left) (norm right)),
              rw (e, over_norms) (rw z (rw some_product refl)),
            )
      ]

  lt_irrefl : IsStrictWeak fl.lt → (x : F) → fl.lt x x ≡ false
  lt_irrefl order x = ground (arith, order.asym x x)

  min_one_mono :
      IsStrictWeak fl.lt → (x y : F) → fl.lt x y ≡ false → fl.lt (min_one x) (min_one y) ≡ false
  unfolding min_one
  min_one_mono order x y h =
      ground (arith, lt_irrefl order fl.one, order.asym y fl.one, order.through x y fl.one)

  -- The clamp keeps the order.
  pub clamp_mono :
      IsStrictWeak fl.lt → (x y : F) → fl.lt x y ≡ false → fl.lt (clamp x) (clamp y) ≡ false
  unfolding clamp
  clamp_mono order x y h = ground (
    arith,
    lt_irrefl order fl.minus_one,
    min_one_mono order x y h,
    order.asym fl.minus_one (min_one x),
    order.through fl.minus_one (min_one x) (min_one y),
  )
