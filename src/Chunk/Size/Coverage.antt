-- ===== src/Chunk/Size/Coverage.antt =====
-- The slices of the size strategy: within the budget, in fuel, and without gaps but for blanks.
use Prim.Native.Char.{Char}
use alvis.Base.{
  ℕ, zero, suc, ◌+◌, ◌-◌, ◌≤◌, ◌<◌, ◌≡◌, refl, ap, ◌∙◌, inl, inr, min, false, Option, none, some,
  [], ◌∷◌, arith,
}
use alvis.Base.{ltb, leb, if◌then◌else◌, if_cases, length, drop, All, Any, Bool-cases, Option-cases}
use alvis.Text.{Text, rfind_space, slice}
use alvis.Text.Slices.{item_at, item_at-drop, length-slice}
use alvis.Chunk.Size.{
  at_boundary, slice_end, is_blank, count_blank, next_position, skip_blank, slices_from,
}

rfind_space-< : (s : Text) (n : ℕ) → rfind_space s ≡ some n → n < length s
unfolding rfind_space
rfind_space-< [] n e = cc
rfind_space-< (c ∷ s) n e = elim (Option-cases (rfind_space s)) [
  | inl h ↦ ground (arith, h, e)
  | inr (m, h) ↦ ground (arith, h, e, rfind_space-< s m h)
]

at_boundary-bounds :
    (position end n : ℕ) (o : Option ℕ)
    → position < end
    → ((m : ℕ) → o ≡ some m → m < end - position)
    → (position < at_boundary position end o) × (at_boundary position end o ≤ end)
unfolding at_boundary
at_boundary-bounds position end n none h f = (h, omega arith)
at_boundary-bounds position end n (some zero) h f = (h, omega arith)
at_boundary-bounds position end n (some (suc m)) h f = (omega arith, omega (arith, f (suc m) refl))

-- A slice that starts in the text ends behind its start, in the text and within the size.
slice_end-bounds :
    (s : Text) (size position : ℕ)
    → 0 < size
    → position < length s
    → (position < slice_end s size position)
      × (slice_end s size position ≤ length s)
      × (slice_end s size position ≤ position + size)
unfolding slice_end
slice_end-bounds s size position h k =
    let end = min (position + size) (length s) in
    let here : position < end = omega (arith, h, k) in
    let cut = at_boundary-bounds position end 0 (rfind_space (slice position end s)) here (λ m e.
      omega (arith, rfind_space-< (slice position end s) m e, length-slice position end s)) in
    if_cases (λ (e : ℕ). (position < e) × (e ≤ length s) × (e ≤ position + size))
      (ltb end (length s)) _ end (λ _. (cut.0, omega (arith, cut.1), omega (arith, cut.1)))
      (λ _. (here, omega arith, omega arith))

next_position-bounds :
    (overlap_chars position end : ℕ)
    → position < end
    → (position < next_position overlap_chars position end)
      × (next_position overlap_chars position end ≤ end)
unfolding next_position
next_position-bounds overlap_chars position end h = ground arith

count_blank-≤ :
    (j : ℕ) (s : Text) (c : Char) → item_at j s ≡ some c → is_blank c ≡ false → count_blank s ≤ j
unfolding count_blank
count_blank-≤ j [] c e h = omega arith
count_blank-≤ zero (d ∷ s) c e h = ground (arith, e, h)
count_blank-≤ (suc j) (d ∷ s) c e h = ground (arith, count_blank-≤ j s c e h)

skip_blank-≤ :
    (position i : ℕ) (s : Text) (c : Char)
    → position ≤ i
    → item_at i s ≡ some c
    → is_blank c ≡ false
    → skip_blank s position ≤ i
unfolding skip_blank
skip_blank-≤ position i s c h e k = omega (
  arith,
  h,
  count_blank-≤ (i - position) (drop position s) c
      (item_at-drop (i - position) position s ∙ ap (λ j. item_at j s) (omega (arith, h)) ∙ e) k,
)

pub item_at-< : (i : ℕ) (s : Text) (c : Char) → item_at i s ≡ some c → i < length s
item_at-< i [] c e = cc
item_at-< zero (d ∷ s) c e = omega arith
item_at-< (suc i) (d ∷ s) c e = omega (arith, item_at-< i s c e)

-- The slice holds the position.
abbrev pub At : ℕ → ℕ × ℕ → Type 0
At i t = (t.0 ≤ i) × (i < t.1)

module _ (s : Text) (size overlap_chars : ℕ) (some_size : 0 < size) where
  pub slices_from-size :
      (fuel position : ℕ)
      → All (λ (t : ℕ × ℕ). t.1 ≤ t.0 + size) (slices_from fuel s size overlap_chars position)
  unfolding slices_from
  slices_from-size zero position = tt
  slices_from-size (suc fuel) position =
      let end = slice_end s size position in
      let next = skip_blank s (next_position overlap_chars position end) in
      if_cases (All (λ (t : ℕ × ℕ). t.1 ≤ t.0 + size)) (ltb position (length s)) _ []
        (λ e. (
          (slice_end-bounds s size position some_size (ground (arith, e))).2,
          if_cases (All (λ (t : ℕ × ℕ). t.1 ≤ t.0 + size)) (leb (length s) end) []
              (slices_from fuel s size overlap_chars next) (λ _. tt)
              (λ _. slices_from-size fuel next),
        ))
        (λ _. tt)

  -- With fuel for the rest of the text, one round more changes nothing.
  slices_from-suc :
      (fuel position : ℕ)
      → length s ≤ fuel + position
      → slices_from (suc fuel) s size overlap_chars position
        ≡ slices_from fuel s size overlap_chars position
  unfolding slices_from
  slices_from-suc zero position enough = rw (past_end position (omega (arith, enough))) refl
    where
      past_end : (position : ℕ) → length s ≤ position → ltb position (length s) ≡ false
      past_end position h = ground arith
  slices_from-suc (suc fuel) position enough =
      let end = slice_end s size position in
      let next = next_position overlap_chars position end in
      elim (Bool-cases (ltb position (length s))) [
        | inr out ↦ rw out refl
        | inl inside ↦
            let (above, _, _) =
              slice_end-bounds s size position some_size (ground (arith, inside)) in
            let (progress, _) = next_position-bounds overlap_chars position end above in
            rw inside (
              ap (λ rest. (position, end) ∷ (if leb (length s) end then [] else rest))
                (slices_from-suc fuel (skip_blank s next)
                  (unfold skip_blank in omega (arith, enough, progress))))
      ]

  -- The length of the text is fuel enough for the loop.
  pub slices_from_more :
      (more : ℕ)
      → slices_from (length s + more) s size overlap_chars 0
        ≡ slices_from (length s) s size overlap_chars 0
  slices_from_more zero = ap (λ n. slices_from n s size overlap_chars 0) (omega arith)
  slices_from_more (suc more) =
      ap (λ n. slices_from n s size overlap_chars 0) (later (length s))
      ∙ slices_from-suc (length s + more) 0 (omega arith)
      ∙ slices_from_more more
    where
      later : (n : ℕ) → n + suc more ≡ suc (n + more)
      later n = omega arith

  -- With fuel for the rest of the text, each character that is no blank is in a slice.
  pub slices_from-At :
      (fuel position i : ℕ) (c : Char)
      → length s ≤ fuel + position
      → position ≤ i
      → item_at i s ≡ some c
      → is_blank c ≡ false
      → Any (At i) (slices_from fuel s size overlap_chars position)
  unfolding slices_from
  slices_from-At zero position i c enough h e k =
      absurd (omega (arith, enough, h, item_at-< i s c e))
  slices_from-At (suc fuel) position i c enough h e k =
      let end = slice_end s size position in
      let next = next_position overlap_chars position end in
      let inside : i < length s = item_at-< i s c e in
      let (above, _, _) = slice_end-bounds s size position some_size (omega (arith, h, inside)) in
      let (progress, before) = next_position-bounds overlap_chars position end above in
      let rest = slices_from fuel s size overlap_chars (skip_blank s next) in
      if_cases (Any (At i)) (ltb position (length s)) _ []
        (λ _. elim (Bool-cases (ltb i end)) [
          | inl here ↦ inl (h, ground (arith, here))
          | inr later ↦ inr (
              if_cases (Any (At i)) (leb (length s) end) [] rest
                (λ ends. absurd (ground (arith, later, ends, inside)))
                (λ _.
                  slices_from-At fuel (skip_blank s next) i c
                    (unfold skip_blank in omega (arith, enough, progress))
                    (skip_blank-≤ next i s c (ground (arith, later, before)) e k) e k))
        ])
        (λ out. absurd (ground (arith, out, h, inside)))
