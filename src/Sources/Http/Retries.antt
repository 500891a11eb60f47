-- ===== src/Sources/Http/Retries.antt =====
-- How often a request is sent, and what it gives.
use alvis.Base.{
  String, ℕ, zero, suc, ◌+◌, ◌≤◌, ◌<◌, ◌≡◌, refl, ap, ◌∙◌, ◌⊎◌, inl, inr, true, false, List, arith,
}
use alvis.Base.{leb, eqb, if_cases, Bool-cases}
use alvis.Errors.{Result, err}
use alvis.Sources.Http.{Reply, Request, transient, give_up, settle, attempts, request}

module _ (show : ℕ → String) (r : Request) (send : ℕ → Reply) where
  -- The attempts from one on to another have been made, the last with this result: it was not
  -- transient, or no attempt was left.
  abbrev pub Settled : ℕ → Result (List ℕ) × ℕ → Type 0
  Settled first t =
      (last : ℕ) × (t.1 ≡ suc last)
      × (first ≤ last)
      × (last ≤ r.max_retries)
      × ((k : ℕ) → first ≤ k → k < last → transient show (send k) ≡ true)
      × (((transient show (send last) ≡ false) × (t.0 ≡ settle show r (send last)))
          ⊎ ((transient show (send last) ≡ true)
              × (last ≡ r.max_retries)
              × (t.0 ≡ err (give_up show r (send last)))))

  attempts-Settled :
      (attempt left : ℕ)
      → attempt + left ≡ suc r.max_retries
      → attempt ≤ r.max_retries
      → Settled attempt (attempts show r send attempt left)
  unfolding attempts
  attempts-Settled attempt zero e h = absurd (omega (arith, e, h))
  attempts-Settled attempt (suc left) e h =
      if_cases (Settled attempt) (transient show (send attempt)) _ _
        (λ again.
          if_cases (Settled attempt) (leb r.max_retries attempt) _ _
            (λ out. (
              attempt,
              refl,
              omega arith,
              h,
              (λ k p q. absurd (omega (arith, p, q))),
              inr (again, ground (arith, out, h), refl),
            ))
            (λ more.
              let (last, made, from, to, before, ends) =
                attempts-Settled (suc attempt) left (omega (arith, e)) (ground (arith, more)) in
              (
                last,
                made,
                omega (arith, from),
                to,
                (λ k p q. elim (Bool-cases (eqb k attempt)) [
                  | inl same ↦
                      let here : k ≡ attempt = ground (arith, same) in
                      ap (λ j. transient show (send j)) here ∙ again
                  | inr other ↦ before k (ground (arith, other, p)) q
                ]),
                ends,
              )))
        (λ settled. (
          attempt,
          refl,
          omega arith,
          h,
          (λ k p q. absurd (omega (arith, p, q))),
          inl (settled, refl),
        ))

  -- A request ends with one of its at most `max_retries + 1` attempts. All the attempts before that
  -- one met a transient failure. If the last did not, the request gives what becomes of its reply;
  -- if it did, no attempt was left, and the request raises the error of giving up.
  pub request_lem : Settled 0 (request show r send)
  unfolding request
  request_lem = attempts-Settled 0 (suc r.max_retries) (omega arith) (omega arith)
