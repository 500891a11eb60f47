-- ===== src/Errors.antt =====
-- The exceptions of the program (errors.py, sources/base.py, config/loader.py), and methods that
-- change state and may raise. What was written before a raise stays written, so the state comes
-- back beside the error.
use alvis.Base.{String}

-- `other_error` is an exception of any other class.
pub data Error : Type 0 where
  pipeline_error source_error config_error value_error other_error : String → Error

pub data Result {ℓ} (A : Type ℓ) : Type ℓ where
  ok : A → Result A
  err : Error → Result A

abbrev pub Exec : Type 0 → Type 0 → Type 0
Exec S A = S → Result A × S

abbrev pub proceed : {S A B : Type 0} → Result A → (A → Exec S B) → Exec S B
proceed (ok a) f s = f a s
proceed (err e) f s = (err e, s)

infixl 10 ◌>>=◌ ◌>>◌
abbrev pub ◌>>=◌ : {S A B : Type 0} → Exec S A → (A → Exec S B) → Exec S B
◌>>=◌ m f s = let (r, s') = m s in proceed r f s'

abbrev pub ◌>>◌ : {S A B : Type 0} → Exec S A → Exec S B → Exec S B
m >> n = m >>= λ _. n

-- What the first action leaves, and what the second keeps, holds after both, also if the first
-- raises.
pub >>-keeps :
    {S A B : Type 0} (P : S → Type 0) (m : Exec S A) (n : Exec S B) (s : S)
    → P (m s).1
    → ((s' : S) → P s' → P (n s').1)
    → P ((m >> n) s).1
>>-keeps {A = A} P m n s h k = proceed_keeps (m s).0
  where
    proceed_keeps : (r : Result A) → P (proceed r (λ _. n) (m s).1).1
    proceed_keeps (ok a) = k (m s).1 h
    proceed_keeps (err e) = h
