-- ===== src/Config/Acl.antt =====
-- The access lists that `_validate_acl` lets pass.
use alvis.Base.{String, ◌≡◌, refl, ap, true, none, some, List, [], ◌∷◌, string_eq}
use alvis.Base.Dict.{lookup}
use alvis.Value.{seq, texts}
use alvis.Errors.{ok}
use alvis.Config.{Settings, all_texts, acl_fits, validate_acl}

all_texts-texts : (xs : List String) → all_texts (texts xs) ≡ true
unfolding all_texts
all_texts-texts [] = refl
all_texts-texts (x ∷ xs) = all_texts-texts xs

validate_acl_fits :
    (value : Settings) → acl_fits (lookup "acl" value) ≡ true → validate_acl value ≡ ok value
unfolding validate_acl
validate_acl_fits value h = rw h refl

pub validate_acl-none :
    (value : Settings) → lookup "acl" value ≡ none → validate_acl value ≡ ok value
unfolding acl_fits
validate_acl-none value h = validate_acl_fits value (ap acl_fits h)

pub validate_acl-texts :
    (value : Settings) (xs : List String)
    → lookup "acl" value ≡ some (seq (texts xs))
    → validate_acl value ≡ ok value
unfolding acl_fits
validate_acl-texts value xs h = validate_acl_fits value (rw h (all_texts-texts xs))
