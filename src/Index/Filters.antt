-- ===== src/Index/Filters.antt =====
-- The metadata filters of a search: `_matches` of index/memory.py.
use alvis.Base.{String, Bool, true, Option, none, some, allb}
use alvis.Base.{◌==◌, string_eq}
use alvis.Base.Dict.{Dict, lookup}
use alvis.Value.{Value, or_null, str}
use alvis.Models.{Metadata}

-- `None` and an empty dict of filters let every point pass.
unfoldable pub matches : (Value → String) → Metadata → Option (Dict String String) → Bool
unfolding str lookup
matches repr metadata none = true
matches repr metadata (some filters) =
    allb (λ (key, value). str repr (or_null (lookup key metadata)) == value) filters
