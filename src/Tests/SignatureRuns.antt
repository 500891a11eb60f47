-- ===== src/Tests/SignatureRuns.antt =====
-- The signatures of two configurations, where a value stands for its JSON and its digest.
use alvis.Base.{String, ℕ, ◌≡◌, refl, ap, none, [], ◌∷◌, string_eq}
use alvis.Value.{Value, num, text, obj, Fields, get_field}
use alvis.Config.{PipelineConfig}
use alvis.Pipeline.Signature.{pipeline_signature}
use alvis.Pipeline.Signature.Changes.{IsJson, Alike, dumped, pipeline_signature_lem}

abbrev itself : Value → Value
itself v = v

text_of : Value → String
text_of (text s) = s
text_of _ = ""

number_of : Value → ℕ
number_of (num n) = n
number_of _ = 0

fields_of : Value → Fields → Fields
fields_of (obj fs) gs = fs
fields_of _ gs = gs

itself-IsJson : IsJson itself
unfolding text_of number_of fields_of
itself-IsJson = record {
  same_text = λ s t h. ap text_of h;
  same_number = λ m n h. ap number_of h;
  same_fields = λ fs gs key h. ap (λ v. dumped itself (get_field key (fields_of v fs))) h;
}

abbrev by_default : PipelineConfig
by_default = record {
  schema_version = 1;
  source = record { type = "fs"; config = ("path", text "docs") ∷ [] };
  extract = record { strategy = "auto"; config = [] };
  chunk = record { strategy = "auto"; config = [] };
  embed = record { type = "default"; config = [] };
  index = none;
}

-- The same numbers, written out; another path; and a setting of the extraction.
abbrev spelled : PipelineConfig
spelled = record by_default {
  source = record { type = "fs"; config = ("path", text "more") ∷ [] };
  chunk = record { strategy = "auto"; config = ("max_tokens", num 500) ∷ [] };
  extract = record { strategy = "auto"; config = ("max_bytes", num 9) ∷ [] };
}

same_signature :
    pipeline_signature itself itself spelled ≡ pipeline_signature itself itself by_default
unfolding pipeline_signature string_eq
same_signature = refl

pipeline_signature_lem_example : Alike itself by_default spelled
unfolding pipeline_signature string_eq
pipeline_signature_lem_example =
    pipeline_signature_lem itself itself itself-IsJson (λ x y h. h) by_default spelled _ refl refl
