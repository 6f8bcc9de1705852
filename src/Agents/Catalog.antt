-- ===== src/Agents/Catalog.antt =====
-- platforms/agents/catalog.py: the models that may be used by an alias.
use openmodelops.Base.{
  ℕ, String, ◌<>◌, none, some, [], ◌∷◌, eq_of_nat, eq_of_string, value_error, Result, ok, err,
}
use openmodelops.Base.Dict.{Dict, lookup}

pub record OpenWeightModel : Type 0 where
  pub model_id : String
  pub family : String
  pub license_name : String
  pub use_case : String
  pub minimum_memory_gb : ℕ

-- `CATALOG`
abbrev pub catalog : Dict String OpenWeightModel
catalog =
    (
      "qwen-small",
      record {
        model_id = "qwen2.5:3b";
        family = "Qwen";
        license_name = "Apache-2.0";
        use_case = "local development";
        minimum_memory_gb = 6;
      },
    )
    ∷ (
      "mistral-small",
      record {
        model_id = "mistral:7b";
        family = "Mistral";
        license_name = "Apache-2.0";
        use_case = "general assistant";
        minimum_memory_gb = 10;
      },
    )
    ∷ (
      "gemma-small",
      record {
        model_id = "gemma3:4b";
        family = "Gemma";
        license_name = "Gemma Terms";
        use_case = "local multimodal experiments";
        minimum_memory_gb = 8;
      },
    )
    ∷ []

unfoldable pub get_model : String → Result OpenWeightModel
get_model alias = elim (lookup alias catalog) [
  | none ↦ err (value_error ("unknown model alias: " <> alias))
  | some model ↦ ok model
]
