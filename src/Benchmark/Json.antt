-- ===== src/Benchmark/Json.antt =====
-- The values that `json.loads` makes, and what the client asks of them.
use fingerprint_full_matcher.Prelude.{
  String, Bool, true, false, Option, none, some, str_eq, if◌then◌else◌,
}
use fingerprint_full_matcher.Prelude.Int.{ℤ}
use fingerprint_full_matcher.Prelude.Digits.{int_text}
use fingerprint_full_matcher.Benchmark.Floats.{Floats}

mutual
  pub data Json (F : Type 0) : Type 0 where
    null : Json F
    bool : Bool → Json F
    int : ℤ → Json F
    float : F → Json F
    str : String → Json F
    list : Items F → Json F
    dict : Members F → Json F

  pub data Items (F : Type 0) : Type 0 where
    no_items : Items F
    item : Json F → Items F → Items F

  pub data Members (F : Type 0) : Type 0 where
    no_members : Members F
    member : String → Json F → Members F → Members F

module _ {F : Type 0} where
  -- `d.get(key)`
  unfoldable pub find : String → Members F → Option (Json F)
  find key no_members = none
  find key (member name value rest) = if str_eq key name then some value else find key rest

  module _ (floats : Floats F) (repr : Json F → String) where
    -- `str(value)`; a list or a dictionary has its `repr`.
    unfoldable pub json_text : Json F → String
    json_text null = "None"
    json_text (bool true) = "True"
    json_text (bool false) = "False"
    json_text (int z) = int_text z
    json_text (float x) = floats.text x
    json_text (str s) = s
    json_text value = repr value
