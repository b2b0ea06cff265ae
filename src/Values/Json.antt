-- ===== src/Values/Json.antt =====
-- How encoding/json marshals the fields of a struct, read back as a map[string]any. A field adds
-- its entry under the name of its tag, or none if the tag has omitempty and the field is empty.
use telemetry_controller.Prelude.{
  zero, String, Bool, true, false, Option, none, some, List, [], ◌∷◌, map, ℤ, pos, negsuc,
  string_eq, ◌==◌, if◌then◌else◌,
}
use telemetry_controller.Values.{Value, text, number, negative, flag, null, Config, config, list}

abbrev pub int : ℤ → Value
int (pos n) = number n
int (negsuc n) = negative n

-- A pointer with omitempty.
abbrev pub optional : {A : Type 0} → (A → Value) → String → Option A → Config
optional encode key none = []
optional encode key (some a) = (key, encode a) ∷ []

-- A pointer without omitempty.
abbrev pub nullable : {A : Type 0} → (A → Value) → String → Option A → Config
nullable encode key none = (key, null) ∷ []
nullable encode key (some a) = (key, encode a) ∷ []

-- A string, a bool, an int and a slice with omitempty.
abbrev pub nonempty : String → String → Config
nonempty key s = if s == "" then [] else (key, text s) ∷ []

abbrev pub if_set : String → Bool → Config
if_set key true = (key, flag true) ∷ []
if_set key false = []

abbrev pub nonzero : String → ℤ → Config
nonzero key (pos zero) = []
nonzero key n = (key, int n) ∷ []

abbrev pub elements : {A : Type 0} → (A → Value) → String → List A → Config
elements encode key [] = []
elements encode key (a ∷ as') = (key, list (map encode (a ∷ as'))) ∷ []

-- A map from texts.
abbrev pub entries : {A : Type 0} → (A → Value) → List (String × A) → Value
entries encode m = config (map (λ e. (e.0, encode e.1)) m)
