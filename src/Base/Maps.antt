-- ===== src/Base/Maps.antt =====
-- `HashSet<String>` and `HashMap<String, V>` as functions of the key.
use hub_core.Base.{Bool, false, not, ◌&&◌, ◌||◌, Option, none, some, if◌then◌else◌}
use hub_core.Base.Text.{Text, text_eq}

abbrev pub TextSet : Type 0
TextSet = Text → Bool

abbrev pub TextMap : Type 0 → Type 0
TextMap V = Text → Option V

abbrev pub empty_set : TextSet
empty_set k = false

abbrev pub insert : TextSet → Text → TextSet
insert s k j = text_eq j k || s j

abbrev pub remove : TextSet → Text → TextSet
remove s k j = not (text_eq j k) && s j

module _ {V : Type 0} where
  abbrev pub empty_map : TextMap V
  empty_map k = none

  abbrev pub contains_key : TextMap V → Text → Bool
  contains_key m k = elim (m k) [ none ↦ false | some v ↦ not false ]

  abbrev pub put : TextMap V → Text → V → TextMap V
  put m k v j = if text_eq j k then some v else m j

  abbrev keep_if : (V → Bool) → Option V → Option V
  keep_if p none = none
  keep_if p (some v) = if p v then some v else none

  -- `HashMap::retain` with a test of the value.
  abbrev pub retain : (V → Bool) → TextMap V → TextMap V
  retain p m k = keep_if p (m k)
