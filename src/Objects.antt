-- ===== src/Objects.antt =====
-- Objects of options: their own properties in order, as maps of JsMap. The values are those that
-- the options of src/amqp and src/redis have, and `undefined` stands for a property that is not
-- there.
pub mod Laws
pub mod Interfaces
pub mod Queries
use node_celery_ts.Prelude.{
  ℕ, zero, suc, Bool, true, false, Option, none, some, List, [], ◌∷◌, ◌++◌, map,
}
use node_celery_ts.Text.{Text, codes}
use node_celery_ts.Text.Keys.{text_keys}
use node_celery_ts.JsMap
use node_celery_ts.QueryParser.{Raw, scalar, many}
use node_celery_ts.Utility.Digits.{digits}

-- A number is `none` for NaN. `nodes` is an array of objects with `host` and `port`, and
-- `opaque` any other object, as the options of TLS are.
pub data Value : Type 0 where
  text : Text → Value
  number : Option ℕ → Value
  boolean : Bool → Value
  texts : List Text → Value
  nodes : List (Text × Option ℕ) → Value
  opaque : ℕ → Value

abbrev pub Object : Type 0
Object = List (Text × Value)

-- What a query holds before it is parsed.
abbrev pub raw : Raw → Value
raw (scalar t) = text t
raw (many ts) = texts ts

-- `{ ...a, ...b }`
unfoldable pub merge : Object → Object → Object
merge a [] = a
merge a ((k, v) ∷ b) = merge (JsMap.set k v a) b

-- The text of a value in a template, with the parts of an array behind commas.
abbrev pub join : List Text → Text
join [] = []
join (t ∷ []) = t
join (t ∷ u ∷ ts) = t ++ b',' ∷ join (u ∷ ts)

pub number_text : Option ℕ → Text
number_text none = codes "NaN"
number_text (some n) = digits 10 n n []

unfoldable pub value_text : Value → Text
unfolding number_text
value_text (text t) = t
value_text (number n) = number_text n
value_text (boolean true) = codes "true"
value_text (boolean false) = codes "false"
value_text (texts ts) = join ts
value_text (nodes ns) = join (map (λ n. codes "[object Object]") ns)
value_text (opaque i) = codes "[object Object]"

-- What counts as true in a condition.
unfoldable pub is_truthy : Option Value → Bool
is_truthy none = false
is_truthy (some (text [])) = false
is_truthy (some (text (c ∷ t))) = true
is_truthy (some (number none)) = false
is_truthy (some (number (some zero))) = false
is_truthy (some (number (some (suc n)))) = true
is_truthy (some (boolean b)) = b
is_truthy (some (texts ts)) = true
is_truthy (some (nodes ns)) = true
is_truthy (some (opaque i)) = true
