-- ===== src/Objects/Laws.antt =====
-- Laws of objects.
use node_celery_ts.Prelude.{◌≡◌, refl, ap, ◌∙◌, Option, some, [], ◌∷◌, if◌then◌else◌}
use node_celery_ts.Text.{Text}
use node_celery_ts.Text.Keys.{text_keys}
use node_celery_ts.JsMap
use node_celery_ts.Objects.{Value, Object, merge}

-- The last value of a property in a list of properties.
abbrev pub final : Text → Object → Option Value → Option Value
final k [] old = old
final k ((j, v) ∷ b) old = final k b (if text_keys.beq j k then some v else old)

-- A merged object has the properties of the second, and those of the first that it lacks.
pub get-merge : (k : Text) (a b : Object) → JsMap.get k (merge a b) ≡ final k b (JsMap.get k a)
unfolding merge
get-merge k a [] = refl
get-merge k a ((j, v) ∷ b) =
    get-merge k (JsMap.set j v a) b ∙ ap (final k b) (JsMap.get-set j k v a)
