-- ===== src/Text/Keys.antt =====
-- Strings as the keys of maps and objects.
use node_celery_ts.Text.{Text, text_eq}
use node_celery_ts.Text.Laws.{text_eq_iff}
use node_celery_ts.JsMap.{Eq}

instance abbrev pub text_keys : Eq Text
text_keys = record { beq = text_eq; beq_iff = text_eq_iff }
