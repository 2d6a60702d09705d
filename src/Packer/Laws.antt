-- ===== src/Packer/Laws.antt =====
-- What the packer relies on of Node and js-yaml, and that then every packer whose encoder is
-- base64, or that does not compress, unpacks what it packed.
use node_celery_ts.Prelude.{◌≡◌, refl, sym, ap, ◌∙◌, Bool, true, false, Option, some, arith, ◌>>=◌}
use mathlib.Core.Option.{map}
use node_celery_ts.Messages.{Json}
use node_celery_ts.Packer.{
  Libraries, CompressorType, EncoderType, SerializerType, create_serializer, create_compressor,
  create_encoder, create_packer, pack, unpack,
}

-- What the libraries document: base64 and both compressions lose nothing, UTF-8 loses nothing of
-- text that is well formed, and JSON and YAML texts are well formed and read back as their value.
pub record Lawful {Wire Buffer : Type 0} (L : Libraries Wire Buffer) : Type 1 where
  pub WellFormed : Wire → Type 0
  pub to_utf8-from_utf8 : (s : Wire) → WellFormed s → L.to_utf8 (L.from_utf8 s) ≡ s
  pub from_base64-to_base64 : (b : Buffer) → L.from_base64 (L.to_base64 b) ≡ b
  pub unzip_sync-gzip_sync : (b : Buffer) → L.unzip_sync (L.gzip_sync b) ≡ some b
  pub unzip_sync-deflate_sync : (b : Buffer) → L.unzip_sync (L.deflate_sync b) ≡ some b
  pub stringify-WellFormed : (v : Json) (s : Wire) → L.stringify v ≡ some s → WellFormed s
  pub parse-stringify : (v : Json) (s : Wire) → L.stringify v ≡ some s → L.parse s ≡ some v
  pub safe_dump-WellFormed : (v : Json) (s : Wire) → L.safe_dump v ≡ some s → WellFormed s
  pub safe_load-safe_dump : (v : Json) (s : Wire) → L.safe_dump v ≡ some s → L.safe_load s ≡ some v

-- Which compressions may be sent with which encoding: bytes that are not text only as base64.
abbrev pub safe : CompressorType → EncoderType → Bool
safe c EncoderType.base64 = true
safe CompressorType.identity EncoderType.plaintext = true
safe CompressorType.gzip EncoderType.plaintext = false
safe CompressorType.zlib EncoderType.plaintext = false

-- The text that a serializer writes, if it can.
abbrev pub text_of :
    {Wire Buffer : Type 0} → Libraries Wire Buffer → SerializerType → Json → Option Wire
text_of L SerializerType.json = L.stringify
text_of L SerializerType.yaml = L.safe_dump

module _ {Wire Buffer : Type 0} (L : Libraries Wire Buffer) (laws : Lawful L) where
  -- The bytes of a well-formed text.
  abbrev IsText : Buffer → Type 0
  IsText b = (s : Wire) × laws.WellFormed s × (b ≡ L.from_utf8 s)

  decompress-compress :
      (c : CompressorType) (b : Buffer)
      → (create_compressor L c).decompress ((create_compressor L c).compress b) ≡ some b
  unfolding create_compressor
  decompress-compress CompressorType.gzip b = laws.unzip_sync-gzip_sync b
  decompress-compress CompressorType.identity b = refl
  decompress-compress CompressorType.zlib b = laws.unzip_sync-deflate_sync b

  decode-encode :
      (c : CompressorType) (e : EncoderType) (b : Buffer)
      → safe c e ≡ true
      → IsText b
      → (create_encoder L e).decode
          ((create_encoder L e).encode ((create_compressor L c).compress b))
        ≡ (create_compressor L c).compress b
  unfolding create_compressor create_encoder
  decode-encode c EncoderType.base64 b h t =
      laws.from_base64-to_base64 ((create_compressor L c).compress b)
  decode-encode CompressorType.identity EncoderType.plaintext b h (s, w, q) =
      ap L.from_utf8 (ap L.to_utf8 q ∙ laws.to_utf8-from_utf8 s w) ∙ sym q
  decode-encode CompressorType.gzip EncoderType.plaintext b h t = absurd (ground arith)
  decode-encode CompressorType.zlib EncoderType.plaintext b h t = absurd (ground arith)

  -- A serialized value is text that is read back as the value.
  abbrev Reads : SerializerType → Json → Buffer → Type 0
  Reads s v b = IsText b × ((create_serializer L s).deserialize b ≡ some v)

  serialize-json :
      (v : Json) (w : Wire) → L.stringify v ≡ some w → Reads SerializerType.json v (L.from_utf8 w)
  unfolding create_serializer
  serialize-json v w h = (
    (w, laws.stringify-WellFormed v w h, refl),
    ap L.parse (laws.to_utf8-from_utf8 w (laws.stringify-WellFormed v w h))
        ∙ laws.parse-stringify v w h,
  )

  serialize-yaml :
      (v : Json) (w : Wire) → L.safe_dump v ≡ some w → Reads SerializerType.yaml v (L.from_utf8 w)
  unfolding create_serializer
  serialize-yaml v w h = (
    (w, laws.safe_dump-WellFormed v w h, refl),
    ap L.safe_load (laws.to_utf8-from_utf8 w (laws.safe_dump-WellFormed v w h))
        ∙ laws.safe_load-safe_dump v w h,
  )

  serialized :
      (s : SerializerType) (v : Json) (w : Wire)
      → text_of L s v ≡ some w
      → ((create_serializer L s).serialize v ≡ some (L.from_utf8 w)) × Reads s v (L.from_utf8 w)
  unfolding create_serializer
  serialized SerializerType.json v w h = (ap (map L.from_utf8) h, serialize-json v w h)
  serialized SerializerType.yaml v w h = (ap (map L.from_utf8) h, serialize-yaml v w h)

  -- A value that the serializer can write is packed, and the packer unpacks it again, if it
  -- encodes to base64 or does not compress.
  pub unpack-pack :
      (s : SerializerType) (c : CompressorType) (e : EncoderType) (v : Json) (t : Wire)
      → safe c e ≡ true
      → text_of L s v ≡ some t
      → (w : Wire) × (pack (create_packer L s c e) v ≡ some w)
        × (unpack (create_packer L s c e) w ≡ some v)
  unfolding pack unpack create_packer
  unpack-pack s c e v t h k = (
    _,
    ap (map _) (serialized s v t k).0,
    ap (λ b. (create_compressor L c).decompress b >>= (create_serializer L s).deserialize)
          (decode-encode c e (L.from_utf8 t) h (serialized s v t k).1.0)
        ∙ ap (λ o. o >>= (create_serializer L s).deserialize)
            (decompress-compress c (L.from_utf8 t))
        ∙ (serialized s v t k).1.1,
  )
