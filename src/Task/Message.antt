-- ===== src/Task/Message.antt =====
-- The message that applyAsync of src/task.ts publishes, against a worker that decodes it as the
-- message itself says.
use node_celery_ts.Prelude.{◌≡◌, refl, ap, ◌∙◌, true, Option, none, some, [], ◌>>=◌}
use node_celery_ts.Text.{Text}
use node_celery_ts.Messages.{
  Json, TaskMessage, ContentTypeMime, ContentEncodingMime, CompressionMime,
}
use node_celery_ts.Packer.{Libraries, CompressorType, SerializerType, unpack, create_packer}
use node_celery_ts.Packer.Laws.{Lawful, safe, text_of, unpack-pack}
use node_celery_ts.Task.{
  Task, Host, TaskApplyOptions, or_default, select_encoder, real_compressor, get_content_type_mime,
  get_encoding_mime, compression_header, create_packer_of, task_body, pack_body, date_or_null,
  create_headers, create_properties, task_message, publish_options,
}

module _ {Wire Buffer : Type 0} (L : Libraries Wire Buffer) where
  abbrev pub decoded : ContentEncodingMime → Wire → Buffer
  decoded ContentEncodingMime.base64 = L.from_base64
  decoded ContentEncodingMime.utf8 = L.from_utf8

  abbrev pub decompressed : Option CompressionMime → Buffer → Option Buffer
  decompressed none b = some b
  decompressed (some CompressionMime.zlib) b = L.unzip_sync b

  abbrev pub deserialized : ContentTypeMime → Buffer → Option Json
  deserialized ContentTypeMime.json b = L.parse (L.to_utf8 b)
  deserialized ContentTypeMime.yaml b = L.safe_load (L.to_utf8 b)

  -- A worker decodes, decompresses and deserializes the body as the message says.
  abbrev pub read_body : TaskMessage Wire → Option Json
  read_body m =
      decompressed m.headers.compression (decoded m.content_encoding m.body)
      >>= deserialized m.content_type

  read-unpack :
      (s : SerializerType) (c : CompressorType) (w : Wire)
      → decompressed (compression_header c) (decoded (get_encoding_mime (select_encoder c)) w)
          >>= deserialized (get_content_type_mime s)
        ≡ unpack (create_packer L s (real_compressor c) (select_encoder c)) w
  unfolding compression_header get_encoding_mime select_encoder get_content_type_mime
      real_compressor unpack create_packer
  read-unpack SerializerType.json CompressorType.gzip w = refl
  read-unpack SerializerType.json CompressorType.identity w = refl
  read-unpack SerializerType.json CompressorType.zlib w = refl
  read-unpack SerializerType.yaml CompressorType.gzip w = refl
  read-unpack SerializerType.yaml CompressorType.identity w = refl
  read-unpack SerializerType.yaml CompressorType.zlib w = refl

safe-select_encoder : (c : CompressorType) → safe (real_compressor c) (select_encoder c) ≡ true
unfolding select_encoder real_compressor
safe-select_encoder CompressorType.gzip = refl
safe-select_encoder CompressorType.identity = refl
safe-select_encoder CompressorType.zlib = refl

bind₃ :
    {A B C D : Type 0} {a : Option A} {b : Option B} {c : Option C} {x : A} {y : B} {z : C}
    (f : A → B → C → D)
    → a ≡ some x
    → b ≡ some y
    → c ≡ some z
    → (do x ← a; y ← b; z ← c; some (f x y z)) ≡ some (f x y z)
bind₃ {b} {c} {x} {y} f h k l =
    ap (λ o. o >>= λ x. b >>= λ y. c >>= λ z. some (f x y z)) h
    ∙ ap (λ o. o >>= λ y. c >>= λ z. some (f x y z)) k
    ∙ ap (λ o. o >>= λ z. some (f x y z)) l

module _ {Wire Buffer Broker Backend Date : Type 0} (L : Libraries Wire Buffer) (laws : Lawful L)
    (H : Host Date) where
  -- What a message says of itself: the task, its identifier in all places, the encoding of its body
  -- twice, the queue that it is routed to by the default exchange and whether that is asserted, and
  -- the queue that answers go to.
  abbrev pub Consistent :
      Task Broker Backend → TaskApplyOptions Date → Text → TaskMessage Wire → Type 0
  Consistent t o id m =
      (m.headers.task ≡ t.name)
      × (m.headers.id ≡ id)
      × (m.headers.root_id ≡ id)
      × (m.properties.correlation_id ≡ id)
      × (m.properties.body_encoding ≡ m.content_encoding)
      × (m.properties.delivery_info.routing_key ≡ m.properties.queue)
      × (m.properties.queue ≡ or_default o.queue t.queue)
      × (m.properties.delivery_info.exchange ≡ [])
      × (m.properties.assert_queue ≡ or_default o.assert_queue true)
      × (m.properties.reply_to ≡ t.app_id)
      × (m.headers.timelimit ≡ t.time_limit)

  -- If the serializer can write the arguments, and the dates given are valid, applyAsync has a
  -- message to publish, from which a worker that decodes as the message says reads the arguments,
  -- for every serializer and compression; and the message is consistent.
  pub publish_options-read_body :
      (t : Task Broker Backend) (o : TaskApplyOptions Date) (id : Text) (text : Wire)
      (eta expires : Option Text)
      → text_of L (or_default o.serializer SerializerType.json) (task_body o.args o.kwargs)
        ≡ some text
      → date_or_null H o.eta ≡ some eta
      → date_or_null H o.expires ≡ some expires
      → (m : TaskMessage Wire) × (publish_options H t L o id ≡ some m)
        × (read_body L m ≡ some (task_body o.args o.kwargs))
        × Consistent t o id m
  unfolding publish_options create_packer_of pack_body task_message create_headers create_properties
  publish_options-read_body t o id text eta expires h he hx =
      let c = or_default o.compression CompressorType.identity in
      let s = or_default o.serializer SerializerType.json in
      let packed =
        unpack-pack L laws s (real_compressor c) (select_encoder c) (task_body o.args o.kwargs) text
          (safe-select_encoder c) h in
      (
        task_message H t o id (select_encoder c) packed.0 eta expires,
        bind₃ (task_message H t o id (select_encoder c)) packed.1 he hx,
        read-unpack L s c packed.0 ∙ packed.2,
        (refl, refl, refl, refl, refl, refl, refl, refl, refl, refl, refl),
      )
