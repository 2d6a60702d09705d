-- ===== src/Packer.antt =====
-- src/packer: serializers, compressors and encoders, and the packer that chains them.
-- What they call of Node and js-yaml is the record `Libraries`. `Buffer.from(buffer)`, a copy, is
-- the buffer itself, since no buffer is changed.
pub mod Laws
use mathlib.Core.Option.{Option, some, map}
use node_celery_ts.Prelude.{◌>>=◌}
use node_celery_ts.Messages.{Json}

-- `none` is an exception.
pub record Libraries (Wire Buffer : Type 0) : Type 0 where
  pub stringify : Json → Option Wire
  pub parse : Wire → Option Json
  pub safe_dump : Json → Option Wire
  pub safe_load : Wire → Option Json
  pub from_utf8 : Wire → Buffer
  pub to_utf8 : Buffer → Wire
  pub from_base64 : Wire → Buffer
  pub to_base64 : Buffer → Wire
  pub gzip_sync : Buffer → Buffer
  pub deflate_sync : Buffer → Buffer
  pub unzip_sync : Buffer → Option Buffer

pub data CompressorType : Type 0 where
  gzip identity zlib : CompressorType

pub data EncoderType : Type 0 where
  base64 plaintext : EncoderType

pub data SerializerType : Type 0 where
  json yaml : SerializerType

pub record Serializer (Buffer : Type 0) : Type 0 where
  pub serialize : Json → Option Buffer
  pub deserialize : Buffer → Option Json

pub record Compressor (Buffer : Type 0) : Type 0 where
  pub compress : Buffer → Buffer
  pub decompress : Buffer → Option Buffer

pub record Encoder (Wire Buffer : Type 0) : Type 0 where
  pub encode : Buffer → Wire
  pub decode : Wire → Buffer

pub record Packer (Wire Buffer : Type 0) : Type 0 where
  pub compressor : Compressor Buffer
  pub encoder : Encoder Wire Buffer
  pub serializer : Serializer Buffer

module _ {Wire Buffer : Type 0} where
  unfoldable pub pack : Packer Wire Buffer → Json → Option Wire
  pack p value =
      map (λ s. p.encoder.encode (p.compressor.compress s)) (p.serializer.serialize value)

  unfoldable pub unpack : Packer Wire Buffer → Wire → Option Json
  unpack p packed = p.compressor.decompress (p.encoder.decode packed) >>= p.serializer.deserialize

module _ {Wire Buffer : Type 0} (L : Libraries Wire Buffer) where
  pub create_plaintext_encoder : Encoder Wire Buffer
  create_plaintext_encoder = record { encode = L.to_utf8; decode = L.from_utf8 }

  pub create_base64_encoder : Encoder Wire Buffer
  create_base64_encoder = record { encode = L.to_base64; decode = L.from_base64 }

  pub create_identity_compressor : Compressor Buffer
  create_identity_compressor = record { compress = λ b. b; decompress = some }

  pub create_gzip_compressor : Compressor Buffer
  create_gzip_compressor = record { compress = L.gzip_sync; decompress = L.unzip_sync }

  pub create_zlib_compressor : Compressor Buffer
  create_zlib_compressor = record { compress = L.deflate_sync; decompress = L.unzip_sync }

  pub create_json_serializer : Serializer Buffer
  create_json_serializer = record {
    serialize = λ v. map L.from_utf8 (L.stringify v);
    deserialize = λ b. L.parse (L.to_utf8 b);
  }

  pub create_yaml_serializer : Serializer Buffer
  create_yaml_serializer = record {
    serialize = λ v. map L.from_utf8 (L.safe_dump v);
    deserialize = λ b. L.safe_load (L.to_utf8 b);
  }

  pub create_compressor : CompressorType → Compressor Buffer
  unfolding create_gzip_compressor create_identity_compressor create_zlib_compressor
  create_compressor gzip = create_gzip_compressor
  create_compressor identity = create_identity_compressor
  create_compressor zlib = create_zlib_compressor

  pub create_encoder : EncoderType → Encoder Wire Buffer
  unfolding create_base64_encoder create_plaintext_encoder
  create_encoder base64 = create_base64_encoder
  create_encoder plaintext = create_plaintext_encoder

  pub create_serializer : SerializerType → Serializer Buffer
  unfolding create_json_serializer create_yaml_serializer
  create_serializer json = create_json_serializer
  create_serializer yaml = create_yaml_serializer

  unfoldable pub create_packer : SerializerType → CompressorType → EncoderType → Packer Wire Buffer
  unfolding create_compressor create_encoder create_serializer
  create_packer s c e = record {
    compressor = create_compressor c;
    encoder = create_encoder e;
    serializer = create_serializer s;
  }

  unfoldable pub create_default_packer : Packer Wire Buffer
  unfolding create_packer
  create_default_packer = create_packer json identity base64
