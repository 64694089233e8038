-- ===== src/Format/Sealed.antt =====
-- Sealed records: crates/lchfs-format/src/sealed.rs, over the envelope of
-- crates/lchfs-crypto/src/envelope.rs. The cipher and the serializers are parameters, and the random
-- nonce is an argument. A failed assertion or a missing key of the sealer is none.
pub mod Opens
mod Tests
use lchfs.Common.{
  ℕ, zero, suc, ◌+◌, ◌-◌, ◌*◌, ◌/◌, ◌%◌, ◌^◌, ◌≡◌, Bool, true, false, not, ◌&&◌, ◌||◌, Option, none,
  some, List, [], ◌∷◌, ◌++◌, ltb, leb, ◌==◌, if◌then◌else◌, length, take, drop, Result, ok, err,
}
use lchfs.Common.Assoc.{Map, lookup}
use lchfs.Common.Buffers.{resize, slice}
use lchfs.Crypto.Padme.{padded_len}
use lchfs.Format.Objects.{Hash}

pub data ExtentKind : Type 0 where
  data_chunk : ExtentKind
  inode_object : ExtentKind
  directory_object : ExtentKind
  indirect_hash_list : ExtentKind
  snapshot_table : ExtentKind
  root_object : ExtentKind
  delta_log_entry : ExtentKind
  sealed : ExtentKind

abbrev pub is_sealed_kind : ExtentKind → Bool
is_sealed_kind data_chunk = false
is_sealed_kind inode_object = false
is_sealed_kind directory_object = false
is_sealed_kind indirect_hash_list = false
is_sealed_kind snapshot_table = false
is_sealed_kind root_object = false
is_sealed_kind delta_log_entry = false
is_sealed_kind sealed = true

pub data CodecId : Type 0 where
  no_codec : CodecId
  zstd : CodecId

abbrev pub is_no_codec : CodecId → Bool
is_no_codec no_codec = true
is_no_codec zstd = false

pub record ExtentRecordHeader : Type 0 where
  pub magic : ℕ
  pub record_len : ℕ
  pub content_hash : Hash
  pub kind : ExtentKind
  pub codec_id : CodecId
  pub flags : ℕ
  pub uncompressed_len : ℕ
  pub compressed_len : ℕ
  pub backpointers : List Hash
  pub header_checksum : ℕ

pub record InnerHeader : Type 0 where
  pub kind : ExtentKind
  pub codec_id : CodecId
  pub uncompressed_len : ℕ
  pub payload_len : ℕ
  pub backpointers : List Hash

pub data SealError : Type 0 where
  unknown_epoch : ℕ → SealError
  below_minimum : ℕ → ℕ → SealError
  authentication : SealError
  malformed : SealError
  key_required : SealError

pub record Opened : Type 0 where
  pub kind : ExtentKind
  pub codec_id : CodecId
  pub uncompressed_len : ℕ
  pub backpointers : List Hash
  pub payload : List ℕ
  pub epoch : ℕ

pub record EpochKeys : Type 0 where
  pub epoch : ℕ
  pub address_key : List ℕ
  pub record_key : List ℕ

pub data Padding : Type 0 where
  no_padding : Padding
  padme : Padding

pub record RecordCrypto : Type 0 where
  pub pool_uuid : List ℕ
  pub current : ℕ
  pub min_epoch : ℕ
  pub padding : Padding
  pub epochs : Map EpochKeys

-- The `chacha20poly1305` crate: what is encrypted decrypts, and a tag of sixteen bytes is added.
pub record Cipher : Type 0 where
  pub encrypt : List ℕ → List ℕ → List ℕ → List ℕ → List ℕ
  pub decrypt : List ℕ → List ℕ → List ℕ → List ℕ → Option (List ℕ)
  pub decrypt-encrypt :
      (key nonce aad plain : List ℕ)
      → decrypt key nonce aad (encrypt key nonce aad plain) ≡ some plain
  pub length-encrypt :
      (key nonce aad plain : List ℕ) → length (encrypt key nonce aad plain) ≡ length plain + 16

-- bincode at the inner header, which leaves trailing bytes and tells how many it read.
pub record InnerCodec : Type 0 where
  pub encode : InnerHeader → List ℕ
  pub decode : List ℕ → Option (InnerHeader × ℕ)
  pub decode-encode :
      (h : InnerHeader) (rest : List ℕ) → decode (encode h ++ rest) ≡ some (h, length (encode h))

abbrev pub nonce_len : ℕ
nonce_len = 24

abbrev pub overhead : ℕ
overhead = nonce_len + 16

abbrev pub plaintext_epoch : ℕ
plaintext_epoch = 0

abbrev pub max_epoch : ℕ
max_epoch = 32767

-- "lchfs-record-v1".
abbrev pub aad_prefix : List ℕ
aad_prefix =
    b'l' ∷ b'c' ∷ b'h' ∷ b'f' ∷ b's' ∷ b'-' ∷ b'r' ∷ b'e' ∷ b'c' ∷ b'o' ∷ b'r' ∷ b'd' ∷ b'-' ∷ b'v'
    ∷ b'1' ∷ []

unfoldable pub max_inner_len : ℕ
max_inner_len = padded_len (512 * 1024 * 1024 + 1024 * 1024)

-- The flag is the sixteenth bit, and the epoch the fifteen below it.
unfoldable pub is_sealed : ExtentRecordHeader → Bool
is_sealed h = h.flags / 32768 % 2 == 1

unfoldable pub record_epoch : ExtentRecordHeader → ℕ
record_epoch h = if is_sealed h then h.flags % 32768 else plaintext_epoch

unfoldable pub is_encrypted : RecordCrypto → Bool
is_encrypted c = elim c.epochs [ [] ↦ false | k ∷ ks ↦ true ]

-- crates/lchfs-crypto/src/envelope.rs
module _ (cipher : Cipher) where
  unfoldable pub envelope_seal : List ℕ → List ℕ → List ℕ → List ℕ → List ℕ
  envelope_seal nonce key aad plain = nonce ++ cipher.encrypt key nonce aad plain

  unfoldable pub envelope_open : List ℕ → List ℕ → List ℕ → Option (List ℕ)
  envelope_open key aad envelope =
      if ltb (length envelope) overhead
      then none
      else cipher.decrypt key (take nonce_len envelope) aad (drop nonce_len envelope)

abbrev pub padded : Padding → List ℕ → List ℕ
padded no_padding inner = inner
padded padme inner = resize (padded_len (length inner)) inner

abbrev pub opened_plain : ExtentRecordHeader → List ℕ → Result SealError Opened
opened_plain h payload =
    if is_sealed_kind h.kind
    then err malformed
    else ok (record {
      kind = h.kind;
      codec_id = h.codec_id;
      uncompressed_len = h.uncompressed_len;
      backpointers = h.backpointers;
      payload = payload;
      epoch = plaintext_epoch;
    })

abbrev pub opened_inner : ℕ → List ℕ → Option (InnerHeader × ℕ) → Result SealError Opened
opened_inner epoch inner none = err malformed
opened_inner epoch inner (some (h, start)) =
    if is_sealed_kind h.kind
    then err malformed
    else if leb (start + h.payload_len) (length inner)
    then ok (record {
      kind = h.kind;
      codec_id = h.codec_id;
      uncompressed_len = h.uncompressed_len;
      backpointers = h.backpointers;
      payload = slice start (start + h.payload_len) inner;
      epoch = epoch;
    })
    else err malformed

abbrev pub has_backpointers : List Hash → Bool
has_backpointers [] = false
has_backpointers (h ∷ hs) = true

module _ (cipher : Cipher) (inner_codec : InnerCodec) (encode : ExtentRecordHeader → List ℕ)
    (crc : List ℕ → ℕ) where
  unfoldable pub compute_header_checksum : ExtentRecordHeader → ℕ
  compute_header_checksum h = crc (encode (record h { header_checksum = 0 }))

  abbrev pub unframed : Hash → ℕ → ℕ → ExtentRecordHeader
  unframed content_hash epoch envelope_len = record {
    magic = 1279477830;
    record_len = 0;
    content_hash = content_hash;
    kind = sealed;
    codec_id = no_codec;
    flags = 32768 + epoch;
    uncompressed_len = envelope_len;
    compressed_len = envelope_len;
    backpointers = [];
    header_checksum = 0;
  }

  unfoldable pub sealed_header : Hash → ℕ → ℕ → ExtentRecordHeader
  sealed_header content_hash epoch envelope_len =
      let bare = unframed content_hash epoch envelope_len in
      let framed = record bare {
        record_len = (4 + length (encode bare) % 2 ^ 32 + envelope_len) % 2 ^ 32;
      } in
      record framed { header_checksum = compute_header_checksum framed }

  unfoldable pub aad_of : List ℕ → ExtentRecordHeader → List ℕ
  aad_of pool_uuid h = aad_prefix ++ (pool_uuid ++ encode (record h { header_checksum = 0 }))

  abbrev pub inner_of : RecordCrypto → InnerHeader → List ℕ → List ℕ
  inner_of c h payload = padded c.padding (inner_codec.encode h ++ payload)

  abbrev pub sealed_with :
      RecordCrypto → List ℕ → ℕ → Hash → List ℕ → EpochKeys → ExtentRecordHeader × List ℕ
  sealed_with c nonce epoch content_hash inner keys =
      let header = sealed_header content_hash epoch ((length inner + overhead) % 2 ^ 32) in
      (header, envelope_seal cipher nonce keys.record_key (aad_of c.pool_uuid header) inner)

  unfoldable pub seal :
      RecordCrypto → List ℕ → ℕ → Hash → InnerHeader → List ℕ → Option (ExtentRecordHeader × List ℕ)
  seal c nonce epoch content_hash inner_header payload =
      if (epoch == plaintext_epoch) || ltb max_epoch epoch
      then none
      else elim (lookup epoch c.epochs) [
        | none ↦ none
        | some keys ↦ some (
            sealed_with c nonce epoch content_hash
              (inner_of c (record inner_header { payload_len = length payload % 2 ^ 32 }) payload)
              keys)
      ]

  abbrev pub opened_envelope : ℕ → Option (List ℕ) → Result SealError Opened
  opened_envelope epoch none = err authentication
  opened_envelope epoch (some inner) =
      if ltb max_inner_len (length inner)
      then err malformed
      else opened_inner epoch inner (inner_codec.decode inner)

  abbrev pub opened_sealed :
      RecordCrypto → ExtentRecordHeader → List ℕ → ℕ → Result SealError Opened
  opened_sealed c h payload epoch =
      if not (is_sealed_kind h.kind)
        || (not (is_no_codec h.codec_id) || has_backpointers h.backpointers)
      then err malformed
      else elim (lookup epoch c.epochs) [
        | none ↦ if is_encrypted c then err (unknown_epoch epoch) else err key_required
        | some keys ↦
            opened_envelope epoch
              (envelope_open cipher keys.record_key (aad_of c.pool_uuid h) payload)
      ]

  abbrev pub opened_at : RecordCrypto → ExtentRecordHeader → List ℕ → ℕ → Result SealError Opened
  opened_at c h payload epoch =
      if ltb epoch c.min_epoch
      then err (below_minimum epoch c.min_epoch)
      else if epoch == plaintext_epoch
      then opened_plain h payload
      else opened_sealed c h payload epoch

  unfoldable pub open_record : RecordCrypto → ExtentRecordHeader → List ℕ → Result SealError Opened
  open_record c h payload = opened_at c h payload (record_epoch h)
