-- ===== src/Format/Sealed/Tests.antt =====
-- A record of three bytes sealed without padding, under a cipher that only frames.
use lchfs.Common.{
  zero, suc, ◌-◌, ℕ, ◌+◌, ◌≡◌, refl, arith, Option, none, some, List, [], ◌∷◌, ◌++◌, length, take,
  drop, replicate, ok, length-append, drop-length_append, append_assoc, take-length_append,
}
use lchfs.Common.Assoc.{lookup}
use lchfs.Format.Sealed.{
  ExtentKind, data_chunk, inode_object, directory_object, indirect_hash_list, snapshot_table,
  root_object, delta_log_entry, sealed, CodecId, no_codec, zstd, ExtentRecordHeader, InnerHeader,
  EpochKeys, no_padding, RecordCrypto, Cipher, InnerCodec, seal, open_record,
}
use lchfs.Format.Sealed.Opens.{open_record-seal, max_inner_len_large}

abbrev framing : Cipher
framing = record {
  encrypt = λ key nonce aad plain. replicate 16 0 ++ plain;
  decrypt = λ key nonce aad sealed_bytes. some (drop 16 sealed_bytes);
  decrypt-encrypt = λ key nonce aad plain. refl;
  length-encrypt = λ key nonce aad plain. omega arith;
}

abbrev kind_number : ExtentKind → ℕ
kind_number data_chunk = 0
kind_number inode_object = 1
kind_number directory_object = 2
kind_number indirect_hash_list = 3
kind_number snapshot_table = 4
kind_number root_object = 5
kind_number delta_log_entry = 6
kind_number sealed = 7

abbrev kind_of : ℕ → ExtentKind
kind_of zero = data_chunk
kind_of (suc zero) = inode_object
kind_of (suc (suc zero)) = directory_object
kind_of (suc (suc (suc zero))) = indirect_hash_list
kind_of (suc (suc (suc (suc zero)))) = snapshot_table
kind_of (suc (suc (suc (suc (suc zero))))) = root_object
kind_of (suc (suc (suc (suc (suc (suc zero)))))) = delta_log_entry
kind_of (suc (suc (suc (suc (suc (suc (suc n))))))) = sealed

kind_of-kind_number : (k : ExtentKind) → kind_of (kind_number k) ≡ k
kind_of-kind_number data_chunk = refl
kind_of-kind_number inode_object = refl
kind_of-kind_number directory_object = refl
kind_of-kind_number indirect_hash_list = refl
kind_of-kind_number snapshot_table = refl
kind_of-kind_number root_object = refl
kind_of-kind_number delta_log_entry = refl
kind_of-kind_number sealed = refl

abbrev codec_number : CodecId → ℕ
codec_number no_codec = 0
codec_number zstd = 1

abbrev codec_of : ℕ → CodecId
codec_of zero = no_codec
codec_of (suc n) = zstd

codec_of-codec_number : (c : CodecId) → codec_of (codec_number c) ≡ c
codec_of-codec_number no_codec = refl
codec_of-codec_number zstd = refl

abbrev encode_hashes : List (List ℕ) → List ℕ
encode_hashes [] = []
encode_hashes (h ∷ hs) = length h ∷ (h ++ encode_hashes hs)

abbrev decode_hashes : ℕ → List ℕ → List (List ℕ) × List ℕ
decode_hashes zero xs = ([], xs)
decode_hashes (suc n) [] = ([], [])
decode_hashes (suc n) (l ∷ xs) = let r = decode_hashes n (drop l xs) in (take l xs ∷ r.0, r.1)

decode_hashes-encode_hashes :
    (hs : List (List ℕ)) (rest : List ℕ)
    → decode_hashes (length hs) (encode_hashes hs ++ rest) ≡ (hs, rest)
decode_hashes-encode_hashes [] rest = refl
decode_hashes-encode_hashes (h ∷ hs) rest =
    let ih = decode_hashes-encode_hashes hs rest in
    let t = append_assoc h (encode_hashes hs) rest in
    rw
      (
        t,
        drop-length_append h (encode_hashes hs ++ rest),
        take-length_append h (encode_hashes hs ++ rest),
        ih,
      )
      refl

abbrev encode_inner : InnerHeader → List ℕ
encode_inner h =
    kind_number h.kind
    ∷ codec_number h.codec_id
    ∷ h.uncompressed_len
    ∷ h.payload_len
    ∷ length h.backpointers
    ∷ encode_hashes h.backpointers

abbrev decode_inner : List ℕ → Option (InnerHeader × ℕ)
decode_inner (k ∷ c ∷ u ∷ p ∷ n ∷ xs) =
    let r = decode_hashes n xs in
    some (
      record {
        kind = kind_of k;
        codec_id = codec_of c;
        uncompressed_len = u;
        payload_len = p;
        backpointers = r.0;
      },
      5 + (length xs - length r.1),
    )
decode_inner _ = none

decode_inner-encode_inner :
    (h : InnerHeader) (rest : List ℕ)
    → decode_inner (encode_inner h ++ rest) ≡ some (h, length (encode_inner h))
decode_inner-encode_inner h rest =
    let e = decode_hashes-encode_hashes h.backpointers rest in
    let l = length-append (encode_hashes h.backpointers) rest in
    let n : 5 + (length (encode_hashes h.backpointers ++ rest) - length rest)
        ≡ suc (suc (suc (suc (suc (length (encode_hashes h.backpointers)))))) =
      omega arith in
    simp (e, n, kind_of-kind_number h.kind, codec_of-codec_number h.codec_id) refl

abbrev counting : InnerCodec
counting = record {
  encode = encode_inner;
  decode = decode_inner;
  decode-encode = decode_inner-encode_inner;
}

abbrev keys : EpochKeys
keys = record { epoch = 2; address_key = 5 ∷ []; record_key = 6 ∷ [] }

abbrev crypto : RecordCrypto
crypto = record {
  pool_uuid = 4 ∷ [];
  current = 2;
  min_epoch = 1;
  padding = no_padding;
  epochs = (2, keys) ∷ [];
}

abbrev inner : InnerHeader
inner = record {
  kind = data_chunk;
  codec_id = zstd;
  uncompressed_len = 9;
  payload_len = 0;
  backpointers = [];
}

abbrev encode_outer : ExtentRecordHeader → List ℕ
encode_outer h = h.flags ∷ h.compressed_len ∷ h.header_checksum ∷ []

held : lookup 2 crypto.epochs ≡ some keys
unfolding lookup
held = refl

open_record-seal_example :
    (r : ExtentRecordHeader × List ℕ) × (seal framing counting encode_outer
        (λ b. 0)
        crypto
        (replicate 24 1)
        2
        (8 ∷ [])
        inner
        (1 ∷ 2 ∷ 3 ∷ [])
      ≡ some r)
    × (open_record framing counting encode_outer (λ b. 0) crypto r.0 r.1
        ≡ ok (record {
          kind = data_chunk;
          codec_id = zstd;
          uncompressed_len = 9;
          backpointers = [];
          payload = 1 ∷ 2 ∷ 3 ∷ [];
          epoch = 2;
        }))
open_record-seal_example =
    open_record-seal framing counting encode_outer (λ b. 0) crypto (replicate 24 1) 2 (8 ∷ []) inner
      (1 ∷ 2 ∷ 3 ∷ []) keys (λ e. omega arith) (omega arith) (omega arith) held refl refl
      (omega arith) (omega arith) (let h = max_inner_len_large in omega arith)
