-- ===== src/Format/Sealed/Opens.antt =====
-- A record that was sealed opens again (crates/lchfs-format/src/sealed.rs).
use lchfs.Common.{
  ℕ, zero, suc, ◌+◌, ◌-◌, ◌*◌, ◌/◌, ◌%◌, ◌^◌, ◌≤◌, ◌<◌, ◌≡◌, ◌≢◌, refl, sym, ap, subst, ◌∙◌, arith,
  true, false, ◌||◌, some, List, [], ◌∷◌, ◌++◌, ltb, leb, ◌==◌, length, take, drop, ok,
  length-append, append_assoc, append_nil, Bool-cases, inl, inr, take-length_append,
  drop-length_append,
}
use lchfs.Common.Assoc.{lookup}
use lchfs.Common.Buffers.{resize, slice}
use lchfs.Crypto.Padme.{padded_len}
use lchfs.Crypto.Padme.Bounds.{padded_len-bounds}
use lchfs.Format.Objects.{Hash}
use lchfs.Format.Sealed.{
  is_sealed_kind, ExtentRecordHeader, InnerHeader, Opened, EpochKeys, Padding, no_padding, padme,
  RecordCrypto, Cipher, InnerCodec, overhead, max_inner_len, is_sealed, record_epoch, envelope_seal,
  envelope_open, sealed_header, aad_of, padded, inner_of, sealed_with, seal, opened_inner,
  opened_sealed, opened_at, open_record,
}

resize_longer : (n : ℕ) (xs : List ℕ) → length xs ≤ n → (pad : List ℕ) × (resize n xs ≡ xs ++ pad)
unfolding resize
resize_longer n [] h = (resize n [], refl)
resize_longer zero (x ∷ xs) h = absurd (omega arith)
resize_longer (suc n) (x ∷ xs) h =
    let r = resize_longer n xs (omega arith) in (r.0, ap (λ (t : List ℕ). x ∷ t) r.1)

padded_len_longer : (len : ℕ) → len ≤ 2 ^ 63 → len ≤ padded_len len
unfolding padded_len
padded_len_longer len h = elim (Bool-cases (ltb len 2)) [
  | inl e ↦ rw e (omega arith)
  | inr e ↦ (padded_len-bounds len (ground arith) h).0
]

pub max_inner_len_large : 536870912 ≤ max_inner_len
unfolding max_inner_len
max_inner_len_large =
    (let h = padded_len_longer (512 * 1024 * 1024 + 1024 * 1024) (omega arith) in omega arith)

-- What `open` finds behind the padding: the inner plaintext and zeros.
padded_longer :
    (p : Padding) (xs : List ℕ) → length xs ≤ 2 ^ 63 → (pad : List ℕ) × (padded p xs ≡ xs ++ pad)
padded_longer no_padding xs h = ([], sym (append_nil xs))
padded_longer padme xs h =
    resize_longer (padded_len (length xs)) xs (padded_len_longer (length xs) h)

slice_middle :
    (xs ys zs : List ℕ) → slice (length xs) (length xs + length ys) ((xs ++ ys) ++ zs) ≡ ys
slice_middle xs ys zs =
    let e : length xs + length ys - length xs ≡ length ys = omega arith in
    rw (append_assoc xs ys zs, drop-length_append xs (ys ++ zs), e) (take-length_append ys zs)

envelope_open-seal :
    (cipher : Cipher) (nonce key aad plain : List ℕ)
    → length nonce ≡ 24
    → envelope_open cipher key aad (envelope_seal cipher nonce key aad plain) ≡ some plain
unfolding envelope_open envelope_seal
envelope_open-seal cipher nonce key aad plain h =
    let body = cipher.encrypt key nonce aad plain in
    let l = length-append nonce body in
    let b = cipher.length-encrypt key nonce aad plain in
    let e : ltb (length (nonce ++ body)) overhead ≡ false = ground arith in
    let t : take 24 (nonce ++ body) ≡ nonce =
      subst (λ n. take n (nonce ++ body) ≡ nonce) h (take-length_append nonce body) in
    let d : drop 24 (nonce ++ body) ≡ body =
      subst (λ n. drop n (nonce ++ body) ≡ body) h (drop-length_append nonce body) in
    rw (e, t, d) (cipher.decrypt-encrypt key nonce aad plain)

module _ (cipher : Cipher) (codec : InnerCodec) (encode : ExtentRecordHeader → List ℕ)
    (crc : List ℕ → ℕ) where
  record_epoch-sealed_header :
      (hash : Hash) (epoch len : ℕ)
      → epoch ≢ 0
      → epoch ≤ 32767
      → record_epoch (sealed_header cipher codec encode crc hash epoch len) ≡ epoch
  unfolding record_epoch is_sealed sealed_header
  record_epoch-sealed_header hash epoch len n h =
      let e : ((32768 + epoch) / 32768 % 2 == 1) ≡ true = ground arith in rw e (omega arith)

  -- The record that comes out.
  abbrev pub opened_of : InnerHeader → List ℕ → ℕ → Opened
  opened_of h payload epoch = record {
    kind = h.kind;
    codec_id = h.codec_id;
    uncompressed_len = h.uncompressed_len;
    backpointers = h.backpointers;
    payload = payload;
    epoch = epoch;
  }

  opened_inner-encoded :
      (epoch : ℕ) (h : InnerHeader) (payload pad inner : List ℕ)
      → is_sealed_kind h.kind ≡ false
      → inner ≡ (codec.encode (record h { payload_len = length payload }) ++ payload) ++ pad
      → opened_inner epoch inner (codec.decode inner) ≡ ok (opened_of h payload epoch)
  opened_inner-encoded epoch h payload pad inner k e =
      let h' : InnerHeader = record h { payload_len = length payload } in
      let enc = codec.encode h' in
      let d : codec.decode ((enc ++ payload) ++ pad) ≡ some (h', length enc) =
        rw (append_assoc enc payload pad) (codec.decode-encode h' (payload ++ pad)) in
      let a = length-append (enc ++ payload) pad in
      let b = length-append enc payload in
      let t : leb (length enc + length payload) (length ((enc ++ payload) ++ pad)) ≡ true =
        ground arith in
      rw (e, d, k, t, slice_middle enc payload pad) refl

  opened_sealed-sealed_with :
      (c : RecordCrypto) (nonce : List ℕ) (epoch : ℕ) (hash : Hash) (h : InnerHeader)
      (payload : List ℕ) (keys : EpochKeys)
      → lookup epoch c.epochs ≡ some keys
      → length nonce ≡ 24
      → is_sealed_kind h.kind ≡ false
      → length payload < 2 ^ 32
      → length (codec.encode (record h { payload_len = length payload }) ++ payload) ≤ 2 ^ 63
      → length
          (inner_of cipher codec encode crc c (record h { payload_len = length payload }) payload)
        ≤ max_inner_len
      → let s =
          sealed_with cipher codec encode crc c nonce epoch hash
            (inner_of cipher codec encode crc c (record h { payload_len = length payload }) payload)
            keys in
        opened_sealed cipher codec encode crc c s.0 s.1 epoch ≡ ok (opened_of h payload epoch)
  unfolding sealed_header
  opened_sealed-sealed_with c nonce epoch hash h payload keys q n k l small fits =
      let h' : InnerHeader = record h { payload_len = length payload } in
      let inner = inner_of cipher codec encode crc c h' payload in
      let s = sealed_with cipher codec encode crc c nonce epoch hash inner keys in
      let o =
        envelope_open-seal cipher nonce keys.record_key
          (aad_of cipher codec encode crc c.pool_uuid s.0) inner n in
      let pad = padded_longer c.padding (codec.encode h' ++ payload) small in
      let t : ltb max_inner_len (length inner) ≡ false = ground arith in
      rw (q, o, t) (opened_inner-encoded epoch h payload pad.0 inner k pad.1)

-- What is sealed in an epoch whose keys the pool holds and that is at least its minimum opens to
-- the same kind, codec, lengths, backpointers and payload, padded or not, where the kind is not
-- the sealed one, the nonce has its 24 bytes, the payload's length is a u32, and the inner
-- plaintext is no longer than a sealed record may claim.
pub open_record-seal :
    (cipher : Cipher) (codec : InnerCodec) (encode : ExtentRecordHeader → List ℕ) (crc : List ℕ → ℕ)
    (c : RecordCrypto) (nonce : List ℕ) (epoch : ℕ) (hash : Hash) (h : InnerHeader)
    (payload : List ℕ) (keys : EpochKeys)
    → epoch ≢ 0
    → epoch ≤ 32767
    → c.min_epoch ≤ epoch
    → lookup epoch c.epochs ≡ some keys
    → length nonce ≡ 24
    → is_sealed_kind h.kind ≡ false
    → length payload < 2 ^ 32
    → length (codec.encode (record h { payload_len = length payload }) ++ payload) ≤ 2 ^ 63
    → length
        (padded c.padding (codec.encode (record h { payload_len = length payload }) ++ payload))
      ≤ max_inner_len
    → (r : ExtentRecordHeader × List ℕ) × (seal cipher codec encode crc c nonce epoch hash h payload
        ≡ some r)
      × (open_record cipher codec encode crc c r.0 r.1
          ≡ ok (record {
            kind = h.kind;
            codec_id = h.codec_id;
            uncompressed_len = h.uncompressed_len;
            backpointers = h.backpointers;
            payload = payload;
            epoch = epoch;
          }))
unfolding seal open_record
open_record-seal cipher codec encode crc c nonce epoch hash h payload keys nz top min q n k l small
      fits =
    let h' : InnerHeader = record h { payload_len = length payload } in
    let inner = padded c.padding (codec.encode h' ++ payload) in
    let s = sealed_with cipher codec encode crc c nonce epoch hash inner keys in
    let e =
      record_epoch-sealed_header cipher codec encode crc hash epoch
        ((length inner + overhead) % 2 ^ 32) nz top in
    let a : ((epoch == 0) || ltb 32767 epoch) ≡ false = ground arith in
    let m : length payload % 2 ^ 32 ≡ length payload = omega arith in
    let b : ltb epoch c.min_epoch ≡ false = ground arith in
    let z : (epoch == 0) ≡ false = ground arith in
    (
      s,
      rw (a, q, m) refl,
      ap (opened_at cipher codec encode crc c s.0 s.1) e
          ∙ rw (b, z)
              (opened_sealed-sealed_with cipher codec encode crc c nonce epoch hash h payload keys q
                n k l small fits),
    )
