-- ===== src/Device/Keyring/Torn.antt =====
-- Writing the keyring: the next read gives what was written, and a torn write leaves the keyring
-- that was there.
use lchfs.Common.{
  ℕ, ◌+◌, ◌-◌, ◌*◌, ◌%◌, ◌^◌, ◌≤◌, ◌<◌, ◌≡◌, ◌≢◌, refl, sym, ap, ◌∙◌, subst, true, false,
}
use lchfs.Common.{◌||◌, ◌⊎◌, inl, inr, arith, max, Bool-cases}
use lchfs.Common.{
  Option, none, some, List, ◌++◌, ltb, leb, ◌==◌, length, take, drop, append_assoc, drop-drop,
  length-append,
}
use lchfs.Common.{take-length, length-take, length-drop, take-length_append, drop-length_append}
use lchfs.Common.Bytes.{
  to_le_bytes, from_le_bytes, length-to_le_bytes, from-to_le_bytes, take_le, drop_le, take_all,
}
use lchfs.Common.Buffers.{
  byte, slice, overlay, byte-overlay, byte-slice, length-overlay, eq_of_bytes,
}
use lchfs.Device.Keyring.{
  copy_at, read_region, write_region, keyring_copy, newer, read_keyring, generation_of,
}
use native.Mathlib.Nat.{mul-le-mul_right}
use lchfs.Device.Keyring.{target_of, keyring_bytes, write_keyring}

length-slice : (lo hi : ℕ) (xs : List ℕ) → hi ≤ length xs → length (slice lo hi xs) ≡ hi - lo
length-slice lo hi xs h = omega (arith, length-take (hi - lo) (drop lo xs), length-drop lo xs)

-- A range that the written bytes do not touch, and a range within them.
slice-overlay_outside :
    (s lo hi : ℕ) (d xs : List ℕ)
    → hi ≤ length xs
    → (hi ≤ s) ⊎ (s + length d ≤ lo)
    → slice lo hi (overlay s d xs) ≡ slice lo hi xs
slice-overlay_outside s lo hi d xs h apart =
    let n = length-slice lo hi xs h in
    let n' = length-slice lo hi (overlay s d xs) (omega (arith, length-overlay s d xs)) in
    eq_of_bytes (slice lo hi (overlay s d xs)) (slice lo hi xs) (omega arith) λ i inside. ground (
      arith,
      byte-slice lo hi (overlay s d xs) i,
      byte-slice lo hi xs i,
      byte-overlay s d xs (lo + i),
    )

slice-overlay_inside :
    (s lo hi : ℕ) (d xs : List ℕ)
    → s + length d ≤ length xs
    → s ≤ lo
    → hi ≤ s + length d
    → slice lo hi (overlay s d xs) ≡ slice (lo - s) (hi - s) d
slice-overlay_inside s lo hi d xs fits below above =
    let n = length-slice (lo - s) (hi - s) d (omega arith) in
    let n' = length-slice lo hi (overlay s d xs) (omega (arith, length-overlay s d xs)) in
    eq_of_bytes (slice lo hi (overlay s d xs)) (slice (lo - s) (hi - s) d) (omega arith) λ i inside.
      let e : lo + i - s ≡ lo - s + i = omega arith in
      ground (
        arith,
        byte-slice lo hi (overlay s d xs) i,
        byte-slice (lo - s) (hi - s) d i,
        byte-overlay s d xs (lo + i),
        ap (byte d) e,
      )

module _ (crc : List ℕ → ℕ) (copy_len : ℕ) where
  -- Two regions agree on a copy.
  abbrev SameCopy : ℕ → List ℕ → List ℕ → Type 0
  SameCopy copy r r' =
      (length r ≡ length r')
      × ((lo hi : ℕ)
          → copy * copy_len ≤ lo
          → hi ≤ (copy + 1) * copy_len
          → hi ≤ length r
          → slice lo hi r ≡ slice lo hi r')

  read_region-same :
      (copy : ℕ) (r r' : List ℕ) (offset len : ℕ)
      → SameCopy copy r r'
      → copy * copy_len ≤ offset
      → offset + len ≤ (copy + 1) * copy_len
      → read_region r offset len ≡ read_region r' offset len
  unfolding read_region
  read_region-same copy r r' offset len (l, same) below above =
      elim (Bool-cases (leb (2 ^ 64) (offset + len) || ltb (length r) (offset + len))) [
        | inl out ↦ rw (← l, out) refl
        | inr inside ↦
            rw (← l, inside) (ap some (same offset (offset + len) below above (ground arith)))
      ]

  keyring_copy-same :
      (copy : ℕ) (r r' : List ℕ)
      → 16 ≤ copy_len
      → SameCopy copy r r'
      → keyring_copy crc copy_len r copy ≡ keyring_copy crc copy_len r' copy
  unfolding keyring_copy
  keyring_copy-same copy r r' room same =
      ap (copy_at crc copy_len r (copy * copy_len))
        (read_region-same copy r r' (copy * copy_len) 16 same (omega arith) (omega arith))
      ∙ on_head (read_region r' (copy * copy_len) 16)
    where
      on_head :
          (o : Option (List ℕ))
          → copy_at crc copy_len r (copy * copy_len) o ≡ copy_at crc copy_len r' (copy * copy_len) o
      on_head none = refl
      on_head (some head) =
          let len = from_le_bytes (take 4 (drop 8 head)) in
          elim (Bool-cases ((from_le_bytes (take 8 head) == 0) || ltb copy_len (len + 16))) [
            | inl bad ↦ rw bad refl
            | inr fine ↦
                let here =
                  read_region-same copy r r' (copy * copy_len + 16) len same (omega arith)
                    (ground arith) in
                rw (fine, here) refl
          ]

  -- Two copies have room in the region, and writing one does not touch the other.
  SameCopy-overlay :
      (copy target : ℕ) (d r : List ℕ)
      → length d ≤ copy_len
      → copy ≢ target
      → SameCopy copy r (overlay (target * copy_len) d r)
  SameCopy-overlay copy target d r fits other = (
    sym (length-overlay (target * copy_len) d r),
    λ lo hi below above inside. sym (
        slice-overlay_outside (target * copy_len) lo hi d r inside
          (apart (compare_copies copy target other) below above)),
  )
    where
      compare_copies : (a b : ℕ) → a ≢ b → (a + 1 ≤ b) ⊎ (b + 1 ≤ a)
      compare_copies a b h = ground arith

      apart :
          {lo hi : ℕ}
          → (copy + 1 ≤ target) ⊎ (target + 1 ≤ copy)
          → copy * copy_len ≤ lo
          → hi ≤ (copy + 1) * copy_len
          → (hi ≤ target * copy_len) ⊎ (target * copy_len + length d ≤ lo)
      apart (inl h) below above = inl (omega (arith, mul-le-mul_right copy_len h))
      apart (inr h) below above = inr (omega (arith, mul-le-mul_right copy_len h))

  -- The copies of the keyring have different generations, if there are two.
  abbrev pub Differ : Option (ℕ × List ℕ) → Option (ℕ × List ℕ) → Type 0
  Differ (some a) (some b) = a.0 ≢ b.0
  Differ _ _ = Unit

  newer-first :
      (a b : Option (ℕ × List ℕ))
      → Differ a b
      → target_of crc copy_len a b ≡ 0
      → newer crc copy_len none b ≡ newer crc copy_len a b
  newer-first none b d t = refl
  newer-first (some a) none d t = absurd (omega arith)
  newer-first (some a) (some b) d t = ground arith

  newer-second :
      (a b : Option (ℕ × List ℕ))
      → Differ a b
      → target_of crc copy_len a b ≡ 1
      → newer crc copy_len a none ≡ newer crc copy_len a b
  newer-second none b d t = absurd (omega arith)
  newer-second (some a) none d t = refl
  newer-second (some a) (some b) d t = ground arith

  target-cases :
      (a b : Option (ℕ × List ℕ))
      → (target_of crc copy_len a b ≡ 0) ⊎ (target_of crc copy_len a b ≡ 1)
  target-cases none b = inl refl
  target-cases (some a) none = inr refl
  target-cases (some a) (some b) = ground arith

  abbrev pub target : List ℕ → ℕ
  target region =
      target_of crc copy_len (keyring_copy crc copy_len region 0)
        (keyring_copy crc copy_len region 1)

  -- For copies of sixteen bytes or more, whose generations differ if both are valid: whatever bytes a
  -- torn write leaves within the copy that it replaces, if they are no valid copy, the
  -- keyring is read as it was before.
  pub read-torn_keyring :
      (region torn : List ℕ)
      → 16 ≤ copy_len
      → length torn ≤ copy_len
      → Differ (keyring_copy crc copy_len region 0) (keyring_copy crc copy_len region 1)
      → keyring_copy crc copy_len (overlay (target region * copy_len) torn region) (target region)
        ≡ none
      → read_keyring crc copy_len (overlay (target region * copy_len) torn region)
        ≡ read_keyring crc copy_len region
  unfolding read_keyring
  read-torn_keyring region torn room fits differ invalid =
      elim (target-cases (keyring_copy crc copy_len region 0)
        (keyring_copy crc copy_len region 1)) [
          | inl first ↦ subst (λ t. Kept t) (sym first) (kept_first first) invalid
          | inr second ↦ subst (λ t. Kept t) (sym second) (kept_second second) invalid
        ]
    where
      Kept : ℕ → Type 0
      Kept t =
          keyring_copy crc copy_len (overlay (t * copy_len) torn region) t ≡ none
          → newer crc copy_len (keyring_copy crc copy_len (overlay (t * copy_len) torn region) 0)
              (keyring_copy crc copy_len (overlay (t * copy_len) torn region) 1)
            ≡ newer crc copy_len (keyring_copy crc copy_len region 0)
                (keyring_copy crc copy_len region 1)

      kept_first : target region ≡ 0 → Kept 0
      kept_first t bad =
          rw
            (
              bad,
              ← keyring_copy-same 1 region (overlay (0 * copy_len) torn region) room
                  (SameCopy-overlay 1 0 torn region fits (ground arith)),
            )
            (newer-first (keyring_copy crc copy_len region 0) (keyring_copy crc copy_len region 1)
              differ t)

      kept_second : target region ≡ 1 → Kept 1
      kept_second t bad =
          rw
            (
              bad,
              ← keyring_copy-same 0 region (overlay (1 * copy_len) torn region) room
                  (SameCopy-overlay 0 1 torn region fits (ground arith)),
            )
            (newer-second (keyring_copy crc copy_len region 0) (keyring_copy crc copy_len region 1)
              differ t)

  abbrev framing : ℕ → List ℕ → List ℕ
  framing generation bytes =
      to_le_bytes 8 generation ++ (to_le_bytes 4 (length bytes) ++ to_le_bytes 4 (crc bytes))

  keyring_bytes-framing :
      (g : ℕ) (bytes : List ℕ) → keyring_bytes crc copy_len g bytes ≡ framing g bytes ++ bytes
  keyring_bytes-framing g bytes = sym (
      append_assoc (to_le_bytes 8 g) (to_le_bytes 4 (length bytes) ++ to_le_bytes 4 (crc bytes))
        bytes
      ∙ ap (λ (t : List ℕ). to_le_bytes 8 g ++ t)
          (append_assoc (to_le_bytes 4 (length bytes)) (to_le_bytes 4 (crc bytes)) bytes))

  length-framing : (g : ℕ) (bytes : List ℕ) → length (framing g bytes) ≡ 16
  length-framing g bytes = omega (
    arith,
    length-append (to_le_bytes 8 g) (to_le_bytes 4 (length bytes) ++ to_le_bytes 4 (crc bytes)),
    length-append (to_le_bytes 4 (length bytes)) (to_le_bytes 4 (crc bytes)),
    length-to_le_bytes 8 g,
    length-to_le_bytes 4 (length bytes),
    length-to_le_bytes 4 (crc bytes),
  )

  -- A generation, a length and a checksum that their fields hold.
  abbrev pub Framable : ℕ → List ℕ → Type 0
  Framable g bytes =
      (0 < g)
      × ((g < 2 ^ 64)
          × ((length bytes < 2 ^ 32) × ((crc bytes < 2 ^ 32) × (length bytes + 16 ≤ copy_len))))

  read_region-inside :
      (s lo len : ℕ) (d r : List ℕ)
      → s + length d ≤ length r
      → length r < 2 ^ 64
      → s ≤ lo
      → lo + len ≤ s + length d
      → read_region (overlay s d r) lo len ≡ some (slice (lo - s) (lo + len - s) d)
  unfolding read_region
  read_region-inside s lo len d r fits small below above =
      let ok_here : (leb (2 ^ 64) (lo + len) || ltb (length (overlay s d r)) (lo + len)) ≡ false =
        ground (arith, length-overlay s d r) in
      rw ok_here (ap some (slice-overlay_inside s lo (lo + len) d r fits below above))

  copy_at-framing :
      (r : List ℕ) (base g : ℕ) (bytes : List ℕ)
      → Framable g bytes
      → read_region r (base + 16) (length bytes) ≡ some bytes
      → copy_at crc copy_len r base (some (framing g bytes)) ≡ some (g, bytes)
  copy_at-framing r base g bytes (some_g, (g_fits, (len_fits, (crc_fits, room)))) stored =
      let n = length bytes in
      let after_g = drop_le 8 g (to_le_bytes 4 n ++ to_le_bytes 4 (crc bytes)) in
      let sum_on : drop 12 (framing g bytes) ≡ to_le_bytes 4 (crc bytes) =
        drop_twelve (framing g bytes)
        ∙ ap (drop 4) after_g
        ∙ drop_le 4 n (to_le_bytes 4 (crc bytes)) in
      let g_is : from_le_bytes (take 8 (framing g bytes)) ≡ g =
        ap from_le_bytes (take_le 8 g (to_le_bytes 4 n ++ to_le_bytes 4 (crc bytes)))
        ∙ from-to_le_bytes 8 g (omega arith) in
      let n_is : from_le_bytes (take 4 (drop 8 (framing g bytes))) ≡ n =
        ap (λ (t : List ℕ). from_le_bytes (take 4 t)) after_g
        ∙ ap from_le_bytes (take_le 4 n (to_le_bytes 4 (crc bytes)))
        ∙ from-to_le_bytes 4 n (omega arith) in
      let sum_is : from_le_bytes (take 4 (drop 12 (framing g bytes))) ≡ crc bytes =
        ap (λ (t : List ℕ). from_le_bytes (take 4 t)) sum_on
        ∙ ap from_le_bytes (take_all 4 (crc bytes))
        ∙ from-to_le_bytes 4 (crc bytes) (omega arith) in
      let fine : ((g == 0) || ltb copy_len (n + 16)) ≡ false = ground arith in
      let same : (crc bytes == crc bytes) ≡ true = ground arith in
      rw (g_is, n_is, sum_is, fine, stored, same) refl
    where
      drop_twelve : (xs : List ℕ) → drop 12 xs ≡ drop 4 (drop 8 xs)
      drop_twelve xs = drop-drop 8 4 xs

  keyring_copy-written :
      (t g : ℕ) (bytes region : List ℕ)
      → Framable g bytes
      → (t + 1) * copy_len ≤ length region
      → length region < 2 ^ 64
      → keyring_copy crc copy_len
          (overlay (t * copy_len) (keyring_bytes crc copy_len g bytes) region)
          t
        ≡ some (g, bytes)
  unfolding keyring_copy
  keyring_copy-written t g bytes region f inside small =
      let base = t * copy_len in
      let d = framing g bytes ++ bytes in
      let d_length : length d ≡ 16 + length bytes =
        omega (arith, length-append (framing g bytes) bytes, length-framing g bytes) in
      let fits : base + length d ≤ length region = omega (arith, f.1.1.1.1) in
      rw (keyring_bytes-framing g bytes) (
        ap (copy_at crc copy_len (overlay base d region) base) (
          read_region-inside base base 16 d region fits small (omega arith) (omega arith)
          ∙ ap some (first_part base))
        ∙ copy_at-framing (overlay base d region) base g bytes f (
            read_region-inside base (base + 16) (length bytes) d region fits small (omega arith)
              (omega arith)
            ∙ ap some (second_part base)))
    where
      first_part :
          (base : ℕ)
          → slice (base - base) (base + 16 - base) (framing g bytes ++ bytes) ≡ framing g bytes
      first_part base =
          let e : base - base ≡ 0 = omega arith in
          let n : base + 16 - base - 0 ≡ length (framing g bytes) =
            omega (arith, length-framing g bytes) in
          rw (e, n) (take-length_append (framing g bytes) bytes)

      second_part :
          (base : ℕ)
          → slice (base + 16 - base) (base + 16 + length bytes - base) (framing g bytes ++ bytes)
            ≡ bytes
      second_part base =
          let e : base + 16 - base ≡ length (framing g bytes) =
            omega (arith, length-framing g bytes) in
          let n : base + 16 + length bytes - base - length (framing g bytes) ≡ length bytes =
            omega (arith, length-framing g bytes) in
          rw (e, n, drop-length_append (framing g bytes) bytes) (take-length bytes)

  newer-written :
      (t g : ℕ) (bytes : List ℕ) (o : Option (ℕ × List ℕ))
      → generation_of crc copy_len o < g
      → (newer crc copy_len (some (g, bytes)) o ≡ some bytes)
        × (newer crc copy_len o (some (g, bytes)) ≡ some bytes)
  newer-written t g bytes none h = (refl, refl)
  newer-written t g bytes (some (k, other)) h = (ground arith, ground arith)

  read-written :
      (t g : ℕ) (bytes region : List ℕ)
      → (t ≡ 0) ⊎ (t ≡ 1)
      → 2 * copy_len ≤ length region
      → length region < 2 ^ 64
      → Framable g bytes
      → generation_of crc copy_len (keyring_copy crc copy_len region 0) < g
      → generation_of crc copy_len (keyring_copy crc copy_len region 1) < g
      → read_keyring crc copy_len
          (overlay (t * copy_len) (keyring_bytes crc copy_len g bytes) region)
        ≡ some bytes
  unfolding read_keyring
  read-written t g bytes region which room small f low0 low1 = on_copy which
    where
      kb_length : length (keyring_bytes crc copy_len g bytes) ≤ copy_len
      kb_length =
          rw (keyring_bytes-framing g bytes) (
            omega (arith, length-append (framing g bytes) bytes, length-framing g bytes, f.1.1.1.1))

      on_copy :
          (t ≡ 0) ⊎ (t ≡ 1)
          → newer crc copy_len
              (keyring_copy crc copy_len
                (overlay (t * copy_len) (keyring_bytes crc copy_len g bytes) region)
                0)
              (keyring_copy crc copy_len
                (overlay (t * copy_len) (keyring_bytes crc copy_len g bytes) region)
                1)
            ≡ some bytes
      on_copy (inl e) =
          rw
            (
              e,
              keyring_copy-written 0 g bytes region f (omega arith) small,
              ← keyring_copy-same 1 region
                  (overlay (0 * copy_len) (keyring_bytes crc copy_len g bytes) region)
                  (omega (arith, f.1.1.1.1))
                  (SameCopy-overlay 1 0 (keyring_bytes crc copy_len g bytes) region kb_length
                    (ground arith)),
            )
            (newer-written t g bytes (keyring_copy crc copy_len region 1) low1).0
      on_copy (inr e) =
          rw
            (
              e,
              keyring_copy-written 1 g bytes region f (omega arith) small,
              ← keyring_copy-same 0 region
                  (overlay (1 * copy_len) (keyring_bytes crc copy_len g bytes) region)
                  (omega (arith, f.1.1.1.1))
                  (SameCopy-overlay 0 1 (keyring_bytes crc copy_len g bytes) region kb_length
                    (ground arith)),
            )
            (newer-written t g bytes (keyring_copy crc copy_len region 0) low0).1

  -- A keyring of bytes that fit a copy is read back once it is written, if the region has its two
  -- copies, the checksum is a u32 and the generations have not run out.
  pub read-write_keyring :
      (bytes region after : List ℕ)
      → 2 * copy_len ≤ length region
      → length region < 2 ^ 64
      → length bytes < 2 ^ 32
      → crc bytes < 2 ^ 32
      → generation_of crc copy_len (keyring_copy crc copy_len region 0) + 1 < 2 ^ 64
      → generation_of crc copy_len (keyring_copy crc copy_len region 1) + 1 < 2 ^ 64
      → write_keyring crc copy_len bytes region ≡ some after
      → read_keyring crc copy_len after ≡ some bytes
  unfolding write_keyring write_region
  read-write_keyring bytes region after room small len_fits crc_fits low0 low1 written =
      let a = keyring_copy crc copy_len region 0 in
      let b = keyring_copy crc copy_len region 1 in
      let top = max (generation_of crc copy_len a) (generation_of crc copy_len b) in
      let g = (top + 1) % 2 ^ 64 in
      let fits : length bytes + 16 ≤ copy_len = ground arith in
      let e : after
          ≡ overlay (target region * copy_len) (keyring_bytes crc copy_len g bytes) region =
        ground arith in
      rw e (
        read-written (target region) g bytes region (target-cases a b) room small
          (omega arith, (omega arith, (len_fits, (crc_fits, fits)))) (omega arith) (omega arith))
