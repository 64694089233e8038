-- ===== src/Store/Superblock/Commit.antt =====
-- Committing a slot to the ring: the next mount reads it, and a torn commit leaves the last one.
use lchfs.Common.{ℕ, zero, suc, ◌+◌, ◌-◌, ◌%◌, ◌^◌, ◌≤◌, ◌<◌, ◌≡◌, ◌⊎◌, refl, sym, ap, ◌∙◌}
use lchfs.Common.{Option, none, some, List, [], ◌∷◌, ◌++◌, ltb, length, replicate}
use lchfs.Common.{take, drop, set, get_elem?, Result, ok, arith, inl, inr, Bool-cases, All}
use lchfs.Common.{length-append, take-length_append, drop-length_append}
use lchfs.Common.Names.{name_eq_iff}
use lchfs.Common.Bytes.{Bincode, to_le_bytes, length-to_le_bytes, from-to_le_bytes}
use lchfs.Format.Superblock.{
  SuperblockSlot, SuperblockSlotV2, superblock_magic, superblock_slot_size,
}
use lchfs.Format.Superblock.{superblock_slot_count, format_version}
use lchfs.Format.Superblock.{compute_superblock_slot_checksum}
use lchfs.Store.Superblock.{
  SlotError, Verdict, skip, candidate, refuse, slot_bytes, judge_slot, judge,
}
use lchfs.Store.Superblock.{better, read_slots, read_superblock, slot_block, write_superblock_slot}

-- The bytes before the zeros are found again by their length.
take_prefix : (n : ℕ) (xs ys : List ℕ) → length xs ≡ n → take n (xs ++ ys) ≡ xs
take_prefix n xs ys h = rw (← h) (take-length_append xs ys)

drop_prefix : (n : ℕ) (xs ys : List ℕ) → length xs ≡ n → drop n (xs ++ ys) ≡ ys
drop_prefix n xs ys h = rw (← h) (drop-length_append xs ys)

pub slot_bytes-framed :
    (encoded pad : List ℕ)
    → 0 < length encoded
    → length encoded < 2 ^ 32
    → slot_bytes (to_le_bytes 4 (length encoded) ++ (encoded ++ pad)) ≡ some encoded
unfolding slot_bytes
slot_bytes-framed encoded pad some_byte fits =
    let n = length encoded in
    let head : take 4 (to_le_bytes 4 n ++ (encoded ++ pad)) ≡ to_le_bytes 4 n =
      take_prefix 4 (to_le_bytes 4 n) (encoded ++ pad) (length-to_le_bytes 4 n) in
    let tail : drop 4 (to_le_bytes 4 n ++ (encoded ++ pad)) ≡ encoded ++ pad =
      drop_prefix 4 (to_le_bytes 4 n) (encoded ++ pad) (length-to_le_bytes 4 n) in
    rw (head, tail, from-to_le_bytes 4 n (omega arith), take-length_append encoded pad)
      (ground (
        arith,
        length-append (to_le_bytes 4 n) (encoded ++ pad),
        length-append encoded pad,
        length-to_le_bytes 4 n,
      ))

-- No slot of generation `g` or above, nor a reason to refuse.
abbrev OlderVerdict : ℕ → Verdict → Type 0
OlderVerdict g skip = Unit
OlderVerdict g (candidate s) = s.generation < g
OlderVerdict g (refuse _) = ⊥

Verdict-cases :
    (v : Verdict)
    → (v ≡ skip) ⊎ (((s : SuperblockSlot) × (v ≡ candidate s)) ⊎ ((e : SlotError) × (v ≡ refuse e)))
Verdict-cases skip = inl refl
Verdict-cases (candidate s) = inr (inl (s, refl))
Verdict-cases (refuse e) = inr (inr (e, refl))

module _ (bincode : Bincode SuperblockSlot) (legacy : List ℕ → Option SuperblockSlotV2)
    (crc : List ℕ → ℕ) where
  -- A slot that this build writes: finalized, of its version, with a place in the pool, and small
  -- enough for its block.
  pub record IsWritable (slot : SuperblockSlot) : Type 0 where
    pub magic : slot.magic ≡ superblock_magic
    pub version : slot.version ≡ format_version
    pub place : slot.vdev_id < slot.vdev_count
    pub checksum : compute_superblock_slot_checksum bincode crc slot ≡ slot.header_checksum
    pub nonempty : 0 < length (bincode.encode slot)
    pub fits : 4 + length (bincode.encode slot) ≤ superblock_slot_size

  judge-slot_block :
      (slot : SuperblockSlot)
      → IsWritable slot
      → judge bincode legacy crc (slot_block bincode slot) ≡ candidate slot
  unfolding judge slot_block judge_slot
  judge-slot_block slot w =
      let encoded = bincode.encode slot in
      let pad : List ℕ = replicate (superblock_slot_size - (4 + length encoded)) 0 in
      let framed = slot_bytes-framed encoded pad w.nonempty (omega (arith, w.fits)) in
      rw (framed, judge, bincode.decode-encode slot, judge)
        (ground (arith, name_eq_iff slot.magic superblock_magic))

  abbrev verdict : List ℕ → Verdict
  verdict = judge bincode legacy crc

  abbrev reading : Option SuperblockSlot → List (List ℕ) → Result SlotError (Option SuperblockSlot)
  reading = read_slots bincode legacy crc

  -- A block that holds no slot of generation `g` or above, nor a reason to refuse.
  abbrev IsOlder : ℕ → List ℕ → Type 0
  IsOlder g block = OlderVerdict g (verdict block)

  abbrev OlderBest : ℕ → Option SuperblockSlot → Type 0
  OlderBest g none = Unit
  OlderBest g (some b) = b.generation < g

  -- Once the newest slot is the best, the older blocks change nothing.
  reading-newest :
      (slot : SuperblockSlot) (blocks : List (List ℕ))
      → All (IsOlder slot.generation) blocks
      → reading (some slot) blocks ≡ ok (some slot)
  unfolding read_slots better
  reading-newest slot [] old = refl
  reading-newest slot (block ∷ blocks) old = ground (arith, reading-newest slot blocks old.1)

  better-older :
      (best : Option SuperblockSlot) (slot : SuperblockSlot)
      → OlderBest slot.generation best
      → better best slot ≡ some slot
  unfolding better
  better-older none slot h = refl
  better-older (some b) slot h = ground arith

  OlderBest-mono :
      (b s : SuperblockSlot) (best : Option SuperblockSlot)
      → OlderBest b.generation best
      → b.generation ≤ s.generation
      → OlderBest s.generation best
  OlderBest-mono b s none h k = tt
  OlderBest-mono b s (some c) h k = omega arith

  OlderBest-lt :
      (b s : SuperblockSlot) (best : Option SuperblockSlot)
      → better best s ≡ some s
      → s.generation < b.generation
      → (best ≡ some s) ⊎ OlderBest b.generation best
  unfolding better
  OlderBest-lt b s none h k = inr tt
  OlderBest-lt b s (some c) h k = elim (Bool-cases (ltb c.generation s.generation)) [
    | inl older ↦ inr (ground arith)
    | inr other ↦ inl (ground arith)
  ]

  OlderBest-better :
      (g : ℕ) (best : Option SuperblockSlot) (slot : SuperblockSlot)
      → OlderBest g best
      → slot.generation < g
      → OlderBest g (better best slot)
  unfolding better
  OlderBest-better g none slot h k = k
  OlderBest-better g (some b) slot h k = ground arith

  -- A ring of older slots with one block replaced by the newest slot.
  reading-set :
      (slot : SuperblockSlot) (block : List ℕ) (best : Option SuperblockSlot)
      (blocks : List (List ℕ)) (i : ℕ)
      → verdict block ≡ candidate slot
      → i < length blocks
      → OlderBest slot.generation best
      → All (IsOlder slot.generation) blocks
      → reading best (set blocks i block) ≡ ok (some slot)
  unfolding read_slots
  reading-set slot block best [] i new inside b old = absurd (omega arith)
  reading-set slot block best (x ∷ xs) zero new inside b old =
      ground (arith, better-older best slot b, reading-newest slot xs old.1)
  reading-set slot block best (x ∷ xs) (suc i) new inside b old = elim (Verdict-cases (verdict x)) [
    | inl e ↦ ground (arith, reading-set slot block best xs i new)
    | inr (inl (s, e)) ↦ ground (
      arith,
      reading-set slot block (better best s) xs i new,
      OlderBest-better slot.generation best s b,
    )
    | inr (inr (r, e)) ↦ ground arith
  ]

  -- A reading that ends at `b` does not depend on older slots met before.
  reading-forget :
      (b c : SuperblockSlot) (best : Option SuperblockSlot) (blocks : List (List ℕ))
      → reading (some c) blocks ≡ ok (some b)
      → c.generation < b.generation
      → OlderBest b.generation best
      → reading best blocks ≡ ok (some b)
  unfolding read_slots better
  reading-forget b c best [] end old o = absurd (ground arith)
  reading-forget b c best (x ∷ xs) end old o = elim (Verdict-cases (verdict x)) [
    | inl e ↦ ground (arith, reading-forget b c best xs)
    | inr (inl (s, e)) ↦ elim (Bool-cases (ltb s.generation b.generation)) [
      | inr newer ↦ ground (arith, better-older best s (OlderBest-mono b s best o (ground arith)))
      | inl older ↦ elim (Bool-cases (ltb c.generation s.generation)) [
        | inl up ↦
            ground
              (arith, reading-forget b s (better best s) xs, OlderBest-better b.generation best s o)
        | inr same ↦
            ground
              (arith, reading-forget b c (better best s) xs, OlderBest-better b.generation best s o)
      ]
    ]
    | inr (inr (r, e)) ↦ ground arith
  ]

  reading-torn :
      (b : SuperblockSlot) (torn : List ℕ) (best : Option SuperblockSlot) (blocks : List (List ℕ))
      (i : ℕ)
      → verdict torn ≡ skip
      → reading best blocks ≡ ok (some b)
      → ((block : List ℕ) → get_elem? blocks i ≡ some block → IsOlder b.generation block)
      → reading best (set blocks i torn) ≡ ok (some b)
  unfolding read_slots
  reading-torn b torn best [] i t end old = end
  reading-torn b torn best (x ∷ xs) zero t end old = elim (Verdict-cases (verdict x)) [
    | inl e ↦ ground arith
    | inr (inl (s, e)) ↦
        unfold better in
        ground (arith, old x refl, reading-forget b s best xs, OlderBest-lt b s best)
    | inr (inr (r, e)) ↦ ground arith
  ]
  reading-torn b torn best (x ∷ xs) (suc i) t end old = elim (Verdict-cases (verdict x)) [
    | inl e ↦ ground (arith, reading-torn b torn best xs i t (ground arith) old)
    | inr (inl (s, e)) ↦
        ground (arith, reading-torn b torn (better best s) xs i t (ground arith) old)
    | inr (inr (r, e)) ↦ ground arith
  ]

  reading-le :
      (c b : SuperblockSlot) (blocks : List (List ℕ))
      → reading (some c) blocks ≡ ok (some b)
      → c.generation ≤ b.generation
  unfolding read_slots better
  reading-le c b [] end = ground arith
  reading-le c b (x ∷ xs) end = elim (Verdict-cases (verdict x)) [
    | inl e ↦ ground (arith, reading-le c b xs)
    | inr (inl (s, e)) ↦ elim (Bool-cases (ltb c.generation s.generation)) [
      | inl up ↦ ground (arith, reading-le s b xs)
      | inr same ↦ ground (arith, reading-le c b xs)
    ]
    | inr (inr (r, e)) ↦ ground arith
  ]

  -- No slot of the ring is newer than the one that a reading returns.
  reading-bound :
      (b : SuperblockSlot) (best : Option SuperblockSlot) (blocks : List (List ℕ))
      → reading best blocks ≡ ok (some b)
      → All (IsOlder (suc b.generation)) blocks
  unfolding read_slots
  reading-bound b best [] end = tt
  reading-bound b best (x ∷ xs) end = elim (Verdict-cases (verdict x)) [
    | inl e ↦ (rw e tt, reading-bound b best xs (ground arith))
    | inr (inl (s, e)) ↦
        let rest : reading (better best s) xs ≡ ok (some b) = ground arith in
        (rw e (better-le s b best xs rest), reading-bound b (better best s) xs rest)
    | inr (inr (r, e)) ↦ absurd (ground arith)
  ]
    where
      better-le :
          (s b : SuperblockSlot) (best : Option SuperblockSlot) (xs : List (List ℕ))
          → reading (better best s) xs ≡ ok (some b)
          → s.generation < suc b.generation
      better-le s b none xs h = unfold better in omega (arith, reading-le s b xs h)
      better-le s b (some c) xs h = elim (Bool-cases (ltb c.generation s.generation)) [
        | inl up ↦ unfold better in ground (arith, reading-le s b xs)
        | inr same ↦ unfold better in ground (arith, reading-le c b xs)
      ]

  IsOlder-up :
      (g h : ℕ) (blocks : List (List ℕ)) → g ≤ h → All (IsOlder g) blocks → All (IsOlder h) blocks
  IsOlder-up g h [] le old = tt
  IsOlder-up g h (x ∷ xs) le old = elim (Verdict-cases (verdict x)) [
    | inl e ↦ (rw e tt, IsOlder-up g h xs le old.1)
    | inr (inl (s, e)) ↦ (rw e (omega (arith, rw e at old.0)), IsOlder-up g h xs le old.1)
    | inr (inr (r, e)) ↦ absurd (rw e at old.0)
  ]

  -- A ring of sixteen blocks from which `b` was read is read as the new slot, a
  -- writable one of a higher generation, once that is written,
  -- whatever the block that it replaces held.
  pub read-write_superblock_slot :
      (b slot : SuperblockSlot) (ring : List (List ℕ))
      → length ring ≡ superblock_slot_count
      → read_superblock bincode legacy crc ring ≡ ok (some b)
      → IsWritable slot
      → b.generation < slot.generation
      → read_superblock bincode legacy crc (write_superblock_slot bincode slot ring)
        ≡ ok (some slot)
  unfolding read_superblock write_superblock_slot
  read-write_superblock_slot b slot ring sixteen was w newer =
      reading-set slot (slot_block bincode slot) none ring (slot.generation % superblock_slot_count)
        (judge-slot_block slot w) (omega arith) tt
        (IsOlder-up (suc b.generation) slot.generation ring newer (reading-bound b none ring was))

  -- Every slot stands where its generation puts it.
  abbrev pub IsPlaced : List (List ℕ) → Type 0
  IsPlaced ring =
      (i : ℕ) (block : List ℕ) (s : SuperblockSlot)
      → get_elem? ring i ≡ some block
      → verdict block ≡ candidate s
      → s.generation % superblock_slot_count ≡ i

  get-All :
      (g i : ℕ) (block : List ℕ) (blocks : List (List ℕ))
      → All (IsOlder g) blocks
      → get_elem? blocks i ≡ some block
      → IsOlder g block
  get-All g i block [] old h = absurd (ground arith)
  get-All g zero block (x ∷ xs) old h = let e : block ≡ x = ground arith in rw e old.0
  get-All g (suc i) block (x ∷ xs) old h = get-All g i block xs old.1 h

  -- In a ring whose slots stand where their generations put them, with a slot read from it: if the
  -- commit of the next generation is torn, so that its block holds no valid slot, a reading
  -- still returns the slot of the last commit.
  pub read_torn_commit :
      (b : SuperblockSlot) (torn : List ℕ) (ring : List (List ℕ))
      → read_superblock bincode legacy crc ring ≡ ok (some b)
      → IsPlaced ring
      → judge bincode legacy crc torn ≡ skip
      → read_superblock bincode legacy crc
          (set ring ((b.generation + 1) % superblock_slot_count) torn)
        ≡ ok (some b)
  unfolding read_superblock
  read_torn_commit b torn ring was placed t =
      reading-torn b torn none ring ((b.generation + 1) % superblock_slot_count) t was λ block at.
        let bound =
          get-All (suc b.generation) ((b.generation + 1) % superblock_slot_count) block ring
            (reading-bound b none ring was) at in
        elim (Verdict-cases (verdict block)) [
          | inl e ↦ rw e tt
          | inr (inl (s, e)) ↦ rw e (omega (arith, rw e at bound, placed _ block s at e))
          | inr (inr (r, e)) ↦ absurd (rw e at bound)
        ]

  -- Writing a slot keeps every slot in its place.
  pub write_superblock_slot-IsPlaced :
      (slot : SuperblockSlot) (ring : List (List ℕ))
      → IsWritable slot
      → IsPlaced ring
      → IsPlaced (write_superblock_slot bincode slot ring)
  unfolding write_superblock_slot
  write_superblock_slot-IsPlaced slot ring w placed i block s at e =
      elim (get-set ring (slot.generation % superblock_slot_count) i block (slot_block bincode slot)
        at) [
          | inl (here, new) ↦
              let j = judge-slot_block slot w in
              let same : candidate slot ≡ candidate s = sym j ∙ ap verdict (sym new) ∙ e in
              ground arith
          | inr old ↦ placed i block s old e
        ]
    where
      get-set :
          (blocks : List (List ℕ)) (k i : ℕ) (block new : List ℕ)
          → get_elem? (set blocks k new) i ≡ some block
          → ((k ≡ i) × (block ≡ new)) ⊎ (get_elem? blocks i ≡ some block)
      get-set [] k i block new h = inr h
      get-set (x ∷ xs) zero zero block new h = inl (refl, ground arith)
      get-set (x ∷ xs) zero (suc i) block new h = inr h
      get-set (x ∷ xs) (suc k) zero block new h = inr h
      get-set (x ∷ xs) (suc k) (suc i) block new h = elim (get-set xs k i block new h) [
        | inl (e, n) ↦ inl (ap suc e, n)
        | inr old ↦ inr old
      ]
