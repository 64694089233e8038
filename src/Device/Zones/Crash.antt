-- ===== src/Device/Zones/Crash.antt =====
-- A crash while a segment is removed (`mark_removed` of crates/lchfs-device/src/lib.rs): a flush
-- makes what was written before it durable, and of the writes behind the last flush any may be
-- lost.
use lchfs.Common.{
  ℕ, ◌<◌, ◌≡◌, refl, sym, ap, subst, ◌∙◌, arith, true, false, ◌&&◌, length, get_or, set, All, inl,
  inr, ◌≢◌, ◌⊎◌, append_nil,
}
use lchfs.Common.{Option, none, some, List, [], ◌∷◌, ◌++◌, ltb, ◌==◌, Bool-cases}
use lchfs.Device.Zones.{
  SegmentKey, key_eq, ZoneHeader, Segment, Device, sort_parts, payload_len, freeing_block, parts,
  firsts, rests, removal_rounds, mark_freeing, recovered, adopted, nothing_adopted,
}
use lchfs.Device.Zones.Parts.{numbered, adopt-no_first, All-sort_parts}
use lchfs.Device.Zones.Blocks.{
  parts-same, part_at, is_in, length-set, length-set_all, get_or-set, get_or-set_all,
}
use lchfs.Device.Zones.Valid.{IsValid}
use lchfs.Device.Zones.Removal.{IsMarked, marked-others, marked-first, zone_in_range}

module _ (crc : ZoneHeader → ℕ) (uuid : List ℕ) where
  -- Some of the marks that were written since the last flush have landed.
  pub data Partly : List ℕ → List (Option ZoneHeader) → List (Option ZoneHeader) → Type 0 where
    nothing : (bs : List (Option ZoneHeader)) → Partly [] bs bs
    lost :
        (z : ℕ) (zs : List ℕ) (bs cs : List (Option ZoneHeader))
        → Partly zs bs cs
        → Partly (z ∷ zs) bs cs
    landed :
        (z : ℕ) (zs : List ℕ) (bs cs : List (Option ZoneHeader))
        → Partly zs bs cs
        → Partly (z ∷ zs) bs (set cs z (freeing_block crc uuid))

  -- The headers that a crash can leave while rounds of marks are written, each flushed before the
  -- next begins.
  pub data Interrupted
      : List (List ℕ) → List (Option ZoneHeader) → List (Option ZoneHeader) → Type 0 where
    in_round :
        (zs : List ℕ) (rounds : List (List ℕ)) (bs cs : List (Option ZoneHeader))
        → Partly zs bs cs
        → Interrupted (zs ∷ rounds) bs cs
    flushed :
        (zs : List ℕ) (rounds : List (List ℕ)) (bs cs : List (Option ZoneHeader))
        → Interrupted rounds (mark_freeing crc uuid zs bs) cs
        → Interrupted (zs ∷ rounds) bs cs

  Partly-IsMarked :
      (zs : List ℕ) (bs cs : List (Option ZoneHeader))
      → Partly zs bs cs
      → IsMarked crc uuid zs bs cs
  Partly-IsMarked _ _ _ (nothing bs) = record { lengths = refl; each = λ i. inl refl }
  Partly-IsMarked _ _ _ (lost z zs bs cs p) =
      let m = Partly-IsMarked zs bs cs p in
      record {
        lengths = m.lengths;
        each = λ i. elim (m.each i) [ inl e ↦ inl e | inr (h, e) ↦ inr (ground arith, e) ];
      }
  Partly-IsMarked _ _ _ (landed z zs bs cs p) =
      let m = Partly-IsMarked zs bs cs p in
      let b = freeing_block crc uuid in
      record {
        lengths = m.lengths ∙ sym (length-set cs z b);
        each = λ i. elim (Bool-cases ((z == i) && ltb i (length cs))) [
          | inl e ↦ inr (ground arith, rw e at (get_or-set cs z i b none))
          | inr e ↦
              let g : get_or (set cs z b) i none ≡ get_or cs i none =
                rw e at (get_or-set cs z i b none) in
              elim (m.each i) [ inl f ↦ inl (g ∙ f) | inr (h, f) ↦ inr (ground arith, g ∙ f) ]
        ];
      }

  pub IsMarked-weaken :
      (xs ys : List ℕ) (bs cs : List (Option ZoneHeader))
      → ((i : ℕ) → is_in i xs ≡ true → is_in i ys ≡ true)
      → IsMarked crc uuid xs bs cs
      → IsMarked crc uuid ys bs cs
  IsMarked-weaken xs ys bs cs h m = record {
    lengths = m.lengths;
    each = λ i. elim (m.each i) [ inl e ↦ inl e | inr (g, e) ↦ inr (h i g, e) ];
  }

  pub mark_freeing-IsMarked :
      (xs : List ℕ) (bs : List (Option ZoneHeader))
      → IsMarked crc uuid xs bs (mark_freeing crc uuid xs bs)
  unfolding mark_freeing
  mark_freeing-IsMarked xs bs = record {
    lengths = sym (length-set_all xs (freeing_block crc uuid) bs);
    each = λ i.
        let g = get_or-set_all xs bs i (freeing_block crc uuid) none in
        elim (Bool-cases (is_in i xs && ltb i (length bs))) [
          | inl e ↦ inr (ground arith, rw e at g)
          | inr e ↦ inl (rw e at g)
        ];
  }

  pub mark_freeing-get_or :
      (xs : List ℕ) (bs : List (Option ZoneHeader)) (i : ℕ)
      → is_in i xs ≡ true
      → i < length bs
      → get_or (mark_freeing crc uuid xs bs) i none ≡ freeing_block crc uuid
  unfolding mark_freeing
  mark_freeing-get_or xs bs i h r =
      let g = get_or-set_all xs bs i (freeing_block crc uuid) none in
      let t : (is_in i xs && ltb i (length bs)) ≡ true = ground arith in rw t at g

  pub IsMarked-trans :
      (zs : List ℕ) (bs cs ds : List (Option ZoneHeader))
      → IsMarked crc uuid zs bs cs
      → IsMarked crc uuid zs cs ds
      → IsMarked crc uuid zs bs ds
  IsMarked-trans zs bs cs ds m n = record {
    lengths = m.lengths ∙ n.lengths;
    each = λ i. elim (n.each i) [
      | inr r ↦ inr r
      | inl e ↦ elim (m.each i) [ inl f ↦ inl (e ∙ f) | inr (g, f) ↦ inr (g, e ∙ f) ]
    ];
  }

  pub recovered-same :
      (k : SegmentKey) (payload : ℕ) (bs cs : List (Option ZoneHeader))
      → parts crc uuid k 0 cs ≡ parts crc uuid k 0 bs
      → recovered crc uuid payload cs k ≡ recovered crc uuid payload bs k
  unfolding recovered adopted
  recovered-same k payload bs cs e = rw e refl

  pub recovered-none :
      (k : SegmentKey) (payload : ℕ) (bs : List (Option ZoneHeader))
      → All (λ p. p.ordinal ≢ 0) (parts crc uuid k 0 bs)
      → recovered crc uuid payload bs k ≡ none
  unfolding recovered adopted
  recovered-none k payload bs h =
      let e =
        adopt-no_first (sort_parts (parts crc uuid k 0 bs)) nothing_adopted
          (All-sort_parts (λ p. p.ordinal ≢ 0) (parts crc uuid k 0 bs) h) refl in
      rw e refl

  -- Both rounds of marks over one segment's zones.
  pub marks :
      (first : ℕ) (rest : List ℕ) (bs : List (Option ZoneHeader))
      → IsMarked crc uuid
          (first ∷ rest)
          bs
          (mark_freeing crc uuid (rest ++ []) (mark_freeing crc uuid (first ∷ []) bs))
  marks first rest bs =
      let l : rest ++ [] ≡ rest = append_nil rest in
      let ms = mark_freeing crc uuid (first ∷ []) bs in
      let cs = mark_freeing crc uuid (rest ++ []) ms in
      IsMarked-trans (first ∷ rest) bs ms cs
        (IsMarked-weaken (first ∷ []) (first ∷ rest) bs ms (λ i h. ground arith)
          (mark_freeing-IsMarked (first ∷ []) bs))
        (IsMarked-weaken (rest ++ []) (first ∷ rest) ms cs
          (λ i h. let g : is_in i rest ≡ true = rw l at h in ground arith)
          (mark_freeing-IsMarked (rest ++ []) ms))

  pub marks-get_or :
      (first : ℕ) (rest : List ℕ) (bs : List (Option ZoneHeader)) (i : ℕ)
      → is_in i (first ∷ rest) ≡ true
      → i < length bs
      → get_or (mark_freeing crc uuid (rest ++ []) (mark_freeing crc uuid (first ∷ []) bs)) i none
        ≡ freeing_block crc uuid
  marks-get_or first rest bs i h r =
      let l : rest ++ [] ≡ rest = append_nil rest in
      let m = mark_freeing-IsMarked (first ∷ []) bs in
      let ms = mark_freeing crc uuid (first ∷ []) bs in
      rw l (elim (Bool-cases (is_in i rest)) [
        | inl e ↦ mark_freeing-get_or rest ms i e (let q = m.lengths in omega arith)
        | inr e ↦ elim ((mark_freeing-IsMarked rest ms).each i) [
          | inr (_, f) ↦ f
          | inl f ↦ f ∙ mark_freeing-get_or (first ∷ []) bs i (ground arith) r
        ]
      ])

  -- The headers of one segment, marked as far as a crash let it.
  module _ (k : SegmentKey) (payload len first : ℕ) (rest : List ℕ)
      (bs cs : List (Option ZoneHeader))
      (told : sort_parts (parts crc uuid k 0 bs) ≡ numbered 0 len (first ∷ rest)) where
    whole_or_gone :
        IsMarked crc uuid (first ∷ rest) bs cs
        → (get_or cs first none ≡ freeing_block crc uuid)
          ⊎ (parts crc uuid k 0 cs ≡ parts crc uuid k 0 bs)
        → ((j : SegmentKey)
            → key_eq k j ≡ false
            → recovered crc uuid payload cs j ≡ recovered crc uuid payload bs j)
          × ((recovered crc uuid payload cs k ≡ recovered crc uuid payload bs k)
              ⊎ (recovered crc uuid payload cs k ≡ none))
    whole_or_gone m h = (
      λ j n.
          recovered-same j payload bs cs
            (marked-others crc uuid k bs len (first ∷ rest) told cs m j n),
      elim h [
        | inl e ↦ inr (
            recovered-none k payload cs
              (marked-first crc uuid k bs len (first ∷ rest) told cs m first rest refl e))
        | inr e ↦ inl (recovered-same k payload bs cs e)
      ],
    )

    interrupted :
        Interrupted (removal_rounds ((first ∷ rest) ∷ [])) bs cs
        → ((j : SegmentKey)
            → key_eq k j ≡ false
            → recovered crc uuid payload cs j ≡ recovered crc uuid payload bs j)
          × ((recovered crc uuid payload cs k ≡ recovered crc uuid payload bs k)
              ⊎ (recovered crc uuid payload cs k ≡ none))
    unfolding removal_rounds firsts rests
    interrupted (in_round _ _ _ _ p) =
        let m = Partly-IsMarked (first ∷ []) bs cs p in
        whole_or_gone (IsMarked-weaken (first ∷ []) (first ∷ rest) bs cs (λ i h. ground arith) m)
          (elim (m.each first) [
            | inr (h, e) ↦ inl e
            | inl e ↦ inr (
                parts-same crc uuid k bs cs m.lengths (λ i. elim (m.each i) [
                  | inl f ↦ ap (part_at crc uuid k i) f
                  | inr (h, f) ↦
                      let q : i ≡ first = ground arith in
                      subst
                        (λ x.
                          part_at crc uuid k x (get_or cs x none)
                          ≡ part_at crc uuid k x (get_or bs x none))
                        (sym q) (ap (part_at crc uuid k first) e)
                ]))
          ])
    interrupted (flushed _ _ _ _ (flushed _ _ _ _ x)) = elim x [ ]
    interrupted (flushed _ _ _ _ (in_round _ _ _ _ p)) =
        let l : rest ++ [] ≡ rest = append_nil rest in
        let ms = mark_freeing crc uuid (first ∷ []) bs in
        let m = Partly-IsMarked (rest ++ []) ms cs p in
        let f = mark_freeing-IsMarked (first ∷ []) bs in
        whole_or_gone
          (IsMarked-trans (first ∷ rest) bs ms cs
            (IsMarked-weaken (first ∷ []) (first ∷ rest) bs ms (λ i h. ground arith) f)
            (IsMarked-weaken (rest ++ []) (first ∷ rest) ms cs
              (λ i h. let g : is_in i rest ≡ true = rw l at h in ground arith) m))
          (inl (
            let range = zone_in_range crc uuid k bs len (first ∷ rest) told first (ground arith) in
            let g = mark_freeing-get_or (first ∷ []) bs first (ground arith) range in
            elim (m.each first) [ inl e ↦ e ∙ g | inr (h, e) ↦ e ]))

-- A crash while a segment is removed leaves the segment whole or gone for the next mount, and
-- leaves every other segment of a device whose headers tell its table as it was.
pub remove_segment-Interrupted :
    (crc : ZoneHeader → ℕ) (d : Device) (k : SegmentKey) (s : Segment)
    (cs : List (Option ZoneHeader))
    → IsValid crc d
    → d.segments k ≡ some s
    → Interrupted crc d.device_uuid (removal_rounds (s.zones ∷ [])) d.blocks cs
    → ((j : SegmentKey)
        → key_eq k j ≡ false
        → recovered crc d.device_uuid (payload_len d) cs j
          ≡ recovered crc d.device_uuid (payload_len d) d.blocks j)
      × ((recovered crc d.device_uuid (payload_len d) cs k
            ≡ recovered crc d.device_uuid (payload_len d) d.blocks k)
          ⊎ (recovered crc d.device_uuid (payload_len d) cs k ≡ none))
remove_segment-Interrupted crc d k s cs v e i =
    let t = rw e at (v.told k) in by_zones s.zones t (rw e at (v.sound k)).0 i
  where
    by_zones :
        (zs : List ℕ)
        → sort_parts (parts crc d.device_uuid k 0 d.blocks) ≡ numbered 0 s.synced_len zs
        → zs ≢ []
        → Interrupted crc d.device_uuid (removal_rounds (zs ∷ [])) d.blocks cs
        → ((j : SegmentKey)
            → key_eq k j ≡ false
            → recovered crc d.device_uuid (payload_len d) cs j
              ≡ recovered crc d.device_uuid (payload_len d) d.blocks j)
          × ((recovered crc d.device_uuid (payload_len d) cs k
                ≡ recovered crc d.device_uuid (payload_len d) d.blocks k)
              ⊎ (recovered crc d.device_uuid (payload_len d) cs k ≡ none))
    by_zones [] t n i = absurd (n refl)
    by_zones (first ∷ rest) t n i =
        interrupted crc d.device_uuid k (payload_len d) s.synced_len first rest d.blocks cs t i
