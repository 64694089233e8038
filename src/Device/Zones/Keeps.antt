-- ===== src/Device/Zones/Keeps.antt =====
-- Every operation on zones keeps the headers on the disk in step with the table in memory
-- (crates/lchfs-device/src/lib.rs), in any order from a device without segments.
use lchfs.Common.{
  ℕ, ◌≡◌, refl, sym, ap, subst, ◌∙◌, arith, Bool, true, false, ◌&&◌, length, get_or, All, inl, inr,
  ◌≢◌, append_nil, replicate,
}
use lchfs.Common.{List, [], ◌∷◌, ◌++◌, ltb, Bool-cases, Option-cases, Result, ok}
use lchfs.Device.Zones.{
  SegmentKey, key_eq, Part, Zone, clean, unknown, held, waiting, ZoneHeader, Device, IoError,
  set_all, sort_parts, payload_len, table_remove, free_block, parts, mark_freeing, mark_removed,
  firsts, rests, mark_rounds, removal_rounds, flatten, remove_segment, release, zero_and_free,
}
use lchfs.Device.Zones.Parts.{numbered, key_eq→eq}
use lchfs.Device.Zones.Blocks.{
  get_or_beyond, is_in, length-set_all, get_or-set_all, part_at, part_at-free, part_at-freeing,
  part_at-set_all, parts-same,
}
use lchfs.Device.Zones.Valid.{IsValid, expected}
use lchfs.Device.Zones.Removal.{marked-others, marked_everywhere, zone_in_range}
use lchfs.Device.Zones.Crash.{marks, marks-get_or}

pub ok_injective : {A : Type 0} (a b : A) → ◌≡◌ {A = Result IoError A} (ok a) (ok b) → a ≡ b
ok_injective a b h = cc

pub no_parts : (ps : List Part) → All (λ p. ⊥) ps → ps ≡ []
no_parts [] h = refl
no_parts (p ∷ ps) h = absurd h.0

abbrev pub is_waiting : Zone → Bool
is_waiting clean = false
is_waiting unknown = false
is_waiting held = false
is_waiting waiting = true

waiting_distinct : waiting ≢ held
waiting_distinct h = let e = ap is_waiting h in ground arith

module _ (crc : ZoneHeader → ℕ) (d : Device) (v : IsValid crc d) where
  -- A segment's zones, marked and taken out of the table.
  module _ (k : SegmentKey) (len first : ℕ) (rest : List ℕ)
      (before : expected (d.segments k) ≡ numbered 0 len (first ∷ rest)) where
    abbrev without : Device
    without = record d {
      blocks =
          mark_freeing crc d.device_uuid (rest ++ [])
            (mark_freeing crc d.device_uuid (first ∷ []) d.blocks);
      zones = set_all ((first ∷ rest) ++ []) waiting d.zones;
      segments = table_remove k d.segments;
    }

    without-IsValid : IsValid crc without
    unfolding sort_parts
    without-IsValid =
        let told_k = v.told k ∙ before in
        let m = marks crc d.device_uuid first rest d.blocks in
        let range = zone_in_range crc d.device_uuid k d.blocks len (first ∷ rest) told_k in
        let gone = λ (i : ℕ) (h : is_in i (first ∷ rest) ≡ true).
          marks-get_or crc d.device_uuid first rest d.blocks i h (range i h) in
        let l : (first ∷ rest) ++ [] ≡ first ∷ rest = append_nil (first ∷ rest) in
        record {
          told = λ j. elim (Bool-cases (key_eq k j)) [
            | inl e ↦
                let a = no_parts (parts crc d.device_uuid k 0 without.blocks) (
                  marked_everywhere crc d.device_uuid k d.blocks len (first ∷ rest) told_k
                    without.blocks m gone) in
                rw e (
                  subst (λ x. sort_parts (parts crc d.device_uuid x 0 without.blocks) ≡ [])
                    (key_eq→eq k j e) (ap sort_parts a))
            | inr e ↦ rw e (
                ap sort_parts (
                  marked-others crc d.device_uuid k d.blocks len (first ∷ rest) told_k
                    without.blocks m j e)
                ∙ v.told j)
          ];
          sound =
              λ j. elim (Bool-cases (key_eq k j)) [ inl e ↦ rw e tt | inr e ↦ rw e (v.sound j) ];
          sizes =
              omega
                (arith, m.lengths, v.sizes, length-set_all ((first ∷ rest) ++ []) waiting d.zones);
          payload_sizes =
              omega (arith, v.payload_sizes, length-set_all ((first ∷ rest) ++ []) waiting d.zones);
          free_unowned = λ j i h. elim (Bool-cases (is_in i (first ∷ rest))) [
            | inl e ↦
                ap (part_at crc d.device_uuid j i) (gone i e)
                ∙ part_at-freeing crc d.device_uuid j i
            | inr e ↦
                let w : get_or without.zones i held ≡ get_or d.zones i held =
                  rw l (
                    let g = get_or-set_all (first ∷ rest) d.zones i waiting held in ground arith) in
                elim (m.each i) [
                  | inr (f, _) ↦ absurd (ground arith)
                  | inl f ↦
                      ap (part_at crc d.device_uuid j i) f ∙ v.free_unowned j i (λ q. h (w ∙ q))
                ]
          ];
          clean_zero = λ i h. elim (Bool-cases (is_in i (first ∷ rest) && ltb i (length d.zones))) [
            | inl e ↦
                let w : get_or without.zones i held ≡ waiting =
                  rw l (rw e at (get_or-set_all (first ∷ rest) d.zones i waiting held)) in
                absurd (let c = ap is_waiting (sym w ∙ h) in ground arith)
            | inr e ↦
                let w : get_or without.zones i held ≡ get_or d.zones i held =
                  rw l (rw e at (get_or-set_all (first ∷ rest) d.zones i waiting held)) in
                v.clean_zero i (sym w ∙ h)
          ];
        }

  mark_removed-IsValid :
      (k : SegmentKey) (len : ℕ) (zs : List ℕ)
      → expected (d.segments k) ≡ numbered 0 len zs
      → zs ≢ []
      → IsValid crc (mark_removed crc (record d { segments = table_remove k d.segments }) (zs ∷ []))
  unfolding mark_removed mark_rounds removal_rounds flatten firsts rests
  mark_removed-IsValid k len [] b n = absurd (n refl)
  mark_removed-IsValid k len (first ∷ rest) b n = without-IsValid k len first rest b

  pub remove_segment-IsValid :
      (k : SegmentKey) (e : Device) → remove_segment crc d k ≡ ok e → IsValid crc e
  unfolding remove_segment mark_removed mark_rounds removal_rounds flatten firsts rests
  remove_segment-IsValid k e h = elim (Option-cases (d.segments k)) [
    | inl q ↦ absurd (ground arith)
    | inr (s, q) ↦
        let w : mark_removed crc (record d { segments = table_remove k d.segments }) (s.zones ∷ [])
            ≡ e =
          ok_injective
            (mark_removed crc (record d { segments = table_remove k d.segments }) (s.zones ∷ [])) e
            (rw (q, remove_segment) at h) in
        subst (IsValid crc) w
          (mark_removed-IsValid k s.synced_len s.zones (ap expected q) (rw q at (v.sound k)).0)
  ]

  -- Zones that wait, zeroed and free again.
  module _ (zs : List ℕ)
      (waits : (i : ℕ) → is_in i zs ≡ true → get_or d.zones i held ≡ waiting) where
    pub release-IsValid : IsValid crc (release crc d zs)
    unfolding release zero_and_free
    release-IsValid =
        let e = release crc d zs in
        let b = free_block crc d.device_uuid in
        let untold = λ (j : SegmentKey) (i : ℕ) (h : is_in i zs ≡ true).
          v.free_unowned j i (λ q. waiting_distinct (sym (waits i h) ∙ q)) in
        let same = λ (j : SegmentKey) (i : ℕ).
          part_at-set_all crc d.device_uuid j d.blocks zs b i (part_at-free crc d.device_uuid j i)
            (untold j i) in
        record {
          told = λ j.
              ap sort_parts (
                parts-same crc d.device_uuid j d.blocks e.blocks
                  (sym (length-set_all zs b d.blocks)) (same j))
              ∙ v.told j;
          sound = v.sound;
          sizes =
              omega (arith, v.sizes, length-set_all zs b d.blocks, length-set_all zs clean d.zones);
          payload_sizes = omega (
            arith,
            v.payload_sizes,
            length-set_all zs (replicate (payload_len d) 0) d.payloads,
            length-set_all zs clean d.zones,
          );
          free_unowned = λ j i h. same j i ∙ (elim (Bool-cases (is_in i zs)) [
            | inl f ↦ untold j i f
            | inr f ↦
                v.free_unowned j i
                  (λ q. h (let g = get_or-set_all zs d.zones i clean held in ground arith))
          ]);
          clean_zero = λ i h.
              let g = get_or-set_all zs d.zones i clean held in
              let p = get_or-set_all zs d.payloads i (replicate (payload_len d) 0) [] in
              elim (Bool-cases (is_in i zs)) [
                | inl f ↦ elim (Bool-cases (ltb i (length d.zones))) [
                  | inl r ↦
                      let t : (is_in i zs && ltb i (length d.payloads)) ≡ true =
                        ground (arith, v.payload_sizes) in
                      rw t at p
                  | inr r ↦ absurd (
                      waiting_distinct
                        (sym (waits i f) ∙ get_or_beyond d.zones i held (ground arith)))
                ]
                | inr f ↦
                    let t : (is_in i zs && ltb i (length d.zones)) ≡ false = ground arith in
                    let t' : (is_in i zs && ltb i (length d.payloads)) ≡ false = ground arith in
                    let old : get_or d.zones i held ≡ clean = sym (rw t at g) ∙ h in
                    let kept : get_or e.payloads i [] ≡ get_or d.payloads i [] = rw t' at p in
                    kept ∙ v.clean_zero i old
              ];
        }
