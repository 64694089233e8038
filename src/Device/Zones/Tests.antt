-- ===== src/Device/Zones/Tests.antt =====
-- A device of three zones of four bytes each, under a checksum that adds, that was just formatted.
use lchfs.Common.{
  get_or, ap, sym, ◌≢◌, length, zero, ℕ, suc, ◌+◌, ◌≡◌, refl, arith, false, none, some, Option,
  List, [], ◌∷◌, ◌⊎◌, Result, ok, err,
}
use lchfs.Device.Zones.{
  SegmentKey, SegmentFile, removal_rounds, key_eq, kind_eq, data_kind, is_clean, clean, unknown,
  held, ZoneHeader, Segment, Device, IoError, create_segment, grow_segment, remove_segment,
  claim_zone, position, extend_len, sync_all, scan_zones, read_zone_header, found, orphans_of,
  firsts, rests, mark_freeing,
}
use lchfs.Device.Zones.Valid.{IsValid, zone_distinct}
use lchfs.Device.Zones.Steps.{
  Reach, created, grown, written, synced, here, next, format-IsValid, Reach-IsValid,
}
use lchfs.Device.Zones.Crash.{nothing, lost, Interrupted, flushed, in_round}
use lchfs.Device.Zones.Mount.{remounted, scan_zones-refines, remove-crash_refines}

abbrev crc : ZoneHeader → ℕ
crc h = h.ordinal + h.written_len

abbrev key : SegmentKey
key = record { kind = data_kind; id = 7 }

abbrev formatted : Device
formatted = record {
  device_uuid = 1 ∷ [];
  zone_size = 4100;
  blocks = none ∷ none ∷ none ∷ [];
  payloads = (9 ∷ 9 ∷ 9 ∷ 9 ∷ []) ∷ (9 ∷ 9 ∷ 9 ∷ 9 ∷ []) ∷ (9 ∷ 9 ∷ 9 ∷ 9 ∷ []) ∷ [];
  zones = unknown ∷ unknown ∷ unknown ∷ [];
  segments = λ k. none;
  allocation_blocked = false;
}

abbrev device_or : Device → Result IoError Device → Device
device_or d (ok e) = e
device_or d (err x) = d

abbrev grown_or : Device → Result IoError (Device × SegmentFile) → Device
grown_or d (ok (e, f)) = e
grown_or d (err x) = d

abbrev handle : List ℕ → SegmentFile
handle zs = record {
  key = key;
  seg = record { zones = zs; len = 0; synced_len = 0 };
  removed = false;
}

abbrev one_zone : Device
one_zone = device_or formatted (create_segment crc formatted key)

abbrev two_zones : Device
two_zones = grown_or formatted (grow_segment crc one_zone (handle (0 ∷ [])))

abbrev six_bytes : Device
six_bytes = sync_all crc (extend_len two_zones key 6) key

unlike : unknown ≢ clean
unlike h = let e = ap is_clean h in ground arith

zone_count_or : ℕ → Option Segment → ℕ
zone_count_or n none = n
zone_count_or n (some s) = length s.zones

formatted-IsValid : IsValid crc formatted
unfolding read_zone_header
formatted-IsValid =
    format-IsValid crc formatted (λ i. unread i) (λ k. refl) (λ i h. unclean i h) refl refl
  where
    unread : (i : ℕ) → read_zone_header crc (1 ∷ []) (get_or formatted.blocks i none) ≡ none
    unread zero = refl
    unread (suc zero) = refl
    unread (suc (suc zero)) = refl
    unread (suc (suc (suc i))) = refl

    unclean : (i : ℕ) → get_or formatted.zones i held ≢ clean
    unclean zero h = unlike h
    unclean (suc zero) h = unlike h
    unclean (suc (suc zero)) h = unlike h
    unclean (suc (suc (suc i))) h = zone_distinct (sym h)

run_create : create_segment crc formatted key ≡ ok one_zone
unfolding create_segment remove_segment claim_zone position
run_create = refl

opened : one_zone.segments key ≡ some (handle (0 ∷ [])).seg
unfolding create_segment remove_segment claim_zone position kind_eq
opened = refl

run_grow : grow_segment crc one_zone (handle (0 ∷ [])) ≡ ok (two_zones, handle (0 ∷ 1 ∷ []))
unfolding create_segment remove_segment claim_zone position grow_segment kind_eq
run_grow = refl

reached : Reach crc formatted six_bytes
unfolding create_segment remove_segment claim_zone position grow_segment kind_eq extend_len sync_all
    zone_count_or
reached =
    next
      (next
        (next (next here (created key run_create))
          (grown key (handle (0 ∷ [])).seg (handle (0 ∷ 1 ∷ [])).seg opened run_grow))
        (written key 6 (λ s h. let e = ap (zone_count_or 2) h in omega arith) refl))
      (synced key refl)

Reach-IsValid_example : IsValid crc six_bytes
Reach-IsValid_example = Reach-IsValid crc formatted six_bytes formatted-IsValid reached

scan_zones-refines_example :
    (orphans_of crc (1 ∷ []) six_bytes.blocks (found crc (1 ∷ []) six_bytes.blocks) ≡ [])
    × ((k : SegmentKey) → (scan_zones crc six_bytes).segments k ≡ remounted (six_bytes.segments k))
unfolding create_segment remove_segment claim_zone position grow_segment kind_eq extend_len sync_all
scan_zones-refines_example = scan_zones-refines crc six_bytes Reach-IsValid_example

-- The first zone's mark is durable, and the second's is lost.
abbrev crashed : List (Option ZoneHeader)
crashed = mark_freeing crc (1 ∷ []) (0 ∷ []) six_bytes.blocks

crash : Interrupted crc (1 ∷ []) (removal_rounds ((0 ∷ 1 ∷ []) ∷ [])) six_bytes.blocks crashed
unfolding removal_rounds firsts rests
crash =
    flushed (0 ∷ []) ((1 ∷ []) ∷ []) six_bytes.blocks crashed
      (in_round (1 ∷ []) [] crashed crashed (lost 1 [] crashed crashed (nothing crashed)))

held_segment :
    six_bytes.segments key ≡ some (record { zones = 0 ∷ 1 ∷ []; len = 6; synced_len = 6 })
unfolding create_segment remove_segment claim_zone position grow_segment kind_eq extend_len sync_all
held_segment = refl

six_bytes-uuid : six_bytes.device_uuid ≡ 1 ∷ []
unfolding create_segment remove_segment claim_zone position grow_segment kind_eq extend_len sync_all
six_bytes-uuid = refl

remove-crash_refines_example :
    ((j : SegmentKey)
      → key_eq key j ≡ false
      → (scan_zones crc (record six_bytes { blocks = crashed })).segments j
        ≡ remounted (six_bytes.segments j))
    × (((scan_zones crc (record six_bytes { blocks = crashed })).segments key
          ≡ remounted (some (record { zones = 0 ∷ 1 ∷ []; len = 6; synced_len = 6 })))
        ⊎ ((scan_zones crc (record six_bytes { blocks = crashed })).segments key ≡ none))
unfolding create_segment remove_segment claim_zone position grow_segment kind_eq extend_len sync_all
remove-crash_refines_example =
    remove-crash_refines crc formatted six_bytes key
      (record { zones = 0 ∷ 1 ∷ []; len = 6; synced_len = 6 }) crashed formatted-IsValid reached
      held_segment crash
