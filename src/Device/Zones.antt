-- ===== src/Device/Zones.antt =====
-- The zones of a device and the segments over them: `ZoneHeader` (crates/lchfs-device/src/layout.rs),
-- and `Zone`, `SegInner`, `Device::{read_zone_header, write_zone_header, zero_and_free, scan_zones,
-- claim_zone, create_segment, open_segment, remove_segment, mark_freeing, mark_removed, release}`
-- and `SegmentFile::sync_all` (crates/lchfs-device/src/lib.rs). A zone's header block is what it
-- decodes to, none where it does not decode; `crc` is the checksum of a serialized header. A
-- segment table is a function of the key. Reads and writes of the device do not fail here.
pub mod Parts
pub mod Blocks
pub mod Valid
pub mod Removal
pub mod Crash
pub mod Keeps
pub mod Synced
pub mod Steps
pub mod Mount
mod Tests
use lchfs.Common.{
  ℕ, zero, suc, ◌+◌, ◌-◌, ◌*◌, Bool, true, false, not, ◌&&◌, ◌||◌, min, length, replicate, get_or,
  set,
}
use lchfs.Common.{Option, none, some, List, [], ◌∷◌, ◌++◌, ltb, leb, ◌==◌, if◌then◌else◌}
use lchfs.Common.{Result, ok, err}
use lchfs.Common.Names.{name_eq}
use lchfs.Device.Layout.{device_block}

pub data ZoneState : Type 0 where
  free : ZoneState
  owned : ZoneState
  freeing : ZoneState

pub data SegmentKind : Type 0 where
  data_kind : SegmentKind
  meta : SegmentKind
  delta : ℕ → SegmentKind
  stripe_shard : ℕ → SegmentKind

unfoldable pub kind_eq : SegmentKind → SegmentKind → Bool
kind_eq data_kind data_kind = true
kind_eq meta meta = true
kind_eq (delta a) (delta b) = a == b
kind_eq (stripe_shard a) (stripe_shard b) = a == b
kind_eq _ _ = false

-- ASCII "LCHFSZON".
abbrev pub zone_header_magic : List ℕ
zone_header_magic = b'L' ∷ b'C' ∷ b'H' ∷ b'F' ∷ b'S' ∷ b'Z' ∷ b'O' ∷ b'N' ∷ []

pub record ZoneHeader : Type 0 where
  pub magic : List ℕ
  pub device_uuid : List ℕ
  pub state : ZoneState
  pub kind : SegmentKind
  pub segment_id : ℕ
  pub ordinal : ℕ
  pub written_len : ℕ
  pub checksum : ℕ

-- A zone's state in the map that allocation reads: `held` and `waiting` are the `Owned` and `Freeing`
-- of the source's `Zone`, apart from those of `ZoneState`.
pub data Zone : Type 0 where
  clean : Zone
  unknown : Zone
  held : Zone
  waiting : Zone

abbrev pub is_clean : Zone → Bool
is_clean clean = true
is_clean unknown = false
is_clean held = false
is_clean waiting = false

abbrev pub is_unknown : Zone → Bool
is_unknown clean = false
is_unknown unknown = true
is_unknown held = false
is_unknown waiting = false

pub record SegmentKey : Type 0 where
  pub kind : SegmentKind
  pub id : ℕ

abbrev pub key_eq : SegmentKey → SegmentKey → Bool
key_eq a b = kind_eq a.kind b.kind && (a.id == b.id)

pub record Segment : Type 0 where
  pub zones : List ℕ
  pub len : ℕ
  pub synced_len : ℕ

-- An open handle: what it sees of the segment, and whether that was removed.
pub record SegmentFile : Type 0 where
  pub key : SegmentKey
  pub seg : Segment
  pub removed : Bool

pub record Device : Type 0 where
  pub device_uuid : List ℕ
  pub zone_size : ℕ
  pub blocks : List (Option ZoneHeader)
  pub payloads : List (List ℕ)
  pub zones : List Zone
  pub segments : SegmentKey → Option Segment
  pub allocation_blocked : Bool

pub data IoError : Type 0 where
  not_found : IoError
  storage_full : IoError
  device_gone : IoError
  unexpected_eof : IoError

abbrev pub payload_len : Device → ℕ
payload_len d = d.zone_size - device_block

-- `zones.iter().position(p)`
unfoldable pub position : (Zone → Bool) → List Zone → Option ℕ
position p [] = none
position p (z ∷ zs) =
    let rest : Option ℕ = elim (position p zs) [ none ↦ none | some i ↦ some (suc i) ] in
    if p z then some 0 else rest

-- A clean zone, or else an unknown one.
abbrev pub pick : List Zone → Option ℕ
pick zs = elim (position is_clean zs) [ none ↦ position is_unknown zs | some i ↦ some i ]

abbrev pub table_insert :
    SegmentKey → Segment → (SegmentKey → Option Segment) → SegmentKey → Option Segment
table_insert k s t j = if key_eq k j then some s else t j

abbrev pub table_remove : SegmentKey → (SegmentKey → Option Segment) → SegmentKey → Option Segment
table_remove k t j = if key_eq k j then none else t j

-- `for &z in zones { map[z] = v }`
unfoldable pub set_all {ℓ} : {A : Type ℓ} → List ℕ → A → List A → List A
set_all [] v xs = xs
set_all (z ∷ zs) v xs = set (set_all zs v xs) z v

-- A segment's ordinal, zone and written length, as a header tells them.
pub record Part : Type 0 where
  pub ordinal : ℕ
  pub zone : ℕ
  pub written_len : ℕ

-- The order of `sort_unstable`. No two parts have one zone, so the written length never decides.
abbrev pub part_leb : Part → Part → Bool
part_leb a b = if a.ordinal == b.ordinal then leb a.zone b.zone else ltb a.ordinal b.ordinal

unfoldable pub insert_part : Part → List Part → List Part
insert_part p [] = p ∷ []
insert_part p (q ∷ qs) =
    let rest = insert_part p qs in if part_leb p q then p ∷ q ∷ qs else q ∷ rest

unfoldable pub sort_parts : List Part → List Part
sort_parts [] = []
sort_parts (p ∷ ps) = insert_part p (sort_parts ps)

-- The loop over a segment's sorted parts.
pub record Adopted : Type 0 where
  pub list : List ℕ
  pub written : ℕ
  pub orphans : List ℕ

abbrev pub adopt_part : Part → Adopted → Adopted
adopt_part p a =
    if p.ordinal == length a.list
    then record {
      list = a.list ++ (p.zone ∷ []);
      written = if p.ordinal == 0 then p.written_len else a.written;
      orphans = a.orphans;
    }
    else record a { orphans = a.orphans ++ (p.zone ∷ []) }

unfoldable pub adopt : List Part → Adopted → Adopted
adopt [] a = a
adopt (p ∷ ps) a = adopt ps (adopt_part p a)

abbrev pub nothing_adopted : Adopted
nothing_adopted = record { list = []; written = 0; orphans = [] }

-- `if list.is_empty() { continue }`, and the entry otherwise.
abbrev pub recovered_from : ℕ → List ℕ → ℕ → Option Segment
recovered_from payload [] written = none
recovered_from payload (z ∷ zs) written =
    let len = min written (length (z ∷ zs) * payload) in
    some (record { zones = z ∷ zs; len = len; synced_len = len })

abbrev pub header_of : List ℕ → ZoneState → SegmentKey → ℕ → ℕ → ZoneHeader
header_of uuid state k ordinal written_len = record {
  magic = zone_header_magic;
  device_uuid = uuid;
  state = state;
  kind = k.kind;
  segment_id = k.id;
  ordinal = ordinal;
  written_len = written_len;
  checksum = 0;
}

abbrev pub no_segment : SegmentKey
no_segment = record { kind = data_kind; id = 0 }

-- The zones whose headers `mark_removed` writes before its first flush, and behind it.
unfoldable pub firsts : List (List ℕ) → List ℕ
firsts [] = []
firsts ([] ∷ lists) = firsts lists
firsts ((z ∷ zs) ∷ lists) = z ∷ firsts lists

unfoldable pub rests : List (List ℕ) → List ℕ
rests [] = []
rests ([] ∷ lists) = rests lists
rests ((z ∷ zs) ∷ lists) = zs ++ rests lists

-- What `mark_removed` marks up to its first flush, and up to its second.
unfoldable pub removal_rounds : List (List ℕ) → List (List ℕ)
removal_rounds lists = firsts lists ∷ rests lists ∷ []

unfoldable pub flatten : List (List ℕ) → List ℕ
flatten [] = []
flatten (zs ∷ lists) = zs ++ flatten lists

unfoldable pub open_segment : Device → SegmentKey → Result IoError SegmentFile
open_segment d k = elim (d.segments k) [
  | none ↦ err not_found
  | some s ↦ ok (record { key = k; seg = s; removed = false })
]

abbrev pub with_first : SegmentKey → Result IoError (Device × ℕ) → Result IoError Device
with_first k (err e) = err e
with_first k (ok (d, z)) = ok (record d {
  segments = table_insert k (record { zones = z ∷ []; len = 0; synced_len = 0 }) d.segments;
})

abbrev pub with_zone : Segment → ℕ → Segment
with_zone s z = record s { zones = s.zones ++ (z ∷ []) }

-- One round of the loop in `SegmentFile::map` that claims zones. The handle and the table share a
-- segment that is not removed.
abbrev pub with_next :
    SegmentFile → Result IoError (Device × ℕ) → Result IoError (Device × SegmentFile)
with_next f (err e) = err e
with_next f (ok (d, z)) = ok (
  record d {
    segments = if f.removed then d.segments else table_insert f.key (with_zone f.seg z) d.segments;
  },
  record f { seg = with_zone f.seg z },
)

-- `fetch_max` behind a write that stays within the zones.
unfoldable pub extend_len : Device → SegmentKey → ℕ → Device
extend_len d k end = elim (d.segments k) [
  | none ↦ d
  | some s ↦ record d {
    segments = table_insert k (record s { len = if ltb s.len end then end else s.len }) d.segments;
  }
]

-- A header's part of segment `k`.
abbrev pub part_of : SegmentKey → ℕ → Option ZoneHeader → Option Part
part_of k z none = none
part_of k z (some h) = elim h.state [
  | free ↦ none
  | freeing ↦ none
  | owned ↦
      if key_eq k (record { kind = h.kind; id = h.segment_id })
      then some (record { ordinal = h.ordinal; zone = z; written_len = h.written_len })
      else none
]

abbrev pub with_part : Option Part → List Part → List Part
with_part none ps = ps
with_part (some p) ps = p ∷ ps

-- The keys of the owned zones, and the zones found `Freeing`.
abbrev pub owner_of : Option ZoneHeader → Option SegmentKey
owner_of none = none
owner_of (some h) = elim h.state [
  | free ↦ none
  | freeing ↦ none
  | owned ↦ some (record { kind = h.kind; id = h.segment_id })
]

abbrev pub is_freeing : Option ZoneHeader → Bool
is_freeing none = false
is_freeing (some h) = elim h.state [ free ↦ false | freeing ↦ true | owned ↦ false ]

abbrev pub zone_of : Option ZoneHeader → Zone
zone_of none = unknown
zone_of (some h) = elim h.state [ free ↦ clean | freeing ↦ unknown | owned ↦ held ]

abbrev pub is_key_in : SegmentKey → List SegmentKey → Bool
is_key_in k [] = false
is_key_in k (j ∷ js) = key_eq k j || is_key_in k js

abbrev pub with_key : Option SegmentKey → List SegmentKey → List SegmentKey
with_key none ks = ks
with_key (some k) ks = if is_key_in k ks then ks else k ∷ ks

module _ (crc : ZoneHeader → ℕ) where
  unfoldable pub compute_checksum : ZoneHeader → ℕ
  compute_checksum h = crc (record h { checksum = 0 })

  unfoldable pub finalize : ZoneHeader → ZoneHeader
  finalize h = record h { checksum = compute_checksum h }

  unfoldable pub is_valid_for : List ℕ → ZoneHeader → Bool
  is_valid_for uuid h =
      name_eq h.magic zone_header_magic
      && (name_eq h.device_uuid uuid && (h.checksum == compute_checksum h))

  unfoldable pub read_zone_header : List ℕ → Option ZoneHeader → Option ZoneHeader
  read_zone_header uuid none = none
  read_zone_header uuid (some h) = if is_valid_for uuid h then some h else none

  -- What `write_zone_header` leaves in the block.
  unfoldable pub zone_block : List ℕ → ZoneHeader → Option ZoneHeader
  zone_block uuid h = some (finalize (record h { magic = zone_header_magic; device_uuid = uuid }))

  abbrev pub owned_block : List ℕ → SegmentKey → ℕ → ℕ → Option ZoneHeader
  owned_block uuid k ordinal len = zone_block uuid (header_of uuid owned k ordinal len)

  abbrev pub freeing_block : List ℕ → Option ZoneHeader
  freeing_block uuid = zone_block uuid (header_of uuid freeing no_segment 0 0)

  abbrev pub free_block : List ℕ → Option ZoneHeader
  free_block uuid = zone_block uuid (header_of uuid free no_segment 0 0)

  -- Every zone that is asked for is zeroed, then all of them are marked free.
  unfoldable pub zero_and_free : Device → List ℕ → Device
  zero_and_free d zs = record d {
    blocks = set_all zs (free_block d.device_uuid) d.blocks;
    payloads = set_all zs (replicate (payload_len d) 0) d.payloads;
  }

  abbrev pub claim_at : Device → SegmentKey → ℕ → ℕ → Device
  claim_at d k ordinal z = record d {
    zones = set d.zones z held;
    payloads =
        if is_unknown (get_or d.zones z held)
        then set d.payloads z (replicate (payload_len d) 0)
        else d.payloads;
    blocks = set d.blocks z (owned_block d.device_uuid k ordinal 0);
  }

  unfoldable pub claim_zone : Device → SegmentKey → ℕ → Result IoError (Device × ℕ)
  claim_zone d k ordinal =
      if d.allocation_blocked
      then err device_gone
      else elim (pick d.zones) [ none ↦ err storage_full | some z ↦ ok (claim_at d k ordinal z, z) ]

  unfoldable pub mark_freeing :
      List ℕ → List ℕ → List (Option ZoneHeader) → List (Option ZoneHeader)
  mark_freeing uuid zs blocks = set_all zs (freeing_block uuid) blocks

  -- The marks of one round after another.
  unfoldable pub mark_rounds :
      List ℕ → List (List ℕ) → List (Option ZoneHeader) → List (Option ZoneHeader)
  mark_rounds uuid [] blocks = blocks
  mark_rounds uuid (zs ∷ rounds) blocks = mark_rounds uuid rounds (mark_freeing uuid zs blocks)

  unfoldable pub mark_removed : Device → List (List ℕ) → Device
  mark_removed d lists = record d {
    blocks = mark_rounds d.device_uuid (removal_rounds lists) d.blocks;
    zones = set_all (flatten lists) waiting d.zones;
  }

  unfoldable pub remove_segment : Device → SegmentKey → Result IoError Device
  remove_segment d k = elim (d.segments k) [
    | none ↦ err not_found
    | some s ↦ ok (mark_removed (record d { segments = table_remove k d.segments }) (s.zones ∷ []))
  ]

  abbrev pub create_after : SegmentKey → Device → Result IoError Device → Result IoError Device
  create_after k d (ok e) = with_first k (claim_zone e k 0)
  create_after k d (err not_found) = with_first k (claim_zone d k 0)
  create_after k d (err storage_full) = err storage_full
  create_after k d (err device_gone) = err device_gone
  create_after k d (err unexpected_eof) = err unexpected_eof

  unfoldable pub create_segment : Device → SegmentKey → Result IoError Device
  create_segment d k = create_after k d (remove_segment d k)

  -- What a removed segment's last handle leaves to do.
  unfoldable pub release : Device → List ℕ → Device
  release d zs = let e = zero_and_free d zs in record e { zones = set_all zs clean e.zones }

  -- Neither the table nor `removed` is looked at.
  unfoldable pub grow_segment : Device → SegmentFile → Result IoError (Device × SegmentFile)
  grow_segment d f = with_next f (claim_zone d f.key (length f.seg.zones))

  abbrev pub persist_len : Device → SegmentKey → Segment → List ℕ → Device
  persist_len d k s [] = d
  persist_len d k s (first ∷ rest) = record d {
    blocks = set d.blocks first (owned_block d.device_uuid k 0 s.len);
    segments = table_insert k (record s { synced_len = s.len }) d.segments;
  }

  -- `sync_all` of a segment that is not removed.
  unfoldable pub sync_all : Device → SegmentKey → Device
  sync_all d k = elim (d.segments k) [
    | none ↦ d
    | some s ↦ if s.synced_len == s.len then d else persist_len d k s s.zones
  ]

  -- The parts of segment `k` in the zones from `z` on.
  unfoldable pub parts : List ℕ → SegmentKey → ℕ → List (Option ZoneHeader) → List Part
  parts uuid k z [] = []
  parts uuid k z (b ∷ bs) =
      with_part (part_of k z (read_zone_header uuid b)) (parts uuid k (suc z) bs)

  unfoldable pub adopted : List ℕ → List (Option ZoneHeader) → SegmentKey → Adopted
  adopted uuid blocks k = adopt (sort_parts (parts uuid k 0 blocks)) nothing_adopted

  -- The entry that `scan_zones` makes for segment `k`.
  unfoldable pub recovered : List ℕ → ℕ → List (Option ZoneHeader) → SegmentKey → Option Segment
  recovered uuid payload blocks k =
      let a = adopted uuid blocks k in recovered_from payload a.list a.written

  unfoldable pub unfinished : List ℕ → ℕ → List (Option ZoneHeader) → List ℕ
  unfinished uuid z [] = []
  unfinished uuid z (b ∷ bs) =
      let rest = unfinished uuid (suc z) bs in
      if is_freeing (read_zone_header uuid b) then z ∷ rest else rest

  unfoldable pub zone_map : List ℕ → List (Option ZoneHeader) → List Zone
  zone_map uuid [] = []
  zone_map uuid (b ∷ bs) = zone_of (read_zone_header uuid b) ∷ zone_map uuid bs

  unfoldable pub found : List ℕ → List (Option ZoneHeader) → List SegmentKey
  found uuid [] = []
  found uuid (b ∷ bs) = with_key (owner_of (read_zone_header uuid b)) (found uuid bs)

  unfoldable pub orphans_of : List ℕ → List (Option ZoneHeader) → List SegmentKey → List ℕ
  orphans_of uuid blocks [] = []
  orphans_of uuid blocks (k ∷ ks) = (adopted uuid blocks k).orphans ++ orphans_of uuid blocks ks

  -- `scan_zones` of a device that was opened: its maps are not read.
  unfoldable pub scan_zones : Device → Device
  scan_zones d =
      let left = unfinished d.device_uuid 0 d.blocks in
      let lost = orphans_of d.device_uuid d.blocks (found d.device_uuid d.blocks) in
      let freed = zero_and_free d left in
      let marked = record freed { blocks = mark_freeing d.device_uuid lost freed.blocks } in
      record (zero_and_free marked lost) {
        zones = set_all lost clean (set_all left clean (zone_map d.device_uuid d.blocks));
        segments = recovered d.device_uuid (payload_len d) d.blocks;
      }
