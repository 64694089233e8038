-- ===== src/Store/Membership/Tests.antt =====
-- A pool of three vdevs of which the second is away and the third missed a commit.
use lchfs.Common.{ℕ, ◌≡◌, refl, true, false, none, some, List, [], ◌∷◌, ok}
use lchfs.Common.Names.{Name, name_eq, sort_by, insert_sorted}
use lchfs.Format.Superblock.{SuperblockSlot}
use lchfs.Store.Membership.{
  GivenRoot, Membership, check_membership, read_member, read_members, stranger, highest, judged,
  membership_of, claimed_twice, missing_from, stale,
}
use lchfs.Store.Membership.Report.{IsReport, check_membership-reports}

abbrev slot : ℕ → ℕ → SuperblockSlot
slot id generation = record {
  magic = [];
  version = 6;
  pool_uuid = 4 ∷ [];
  vdev_id = id;
  vdev_count = 3;
  generation = generation;
  root_hash = [];
  root_location = record { segment_id = 0; offset = 0; len = 0 };
  index_generation = 0;
  committed_at_unix_nanos = 0;
  stats = record { live_bytes = 0; object_count = 0; segment_count = 0 };
  header_checksum = 0;
}

abbrev root : Name → SuperblockSlot → GivenRoot
root path s = record {
  path = path;
  open_error = none;
  is_formatted = true;
  ring_written = true;
  backend_error = none;
  superblock = ok (some s);
}

abbrev given : List GivenRoot
given = root (b'c' ∷ []) (slot 2 8) ∷ root (b'a' ∷ []) (slot 0 9) ∷ []

abbrev found_pool : Membership
found_pool = record {
  members =
      record { slot = slot 0 9; path = b'a' ∷ [] }
      ∷ record { slot = slot 2 8; path = b'c' ∷ [] }
      ∷ [];
  vdev_count = 3;
  missing_vdevs = 1 ∷ [];
  stale_vdevs = 2 ∷ [];
}

given_run : check_membership given true ≡ ok found_pool
unfolding check_membership read_members read_member stranger name_eq judged highest membership_of
    sort_by insert_sorted claimed_twice missing_from stale
given_run = refl

check_membership-reports_example :
    IsReport given found_pool × (true ≡ false → found_pool.missing_vdevs ≡ [])
check_membership-reports_example = check_membership-reports given true found_pool given_run
