-- ===== src/Queries/Tests.antt =====
-- The theorems about the queries at concrete ones, and the tag that shares a key with a page's list.
use dtsys.Prelude.{
  ◌≡◌, refl, inl, inr, Bool, true, false, [], ◌∷◌, ◌++◌, IsIn, none, some, str_eq, ◌==◌, ◌&&◌,
  ==_iff, str_eq_refl,
}
use dtsys.Queries.{Key, Part, word, count, switch, shape, absent}
use dtsys.Queries.Reads.{use_of, device_list, scheduled_devices, group_list, group_choice}
use dtsys.Queries.Named.{named}
use dtsys.Api.Call.{api_request}
use dtsys.Api.Devices.{device_request}
use dtsys.Queries.Changes.{mutation_path, mutation_of, update_device_done}
use dtsys.Queries.Shared.{shared_key_lem}
use dtsys.Queries.Refresh.{refresh_lem}
use dtsys.Api.{null}

tag_clash : (use_of (device_list (some "scheduled"))).key ≡ (use_of scheduled_devices).key
tag_clash = refl

shared_key_lem_example : (use_of group_list).call ≡ (use_of group_choice).call
shared_key_lem_example = shared_key_lem group_list group_choice tt tt refl

-- A marking that looks at the words and the numbers of a key.
abbrev same_switch : Bool → Bool → Bool
same_switch true true = true
same_switch false false = true
same_switch _ _ = false

abbrev same_part : Part → Part → Bool
same_part (word a) (word b) = str_eq a b
same_part (count m) (count n) = m == n
same_part (switch a) (switch b) = same_switch a b
same_part (shape a) (shape b) = true
same_part absent absent = true
same_part _ _ = false

abbrev begins_with : Key → Key → Bool
begins_with [] l = true
begins_with (p ∷ k) [] = false
begins_with (p ∷ k) (q ∷ l) = same_part p q && begins_with k l

same_part_refl : (p : Part) → same_part p p ≡ true
same_part_refl (word a) = str_eq_refl a
same_part_refl (count n) = (==_iff n n).1 refl
same_part_refl (switch true) = refl
same_part_refl (switch false) = refl
same_part_refl (shape f) = refl
same_part_refl absent = refl

begins_with-append : (k rest : Key) → begins_with k (k ++ rest) ≡ true
begins_with-append [] rest = refl
begins_with-append (p ∷ k) rest = rw (same_part_refl p, begins_with-append k rest) refl

refresh_lem_example :
    (k : Key) × IsIn k (mutation_of (update_device_done "one" null)).stale
    × (begins_with k (use_of (device_list none)).key ≡ true)
refresh_lem_example =
    refresh_lem begins_with begins_with-append (update_device_done "one" null) (device_list none) tt
      tt (unfold named mutation_path api_request device_request in inr (inl refl))
