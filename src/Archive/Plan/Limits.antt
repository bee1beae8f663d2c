-- ===== src/Archive/Plan/Limits.antt =====
-- The plans of src/lib/crate-zip.ts stay within the limits, and the names of a plan differ.
use localchune.Archive.Names.Fresh.{dedupe_name-fresh, KeepsNumbers}
use localchune.Archive.Names.{dedupe_name, seen_has, TextHost}
use localchune.Upload.Policy.{same_codes}
use localchune.Common.{
  ℕ, suc, ◌+◌, ◌≤◌, ◌<◌, ◌≡◌, refl, sym, ap, inl, inr, false, Option, List, [], ◌∷◌, map, arith,
  ltb, ◌==◌, Bool-cases, length, keep, All,
}
use localchune.Archive.Plan.{
  max_crate_download_bytes, max_crate_download_tracks, crate_entry_name, has_key, CrateZipPlan,
  sum_bytes, CrateZipRow, plan_entries, plan_crate_zip, CrateZipEntry, accepted, refused,
  empty_crate, too_many_tracks, too_large,
}

abbrev pub Distinct : List (List ℕ) → Type 0
Distinct [] = Unit
Distinct (k ∷ ks) = All (λ other. same_codes k other ≡ false) ks × Distinct ks

abbrev pub key_of : TextHost → CrateZipEntry → List ℕ
key_of host e = host.lower e.name

abbrev pub sum_sizes : List CrateZipEntry → ℕ
sum_sizes [] = 0
sum_sizes (e ∷ es) = e.byte_size + sum_sizes es

module _ (host : TextHost) (keeps : KeepsNumbers host) (total : ℕ) where
  fresh_of_seen :
      (k : List ℕ) (seen keys : List (List ℕ))
      → All (λ other. seen_has (k ∷ seen) other ≡ false) keys
      → All (λ other. same_codes k other ≡ false) keys
        × All (λ other. seen_has seen other ≡ false) keys
  unfolding seen_has
  fresh_of_seen k seen [] h = (tt, tt)
  fresh_of_seen k seen (other ∷ keys) (p, h) =
      let rest = fresh_of_seen k seen keys h in ((ground arith, rest.0), (ground arith, rest.1))

  plan_entries-Distinct :
      (index : ℕ) (seen : List (List ℕ)) (rows : List CrateZipRow)
      → length seen + length rows < 9998
      → All
          (λ other. seen_has seen other ≡ false)
          (map (key_of host) (plan_entries host total index seen rows))
        × Distinct (map (key_of host) (plan_entries host total index seen rows))
  unfolding plan_entries
  plan_entries-Distinct index seen [] h = (tt, tt)
  plan_entries-Distinct index seen (row ∷ rows) h =
      let name = crate_entry_name host row index total in
      let key = host.lower (dedupe_name host name seen) in
      let rest = plan_entries-Distinct (suc index) (key ∷ seen) rows (omega arith) in
      let split = fresh_of_seen key seen _ rest.0 in
      ((dedupe_name-fresh host name seen keeps (omega arith), split.1), (split.0, rest.1))

plan_entries-sizes :
    (host : TextHost) (total index : ℕ) (seen : List (List ℕ)) (rows : List CrateZipRow)
    → (length (plan_entries host total index seen rows) ≡ length rows)
      × (sum_sizes (plan_entries host total index seen rows) ≡ sum_bytes rows)
unfolding plan_entries sum_bytes
plan_entries-sizes host total index seen [] = (refl, refl)
plan_entries-sizes host total index seen (row ∷ rows) =
    let key = host.lower (dedupe_name host (crate_entry_name host row index total) seen) in
    let rest = plan_entries-sizes host total (suc index) (key ∷ seen) rows in
    (ap suc rest.0, omega (arith, rest.1))

-- What a plan promises, and what a refusal says, for the rows that have a key.
abbrev pub IsPlan : TextHost → List CrateZipRow → CrateZipPlan → Type 0
IsPlan host usable (accepted entries total name) =
    (0 < length entries)
    × (length entries ≤ 200)
    × (total ≤ 6442450944)
    × (total ≡ sum_sizes entries)
    × (length entries ≡ length usable)
    × Distinct (map (key_of host) entries)
IsPlan host usable (refused empty_crate) = length usable ≡ 0
IsPlan host usable (refused (too_many_tracks n)) = (n ≡ length usable) × 200 < n
IsPlan host usable (refused (too_large n)) =
    (n ≡ sum_bytes usable) × (length usable ≤ 200) × 6442450944 < n

-- When lower case keeps numbered names apart, an accepted plan has 1 to 200 entries, one for each row
-- with a key, at most 6 GiB in all, and no two names that are equal but for their case; a refusal
-- says which limit the rows are past, and by what.
pub plan_crate_zip-IsPlan :
    (host : TextHost) (rows : List CrateZipRow) (crate_name : Option (List ℕ))
    → KeepsNumbers host
    → IsPlan host (keep has_key rows) (plan_crate_zip host rows crate_name)
unfolding plan_crate_zip
plan_crate_zip-IsPlan host rows crate_name keeps =
    let usable = keep has_key rows in
    let sizes = plan_entries-sizes host (length usable) 0 [] usable in
    elim (Bool-cases (length usable == 0)) [
      | inl none_left ↦ rw none_left (ground arith)
      | inr some_left ↦ elim (Bool-cases (ltb max_crate_download_tracks (length usable))) [
        | inl many ↦ rw (some_left, many) (refl, ground arith)
        | inr few ↦ elim (Bool-cases (ltb max_crate_download_bytes (sum_bytes usable))) [
          | inl large ↦ rw (some_left, few, large) (refl, ground arith, ground arith)
          | inr small ↦
              let at_most : length usable ≤ 200 = ground arith in
              let names =
                plan_entries-Distinct host keeps (length usable) 0 [] usable (omega arith) in
              rw (some_left, few, small)
                (
                  ground (arith, sizes.0),
                  omega (arith, sizes.0),
                  ground arith,
                  sym sizes.1,
                  sizes.0,
                  names.1,
                )
        ]
      ]
    ]
