-- ===== src/Queue/Regenerate/Entries.antt =====
-- The entries that the picked ids become.
use localchune.Queue.Engine.Rows.{All-at}
use localchune.Queue.Model.Fill.{same_recording, same_file, SameTrack, Apart}
use localchune.Queue.Regenerate.Collapse.{recs-has, recs}
use localchune.Queue.Regenerate.{entries_of, by_id}
use localchune.Common.{
  ℕ, zero, suc, String, ◌≡◌, refl, ap, inl, inr, true, false, none, some, List, [], ◌∷◌, map, arith,
  Bool-cases, length, get_elem?, All, has, has_self, Uniq,
}
use localchune.Queue.Strategies.{track_id_of, TrackFeatures}
use localchune.Queue.Model.{TrackIdentity, recording_of}

recs_unique :
    (ts : List TrackFeatures) (i j : ℕ) (t u : TrackFeatures) (r : String)
    → Uniq (recs ts)
    → get_elem? ts i ≡ some t
    → get_elem? ts j ≡ some u
    → recording_of t.identity ≡ some r
    → recording_of u.identity ≡ some r
    → t ≡ u
recs_unique [] i j t u r once h k p q = cc
recs_unique (x ∷ ts) zero zero t u r once h k p q = cc
recs_unique (x ∷ ts) zero (suc j) t u r once h k p q =
    let there = recs-has ts j u r k q in ground arith
recs_unique (x ∷ ts) (suc i) zero t u r once h k p q =
    let there = recs-has ts i t r h p in ground arith
recs_unique (x ∷ ts) (suc i) (suc j) t u r once h k p q =
    recs_unique ts i j t u r (ground arith) h k p q

-- A row of the candidates that `byId` has for an id.
record IsFound (cands : List TrackFeatures) (id : String) (t : TrackFeatures) : Type 0 where
  at : ℕ
  there : get_elem? cands at ≡ some t
  named : t.file_id ≡ id
  held : by_id cands id ≡ some t

by_id-none :
    (cands : List TrackFeatures) (id : String)
    → has (map track_id_of cands) id ≡ false
    → by_id cands id ≡ none
unfolding by_id has
by_id-none [] id h = refl
by_id-none (c ∷ cs) id h = ground (arith, by_id-none cs id)

by_id-IsFound :
    (cands : List TrackFeatures) (id : String)
    → has (map track_id_of cands) id ≡ true
    → (t : TrackFeatures) × IsFound cands id t
unfolding by_id has
by_id-IsFound [] id h = cc
by_id-IsFound (c ∷ cs) id h = elim (Bool-cases (has (map track_id_of cs) id)) [
  | inl later ↦
      let (t, found) = by_id-IsFound cs id later in
      (
        t,
        record {
          at = suc found.at;
          there = found.there;
          named = found.named;
          held = rw (found.held, by_id) refl;
        },
      )
  | inr first ↦ (
    c,
    record {
      at = 0;
      there = refl;
      named = ground arith;
      held = rw (by_id-none cs id first, by_id) (ground arith);
    },
  )
]

module _ (label : String) (cands : List TrackFeatures) (once : Uniq (recs cands)) where
  -- The ids are ids of candidates.
  abbrev pub Offered : List String → Type 0
  Offered picks = (k : String) → has picks k ≡ true → has (map track_id_of cands) k ≡ true

  Offered-tail : (id : String) (picks : List String) → Offered (id ∷ picks) → Offered picks
  unfolding has
  Offered-tail id picks o k h = o k (ground arith)

  pub length-entries_of :
      (picks : List String) → Offered picks → length (entries_of label cands picks) ≡ length picks
  unfolding entries_of
  length-entries_of [] o = refl
  length-entries_of (id ∷ picks) o =
      let (t, found) = by_id-IsFound cands id (o id (has_self picks id)) in
      rw (found.held, entries_of) (ap suc (length-entries_of picks (Offered-tail id picks o)))

  pub entries_of-All :
      (P : TrackIdentity → Type 0) (picks : List String)
      → Offered picks
      → All (λ c. P c.identity) cands
      → All (λ e. P e.identity) (entries_of label cands picks)
  unfolding entries_of
  entries_of-All P [] o h = tt
  entries_of-All P (id ∷ picks) o h =
      let (t, found) = by_id-IsFound cands id (o id (has_self picks id)) in
      rw (found.held, entries_of)
        (
          All-at (λ c. P c.identity) found.at cands t h found.there,
          entries_of-All P picks (Offered-tail id picks o) h,
        )

  apart_from :
      (t : TrackFeatures) (at : ℕ) (picks : List String)
      → get_elem? cands at ≡ some t
      → Offered picks
      → has picks t.file_id ≡ false
      → All (λ f. ¬ SameTrack t.identity f.identity) (entries_of label cands picks)
  unfolding entries_of has
  apart_from t at [] there o h = tt
  apart_from t at (id ∷ picks) there o h =
      let (u, found) = by_id-IsFound cands id (o id (has_self picks id)) in
      rw (found.held, entries_of)
        (not_same u found, apart_from t at picks there (Offered-tail id picks o) (ground arith))
    where
      not_same : (u : TrackFeatures) → IsFound cands id u → ¬ SameTrack t.identity u.identity
      not_same u found (same_file p) = ground arith
      not_same u found (same_recording r p q) =
          let same_row = recs_unique cands at found.at t u r once there found.there p q in
          ground arith

  pub entries_of-Apart :
      (picks : List String) → Offered picks → Uniq picks → Apart (entries_of label cands picks)
  unfolding entries_of
  entries_of-Apart [] o u = tt
  entries_of-Apart (id ∷ picks) o (p, u) =
      let (t, found) = by_id-IsFound cands id (o id (has_self picks id)) in
      rw (found.held, entries_of)
        (
          apart_from t found.at picks found.there (Offered-tail id picks o) (rw (found.named) p),
          entries_of-Apart picks (Offered-tail id picks o) u,
        )
