-- ===== src/Queue/Memory/Restored.antt =====
-- An entry of the stored queue, read back.
use localchune.Queue.Memory.{
  no_members, string, project_entry, origin_name, method_name, member, json_text, json_number,
  entry_json, member_of, Members,
}
use localchune.Queue.Memory.Reading.{
  text_in, parse_members, parse_entry, origin_of, nullable_text, nullable_number, method_of, filled,
}
use localchune.Queue.Model.{TrackIdentity, recording_of, QueueOrigin, QueueEntry, AutoMethod}
use localchune.Common.{
  ℕ, String, ◌≡◌, refl, ◌≢◌, inl, inr, Option, none, some, arith, Option-cases, dec_str,
}

-- An entry with a file.
abbrev pub IsNamed : QueueEntry → Type 0
IsNamed e = e.file_id ≢ ""

origin_of-name : (o : QueueOrigin) → origin_of (some (origin_name o)) ≡ o
unfolding origin_of dec_str
origin_of-name QueueOrigin.current = refl
origin_of-name QueueOrigin.list = refl
origin_of-name QueueOrigin.crate = refl
origin_of-name QueueOrigin.add = refl
origin_of-name QueueOrigin.auto = refl

pub method_of-name : (m : AutoMethod) → method_of (some (method_name m)) ≡ m
unfolding method_of dec_str
method_of-name AutoMethod.off = refl
method_of-name AutoMethod.harmonic = refl
method_of-name AutoMethod.bpm = refl
method_of-name AutoMethod.shuffle = refl

abbrev pub entry_members : QueueEntry → Members
entry_members e = member "file_id" (string e.file_id) (
    member "track_id" (json_text e.track_id) (
      member "display_artist" (json_text e.display_artist) (
        member "display_title" (string e.display_title) (
          member "duration_ms" (json_number e.duration_ms) (
            member "bpm" (json_number e.bpm) (
              member "key_camelot" (json_text e.key_camelot) (
                member "origin" (string (origin_name e.origin))
                  (member "source_label" (json_text e.source_label) no_members))))))))

-- What the properties of an entry's object are.
pub record IsEntry (d : Members) (e : QueueEntry) : Type 0 where
  pub file_id : member_of d "file_id" ≡ some (string e.file_id)
  pub track_id : member_of d "track_id" ≡ some (json_text e.track_id)
  pub display_artist : member_of d "display_artist" ≡ some (json_text e.display_artist)
  pub display_title : member_of d "display_title" ≡ some (string e.display_title)
  pub duration_ms : member_of d "duration_ms" ≡ some (json_number e.duration_ms)
  pub bpm : member_of d "bpm" ≡ some (json_number e.bpm)
  pub key_camelot : member_of d "key_camelot" ≡ some (json_text e.key_camelot)
  pub origin : member_of d "origin" ≡ some (string (origin_name e.origin))
  pub source_label : member_of d "source_label" ≡ some (json_text e.source_label)

entry_members-IsEntry : (e : QueueEntry) → IsEntry (entry_members e) e
unfolding member_of dec_str
entry_members-IsEntry e = record {
  file_id = refl;
  track_id = refl;
  display_artist = refl;
  display_title = refl;
  duration_ms = refl;
  bpm = refl;
  key_camelot = refl;
  origin = refl;
  source_label = refl;
}

nullable_text-json : (o : Option String) → nullable_text (some (json_text o)) ≡ some o
nullable_text-json none = refl
nullable_text-json (some t) = refl

nullable_number-json : (o : Option ℕ) → nullable_number (some (json_number o)) ≡ some o
nullable_number-json none = refl
nullable_number-json (some n) = refl

text_in-json : (o : Option String) → text_in (some (json_text o)) ≡ o
text_in-json none = refl
text_in-json (some t) = refl

recording_of-twice :
    (t : TrackIdentity)
    → recording_of (record { file_id = t.file_id; track_id = recording_of t }) ≡ recording_of t
unfolding recording_of
recording_of-twice t = elim (Option-cases t.track_id) [
  | inl p ↦ rw p refl
  | inr (r, p) ↦ ground arith
]

filled-some : (t : String) → t ≢ "" → filled (some t) ≡ some t
filled-some t h = ground arith

pub parse_members-IsEntry :
    (d : Members) (e : QueueEntry)
    → IsNamed e
    → IsEntry d (project_entry e)
    → parse_members d ≡ some (project_entry e)
unfolding parse_members project_entry
parse_members-IsEntry d e h m =
    rw
      (
        m.file_id,
        m.display_title,
        m.display_artist,
        m.duration_ms,
        m.bpm,
        m.key_camelot,
        m.source_label,
        m.track_id,
        m.origin,
        filled-some e.file_id h,
        nullable_text-json e.display_artist,
        nullable_number-json e.duration_ms,
        nullable_number-json e.bpm,
        nullable_text-json e.key_camelot,
        nullable_text-json e.source_label,
        origin_of-name e.origin,
        text_in-json (recording_of e.identity),
        recording_of-twice e.identity,
      )
      refl

-- An entry that names a file is read back as it was stored.
pub parse_entry-entry_json :
    (e : QueueEntry)
    → IsNamed e
    → parse_entry (entry_json (project_entry e)) ≡ some (project_entry e)
unfolding parse_entry entry_json
parse_entry-entry_json e h =
    parse_members-IsEntry (entry_members (project_entry e)) e h
      (entry_members-IsEntry (project_entry e))
