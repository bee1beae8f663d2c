-- ===== src/Queue/Samples.antt =====
-- A state of the queue, its entries and a ranking, on which the tests run.
use localchune.Queue.Model.{QueueOrigin, AutoMethod, QueueState, QueueEntry}
use localchune.Common.{String, refl, none, some, List, [], ◌∷◌, arith, dec_str, has}
use localchune.Queue.Engine.Valid.{IsValid, IsMemory}

abbrev pub entry : String → QueueEntry
entry id = record {
  identity = record { file_id = id; track_id = none };
  display_artist = none;
  display_title = id;
  duration_ms = none;
  bpm = some 12800;
  key_camelot = some "8A";
  origin = QueueOrigin.list;
  source_label = none;
}

abbrev pub playing : QueueState
playing = record {
  current = some (entry "a");
  intent = entry "b" ∷ entry "c" ∷ [];
  method = AutoMethod.harmonic;
  history = [];
  failed = [];
  suppressed = [];
}

pub no-IsMemory : IsMemory []
no-IsMemory = record { bound = omega arith; once = tt }

pub playing-IsValid : IsValid playing
unfolding has dec_str
playing-IsValid = record {
  cap = omega arith;
  files = (refl, (refl, (refl, tt)));
  history = no-IsMemory;
  failed = no-IsMemory;
  suppressed = no-IsMemory;
}

abbrev pub ranked : List QueueEntry
ranked = entry "b" ∷ entry "d" ∷ entry "e" ∷ entry "d" ∷ []
