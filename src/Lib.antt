-- ===== src/Lib.antt =====
-- The playback queue, the uploads, the archives, the fingerprint comparison and the analysis consumer of
-- localchune, modelled from its TypeScript sources under src/lib and workers/analysis/src.
--
-- A browser plays tracks from a queue of at most 25 rows. Row 0 is what is playing, the rows
-- behind it are the user's layer (the explicit choices, in their order) and the automatic tail,
-- which a strategy ranks from candidates that the server offers. One reducer makes every change of
-- the state; the drawer shows the array that the state assembles and addresses its rows by index.
-- Before an upload, in the browser and again on the server, the policy decides whether a file is
-- accepted and how it is cut into parts, and the browser compares the first bytes of the file with
-- its extension; a pump of workers runs the tasks of a batch. Sizes are whole numbers of bytes, and quotients are exact. The analysis consumer takes each message
-- of a stored file to its end: it claims the file, has it analysed, records the verdict and lets the
-- matcher look for duplicates, which compares fingerprints at every alignment of a range. A crate is
-- downloaded as one ZIP archive, which is planned from the rows of the crate and written as a stream.
--
-- The files:
--   Queue/Model       src/lib/queue-model.ts: the state, the identity tokens of a track, the cap and
--                     the exclusion sets. `assemble_queue` is assembleQueue, `fill` its loop,
--                     `excluded_keys` excludedKeys. Its children hold the lemmas on the tail.
--   Queue/Reorder     src/lib/reorder.ts: `move_item` is moveItem, with its laws.
--   Queue/Engine      src/lib/queue-engine.ts: the events, the results and the helpers of the
--                     reducer; Engine/Reduce has `reduce` and one function for each case. The other
--                     children hold the invariant (Valid, Steps, Keeps), what an array shows
--                     (Rendered, Rows), sessions (Session), totality (Total) and the effect of the
--                     events (Advancing, Editing).
--   Queue/Camelot     src/lib/track-format.ts: the parser, the sort key and the neighbours of keys.
--   Queue/Strategies  src/lib/queue-strategies.ts: the penalties and scores; Strategies/Walk has the
--                     order, greedyWalk, the seeded shuffle and the registry; Contract and
--                     Wheel hold the theorems.
--   Queue/Regenerate  src/lib/queue-engine.ts: the collapse by recording and `regenerate`.
--   Queue/Drawer      src/lib/queue-view.ts: rows to entries, the list that a click plays, the rows of
--                     the drawer; Drawer/Lines has its sections and texts. Sections, Played and
--                     Reported hold the theorems.
--   Queue/Memory      src/lib/queue-store.ts: the payload and how it is stored; Memory/Reading reads
--                     and restores it. Restored, Stored and Bounds hold the theorems.
--   Queue/Samples, Queue/Tests, Drawer/Tests, Memory/Tests
--                     shared inputs, and the theorems at concrete inputs.
--   Upload/Policy     src/lib/upload-policy.ts: the containers, the limits, the plan and the ranges of the
--                     parts, and the preflight. Parts and Accepted hold the theorems.
--   Upload/Head       src/lib/head-check.ts: `check_head` is checkHead, `skip_id3v2` skipId3v2; a head from an
--                     offset on is the list of what is there. Flac holds the theorem, Rounds the end of
--                     the loop over the tags.
--   Upload/Pump       src/lib/upload-queue.ts: `pump` as the steps of its workers, in any order. Counts
--                     and Runs hold the theorems.
--   Archive/Xor, Archive/Bytes
--                     the bits of words, and bytes in little-endian order.
--   Archive/Crc       src/lib/zip.ts: `crc_table` is buildCrcTables, `crc32` is crc32; `crc_serial` is the
--                     CRC of the specification. Slices, Blocks and Rolling hold the theorems.
--   Archive/Headers   src/lib/zip.ts: the Packer and the records of the format; Headers/Sizes their sizes.
--   Archive/Writer    src/lib/zip.ts: `zip_chunks` is zipChunks, as the chunks it yields and how it ends.
--                     Bodies, Entries, Layout and Archived hold the theorems.
--   Archive/Directory a reader of the central directory, after the ZIP specification; RoundTrip reads
--                     with it what the writer wrote.
--   Archive/Names     src/lib/crate-zip.ts: sanitizeSegment and dedupeName. Safe, Fresh and Numbered hold
--                     the theorems.
--   Archive/Plan      src/lib/crate-zip.ts: the names of the entries and `plan_crate_zip`, which is
--                     planCrateZip; Limits holds the theorems.
--   Worker/Consumer   workers/analysis/src/consumer.ts: `handle_message` and `handle_dead_letter`, with
--                     parseMessage. Settled and Letters hold the theorems.
--   Match/Ber         src/lib/ber.ts: `bit_error_rate`, `sweep_offsets` and `duration_gate_passes`; Best
--                     has the loop and Range the theorem.
--   Match/Popcount    `popcount32` of src/lib/ber.ts against the count of the bits one by one.
--   Archive/Tests, Directory/Tests, Upload/Tests, Worker/Tests, Match/Tests
--                     the theorems at concrete inputs.
--   Common            list, option and number helpers; Common/Number has the JavaScript numbers that
--                     reach the program as indices.
--
-- How the sources correspond: a Set of tokens is the list of what was added to it, a Map an
-- association list. An index is whole, a fraction between two whole numbers, NaN or an infinity.
-- Null and undefined are `none`; a copy of an immutable value is the value. A read of an array
-- element that is not there, on which the source throws or stores an entry without an id, is the
-- outcome `none` of `reduce`. A tempo is a whole number of hundredths, so that a score is a fraction
-- over a known denominator and is computed exactly; only rounding of floating point is lost, and
-- the comparison keeps the epsilon of the source. Date.parse and the order of texts are a
-- parameter, the record Host; JSON.parse, JSON.stringify and the printing of a date are the record
-- Runtime; Number on a text is a parameter; the candidate port is a function that may fail. A JSON
-- number is a whole number in the unit of its field, and the keys of an object differ. The words of
-- the shuffle's generator wrap at 2^32; an int32 of the CRC is its unsigned word, and bytes are lists
-- of numbers below 256. TextEncoder and the clock are the record Platform of Archive/Writer; the normal
-- form and the lower case of texts are the record TextHost of Archive/Names. A body is what its reads
-- give, one after the other, to its end or to a failure; a RangeError of the Packer is `none`. The
-- database, the container and the matcher are the answers in the record Deps of Worker/Consumer. Two
-- bit error rates are compared as exact fractions.
--
-- Each loop runs over a list or counts down a number, such as the room of the tail or the picks that
-- are wanted. The decimal digits of a number take fuel, one more than the number, and
-- `decimal_from-enough` in Drawer/Lines shows that more gives the same digits. The search for a free
-- name in Archive/Names tries the numbers that the source tries, up to its own bound. The loop over
-- the tags of Upload/Head has as many rounds as the head has bytes, and `skip_tags-enough` in
-- Head/Rounds shows that more give the same.
--
-- Not modelled: the text of the confirmation, the listeners of the stored state, the lookahead of
-- the player, the drawer's markup, the candidates' request, the client of multipart uploads with its
-- journal, the wrapper of the archive as a web stream, its response headers, the texts and logs of the
-- consumer, the decoding of fingerprints and the report per second, the rule that groups duplicates,
-- tag formats, the pages and their API, the maintenance worker, the analysis worker in Python and the
-- SQL migrations.
pub mod Archive
pub mod Common
pub mod Match
pub mod Queue
pub mod Upload
pub mod Worker
