-- ===== src/Tests/Replays.antt =====
-- The replay cache, run on a platform's backend and on a journal that appends.
use access.Common.{
  ◌++◌, ◌≡◌, refl, ap, sym, ◌∙◌, Bool, true, false, Option, none, some, List, [], ◌∷◌, String,
  Bytes, contains, arith,
}
use access.Common.Tests.{bytes_eq}
use access.Common.Result.{Result, ok, err, ok-injective}
use access.Platform.{Platform}
use access.Protocol.Claims.{replay}
use access.Protocol.Replay.{ReplayStateBackend, ReplayCache, consume}
use access.Protocol.Replay.Once.{Distinct, accepted, accepted-Distinct}
use access.Protocol.Replay.Restart.{IsDurable, IsSynced, restart, restart_after_consume}
use access.Common.Exec
use access.Utf8.{as_bytes, from_utf8, encode_code}
use access.Common.Text.{format}
use access.Protocol.Journal.{
  JournalFile, IsTextFile, rest_line, joined, load, append_and_sync, load-append_and_sync,
}
use access.Tests.{platform}
use access.Tests.Fixtures.{nonce}

abbrev p : Platform
p = platform [] []

abbrev used : ReplayCache p.Backend
used = record { consumed = nonce 7 ∷ []; backend = none }

accepted-Distinct_example :
    Distinct p.backend (accepted p.backend used (nonce 1 ∷ nonce 7 ∷ nonce 1 ∷ []))
accepted-Distinct_example = accepted-Distinct p.backend used (nonce 1 ∷ nonce 7 ∷ nonce 1 ∷ [])

-- A journal that appends.
abbrev journal : ReplayStateBackend (List Bytes)
journal = record {
  load = λ values. (ok values, values);
  append_and_sync = λ value values. (ok tt, values ++ value ∷ []);
}

journal-IsDurable : IsDurable journal
journal-IsDurable = record { load-append = λ v s s' vs h k. ground arith }

abbrev journaled : ReplayCache (List Bytes)
journaled = record { consumed = []; backend = some [] }

abbrev journaled_next : ReplayCache (List Bytes)
journaled_next = record { consumed = nonce 1 ∷ []; backend = some (nonce 1 ∷ []) }

journaled-IsSynced : IsSynced journal journaled
journaled-IsSynced = record {
  store = [];
  stored = refl;
  journal = [];
  loads = refl;
  covers = λ m h. h;
}

consumes : consume journal (nonce 1) journaled ≡ (ok tt, journaled_next)
unfolding consume
consumes = refl

same_nonce : contains (nonce 1 ∷ []) (nonce 1) ≡ true
unfolding bytes_eq
same_nonce = refl

restart_after_consume_example :
    (r : ReplayCache (List Bytes)) × (restart journal journaled_next ≡ ok r)
    × (consume journal (nonce 1) r ≡ (err replay, r))
restart_after_consume_example =
    restart_after_consume journal journal-IsDurable (nonce 1) (nonce 1) journaled journaled_next
      journaled-IsSynced consumes same_nonce

-- A file, if it exists, as its lines and the text after the last newline.
abbrev Disk : Type 0
Disk = Option (List (Result String String) × Option String)

abbrev disk_lines : Disk → List (Result String String)
disk_lines none = []
disk_lines (some (lines, rest)) = lines

abbrev disk_rest : Disk → Option String
disk_rest none = none
disk_rest (some (lines, rest)) = rest

abbrev is_there : Disk → Bool
is_there none = false
is_there (some held) = true

abbrev as_read : List (Result String String) → Option String → List (Result String String)
as_read lines none = lines ++ []
as_read lines (some text) = lines ++ ok text ∷ []

abbrev read_file : Disk → Result String (List (Result String String))
read_file none = err "not found"
read_file (some (lines, rest)) = ok (as_read lines rest)

abbrev create_file : Disk → Disk
create_file none = some ([], none)
create_file (some held) = some held

abbrev write_line : String → Disk → Result String (Unit {0}) × Disk
write_line line none = (err "not found", none)
write_line line (some (lines, none)) = (ok tt, some (lines ++ ok line ∷ [], none))
write_line line (some (lines, some text)) =
    (ok tt, some (lines ++ ok (format (text ∷ line ∷ [])) ∷ [], none))

abbrev file : JournalFile Disk
file = record {
  has_parent = true;
  create_dir_all = λ s. (ok tt, s);
  exists = is_there;
  open_lines = read_file;
  open_append = λ s. (ok tt, create_file s);
  writeln = write_line;
  sync_data = λ s. (ok tt, s);
  hex_error = λ line. line;
}

after_call : {x y : Result String (Unit {0}) × Disk} → x ≡ y → x.1 ≡ y.1
after_call = ap (λ z. z.1)

file_written :
    (line : String) (s s' : Disk)
    → write_line line s ≡ (ok tt, s')
    → (disk_lines s' ≡ disk_lines s ++ ok (joined p file (disk_rest s) line) ∷ [])
      × (disk_rest s' ≡ none)
      × (is_there s' ≡ is_there s)
file_written line none s' h = cc
file_written line (some (lines, none)) s' h = rw (← after_call h) (refl, refl, refl)
file_written line (some (lines, some text)) s' h = rw (← after_call h) (refl, refl, refl)

file_read :
    (s : Disk) (ls : List (Result String String))
    → read_file s ≡ ok ls
    → as_read (disk_lines s) (disk_rest s) ≡ ls
file_read none ls h = cc
file_read (some (lines, rest)) ls h = ok-injective h

file_opened :
    (s : Disk)
    → is_there s ≡ true
    → (disk_lines (create_file s) ≡ disk_lines s)
      × (disk_rest (create_file s) ≡ disk_rest s)
      × (is_there (create_file s) ≡ true)
file_opened none e = cc
file_opened (some held) e = (refl, refl, refl)

file_created :
    (s : Disk)
    → is_there s ≡ false
    → (disk_lines (create_file s) ≡ [])
      × (disk_rest (create_file s) ≡ none)
      × (is_there (create_file s) ≡ true)
file_created none e = (refl, refl, refl)
file_created (some held) e = cc

as_read-rest_line :
    (lines : List (Result String String)) (rest : Option String)
    → as_read lines rest ≡ lines ++ rest_line p file rest
as_read-rest_line lines none = refl
as_read-rest_line lines (some text) = refl

file-IsTextFile : IsTextFile p file
file-IsTextFile = record {
  lines = disk_lines;
  rest = disk_rest;
  read = λ s ls h. sym (file_read s ls h) ∙ as_read-rest_line (disk_lines s) (disk_rest s);
  opened = λ s s' h e. rw (← after_call h) (file_opened s e);
  created = λ s s' h e. rw (← after_call h) (file_created s e);
  written = λ v s s' h. file_written (p.hex_encode v) s s' h;
  synced = λ s s' h. rw (← after_call h) (refl, refl, refl);
}

hex_back : p.hex_decode (p.hex_encode (65 ∷ [])) ≡ some (65 ∷ [])
unfolding platform as_bytes from_utf8 encode_code
hex_back = refl

stored : (load p file (some (ok "B" ∷ [], none))).0 ≡ ok ((66 ∷ []) ∷ [])
unfolding load platform as_bytes encode_code
stored = refl

appends :
    append_and_sync p file (65 ∷ []) (some (ok "B" ∷ [], none))
    ≡ (ok tt, some (ok "B" ∷ ok "A" ∷ [], none))
unfolding append_and_sync platform from_utf8 Exec.◌>>=◌
appends = refl

load-append_and_sync_example :
    (load p file (some (ok "B" ∷ ok "A" ∷ [], none))).0 ≡ ok ((66 ∷ []) ∷ (65 ∷ []) ∷ [])
unfolding file-IsTextFile
load-append_and_sync_example =
    load-append_and_sync p file file-IsTextFile (65 ∷ []) (some (ok "B" ∷ [], none))
      (some (ok "B" ∷ ok "A" ∷ [], none)) ((66 ∷ []) ∷ []) (ok "B" ∷ ok "A" ∷ []) hex_back refl
      stored appends refl

-- An append that failed has left "B" without a newline: the next one reports success, and what is
-- read back is the two as one.
merges : append_and_sync p file (65 ∷ []) (some ([], some "B")) ≡ (ok tt, some (ok "BA" ∷ [], none))
unfolding append_and_sync platform from_utf8 Exec.◌>>=◌ format
merges = refl

merged : (load p file (some (ok "BA" ∷ [], none))).0 ≡ ok ((66 ∷ 65 ∷ []) ∷ [])
unfolding load platform as_bytes encode_code
merged = refl
