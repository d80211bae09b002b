-- ===== src/Protocol/Journal.antt =====
-- rust/access_core/src/protocol.rs: `FileReplayStateBackend`, the journal of consumed identifiers as
-- a file of hex lines. The file itself is a parameter.
use access.Common.{
  ◌≡◌, refl, ap, ◌∙◌, Bool, true, false, not, Option, none, some, List, [], ◌∷◌, ◌++◌, String,
  Bytes, if◌then◌else◌,
}
use access.Common.Result.{Result, ok, ◌>>=◌, ok_or, traverse, >>=-eq-ok}
use access.Common.Exec
use access.Common.Text.{format}
use access.Platform.{Platform}
use access.Protocol.Replay.{ReplayStateBackend}

-- The calls of `std::fs` and `std::io` on the journal's path, over the state `S` of the disk. A line
-- that cannot be read is an error of its own.
pub record JournalFile (S : Type 0) : Type 0 where
  pub has_parent : Bool
  pub create_dir_all : S → Result String (Unit {0}) × S
  pub exists : S → Bool
  pub open_lines : S → Result String (List (Result String String))
  pub open_append : S → Result String (Unit {0}) × S
  pub writeln : String → S → Result String (Unit {0}) × S
  pub sync_data : S → Result String (Unit {0}) × S
  pub hex_error : String → String

module _ (p : Platform) {S : Type 0} (F : JournalFile S) where
  abbrev decode_line : Result String String → Result String Bytes
  decode_line line = do encoded ← line; ok_or (p.hex_decode encoded) (F.hex_error encoded)

  -- `FileReplayStateBackend::new`, of a path whose parent, if it has one, is made a directory
  unfoldable pub new : S → Result String (Unit {0}) × S
  new s = let made = F.create_dir_all s in if F.has_parent then made else (ok tt, s)

  -- `FileReplayStateBackend::load`
  unfoldable pub load : S → Result String (List Bytes) × S
  load s = (
    if not (F.exists s) then ok [] else (F.open_lines s >>= λ lines. traverse decode_line lines),
    s,
  )

  -- `FileReplayStateBackend::append_and_sync`
  unfoldable pub append_and_sync : Bytes → S → Result String (Unit {0}) × S
  append_and_sync value =
      Exec.◌>>=◌ F.open_append λ _. Exec.◌>>=◌ (F.writeln (p.hex_encode value)) λ _. F.sync_data

  abbrev pub file_backend : ReplayStateBackend S
  unfolding load append_and_sync
  file_backend = record { load = load; append_and_sync = append_and_sync }

  -- The text after the last newline, which `lines` reads as a line too.
  abbrev pub rest_line : Option String → List (Result String String)
  rest_line none = []
  rest_line (some text) = ok text ∷ []

  -- The line that is written after the text that has no newline yet.
  abbrev pub joined : Option String → String → String
  joined none line = line
  joined (some text) line = format (text ∷ line ∷ [])

  -- What the standard library documents of the calls, of a file as its lines that end in a newline
  -- and the text after the last newline. `writeln` makes more than one write, and an earlier one that
  -- failed may have left such a text: then the next line is written behind it, on the same line.
  pub record IsTextFile : Type 0 where
    pub lines : S → List (Result String String)
    pub rest : S → Option String
    pub read :
        (s : S) (ls : List (Result String String))
        → F.open_lines s ≡ ok ls
        → ls ≡ lines s ++ rest_line (rest s)
    pub opened :
        (s s' : S)
        → F.open_append s ≡ (ok tt, s')
        → F.exists s ≡ true
        → (lines s' ≡ lines s) × (rest s' ≡ rest s) × (F.exists s' ≡ true)
    pub created :
        (s s' : S)
        → F.open_append s ≡ (ok tt, s')
        → F.exists s ≡ false
        → (lines s' ≡ []) × (rest s' ≡ none) × (F.exists s' ≡ true)
    pub written :
        (v : Bytes) (s s' : S)
        → F.writeln (p.hex_encode v) s ≡ (ok tt, s')
        → (lines s' ≡ lines s ++ ok (joined (rest s) (p.hex_encode v)) ∷ [])
          × (rest s' ≡ none)
          × (F.exists s' ≡ F.exists s)
    pub synced :
        (s s' : S)
        → F.sync_data s ≡ (ok tt, s')
        → (lines s' ≡ lines s) × (rest s' ≡ rest s) × (F.exists s' ≡ F.exists s)

traverse-append :
    {E A B : Type 0} (f : A → Result E B) (xs : List A) (x : A) (ys : List B) (y : B)
    → traverse f xs ≡ ok ys
    → f x ≡ ok y
    → traverse f (xs ++ x ∷ []) ≡ ok (ys ++ y ∷ [])
traverse-append f [] x ys y h k = let none_read : [] ≡ ys = cc in rw (k, ← none_read) refl
traverse-append f (z ∷ xs) x ys y h k =
    let (b, head, h1) = >>=-eq-ok (f z) _ h in
    let (bs, tail, h2) = >>=-eq-ok (traverse f xs) _ h1 in
    let same : b ∷ bs ≡ ys = cc in rw (head, traverse-append f xs x bs y tail k, ← same) refl

append-empty : {A : Type 0} (xs : List A) → xs ++ [] ≡ xs
append-empty [] = refl
append-empty (x ∷ xs) = ap (λ ys. x ∷ ys) (append-empty xs)

module _ (p : Platform) {S : Type 0} (F : JournalFile S) (D : IsTextFile p F) (v : Bytes) where
  -- The file holds the identifiers on its complete lines, and this text after them.
  record IsHolding (s : S) (vs : List Bytes) (text : Option String) : Type 0 where
    there : F.exists s ≡ true
    decoded : traverse (decode_line p F) (D.lines s) ≡ ok vs
    left : D.rest s ≡ text

  -- Writing and syncing a line, from a file that is there.
  written-IsHolding :
      (s s' s'' : S) (vs : List Bytes) (text : Option String) (w : Bytes)
      → IsHolding s vs text
      → p.hex_decode (joined p F text (p.hex_encode v)) ≡ some w
      → F.writeln (p.hex_encode v) s ≡ (ok tt, s')
      → F.sync_data s' ≡ (ok tt, s'')
      → IsHolding s'' (vs ++ w ∷ []) none
  written-IsHolding s s' s'' vs text w k hex written synced =
      let (lines, none_left, there) = D.written v s s' written in
      let (lines', none_left', there') = D.synced s' s'' synced in
      let line = joined p F text (p.hex_encode v) in
      let all : D.lines s'' ≡ D.lines s ++ ok line ∷ [] =
        lines' ∙ lines ∙ ap (λ t. D.lines s ++ ok (joined p F t (p.hex_encode v)) ∷ []) (k.left) in
      record {
        there = there' ∙ there ∙ k.there;
        decoded =
            rw all (
              traverse-append (decode_line p F) (D.lines s) (ok line) vs w k.decoded (rw hex refl));
        left = none_left' ∙ none_left;
      }

  load-IsHolding :
      (s : S) (vs : List Bytes) (ls : List (Result String String))
      → IsHolding s vs none
      → F.open_lines s ≡ ok ls
      → (load p F s).0 ≡ ok vs
  unfolding load
  load-IsHolding s vs ls k read =
      let all : ls ≡ D.lines s =
        D.read s ls read
        ∙ ap (λ t. D.lines s ++ rest_line p F t) k.left
        ∙ append-empty (D.lines s) in
      rw (k.there, read, all) k.decoded

  append_and_sync-IsHolding :
      (s s' : S) (vs : List Bytes) (text : Option String) (w : Bytes)
      → IsHolding s vs text
      → p.hex_decode (joined p F text (p.hex_encode v)) ≡ some w
      → append_and_sync p F v s ≡ (ok tt, s')
      → IsHolding s' (vs ++ w ∷ []) none
  unfolding append_and_sync
  append_and_sync-IsHolding s s' vs text w k hex h = Exec.bind-then _ _ h λ _ s1 opened h1.
      Exec.bind-then _ _ h1 λ _ s2 written synced.
        let (lines, left, there) = D.opened s s1 opened k.there in
        written-IsHolding s1 s2 s' vs text w
          (record { there = there; decoded = rw lines k.decoded; left = left ∙ k.left }) hex written
          synced

  created-IsHolding :
      (s s' : S) (w : Bytes)
      → F.exists s ≡ false
      → p.hex_decode (p.hex_encode v) ≡ some w
      → append_and_sync p F v s ≡ (ok tt, s')
      → IsHolding s' (w ∷ []) none
  unfolding append_and_sync
  created-IsHolding s s' w e hex h = Exec.bind-then _ _ h λ _ s1 opened h1.
      Exec.bind-then _ _ h1 λ _ s2 written synced.
        let (lines, left, there) = D.created s s1 opened e in
        written-IsHolding s1 s2 s' [] none w
          (record { there = there; decoded = rw lines refl; left = left }) hex written synced

  appended-IsHolding :
      (s s' : S) (vs : List Bytes) (there : Bool)
      → F.exists s ≡ there
      → D.rest s ≡ none
      → p.hex_decode (p.hex_encode v) ≡ some v
      → (load p F s).0 ≡ ok vs
      → append_and_sync p F v s ≡ (ok tt, s')
      → IsHolding s' (vs ++ v ∷ []) none
  unfolding load
  appended-IsHolding s s' vs true e left hex loaded h =
      let read : (F.open_lines s >>= λ lines. traverse (decode_line p F) lines) ≡ ok vs =
        rw e at loaded in
      let (lines, old, decoded) = >>=-eq-ok (F.open_lines s) _ read in
      let all : lines ≡ D.lines s =
        D.read s lines old
        ∙ ap (λ t. D.lines s ++ rest_line p F t) left
        ∙ append-empty (D.lines s) in
      append_and_sync-IsHolding s s' vs none v
        (record { there = e; decoded = rw (← all) decoded; left = left }) hex h
  appended-IsHolding s s' vs false e left hex loaded h =
      let empty : ok [] ≡ ok vs = rw e at loaded in
      let none_read : [] ≡ vs = cc in rw (← none_read) (created-IsHolding s s' v e hex h)

  -- An identifier that the journal has durably appended is read back after all those before it, also
  -- where the append created the file: provided that no text without a newline was left in the file,
  -- that the file can be read after the append, and that the identifier's hex text decodes to it.
  pub load-append_and_sync :
      (s s' : S) (vs : List Bytes) (ls : List (Result String String))
      → p.hex_decode (p.hex_encode v) ≡ some v
      → D.rest s ≡ none
      → (load p F s).0 ≡ ok vs
      → append_and_sync p F v s ≡ (ok tt, s')
      → F.open_lines s' ≡ ok ls
      → (load p F s').0 ≡ ok (vs ++ v ∷ [])
  load-append_and_sync s s' vs ls hex left loaded h read =
      load-IsHolding s' (vs ++ v ∷ []) ls
        (appended-IsHolding s s' vs (F.exists s) refl left hex loaded h) read

  -- Where an append that failed has left text without a newline, the next one reports success, but
  -- the two are read back as one identifier, that of the joined text.
  load-append_merged :
      (s s' : S) (vs : List Bytes) (ls : List (Result String String)) (text : String) (w : Bytes)
      → F.exists s ≡ true
      → traverse (decode_line p F) (D.lines s) ≡ ok vs
      → D.rest s ≡ some text
      → p.hex_decode (format (text ∷ p.hex_encode v ∷ [])) ≡ some w
      → append_and_sync p F v s ≡ (ok tt, s')
      → F.open_lines s' ≡ ok ls
      → (load p F s').0 ≡ ok (vs ++ w ∷ [])
  load-append_merged s s' vs ls text w there decoded left hex h read =
      load-IsHolding s' (vs ++ w ∷ []) ls
        (append_and_sync-IsHolding s s' vs (some text) w
          (record { there = there; decoded = decoded; left = left }) hex h)
        read
