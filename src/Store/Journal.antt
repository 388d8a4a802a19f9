-- ===== src/Store/Journal.antt =====
-- Journal and VerifyChain of internal/store/store.go. A file is its lines, the last of them ended by a
-- newline; no file is no lines. `digest` is the hexadecimal text of a SHA-256 and `py_float` the text of
-- a float64. A payload has no value that asRead or canonical refuses.
use costcrew.Base.{
  ℕ, suc, Bool, true, false, not, ◌||◌, Option, none, some, List, [], ◌∷◌, Text, codes, text_eq,
  if◌then◌else◌, is_empty, is_blank, take, insert, map, select,
}
use costcrew.Store.Json.{Fields, end, field, str, obj, float, canonical}

pub record Entry (F : Type 0) : Type 0 where
  pub ts : F
  pub event : Text
  pub payload : Fields F
  pub prev : Text
  pub hash : Text

-- What is read of a line: a record, or nothing where it is not one in JSON.
abbrev pub Line : Type 0 → Type 0
Line F = Option (Entry F)

-- What is hashed: the record without its own hash.
unfoldable pub body : {F : Type 0} → (F → Text) → Entry F → Text
body py_float e = canonical py_float (
    field (codes "ts") (float e.ts) (
      field (codes "event") (str e.event)
        (field (codes "data") (obj e.payload) (field (codes "prev") (str e.prev) end))))

unfoldable pub seal : {F : Type 0} → (Text → Text) → (F → Text) → Entry F → Text
seal digest py_float e = take 16 (digest (body py_float e))

abbrev pub genesis : Text
genesis = codes "genesis"

abbrev pub recovered : Text
recovered = codes "recovered"

-- The line that Journal appends: the record with its own hash.
unfoldable pub entry_text : {F : Type 0} → (F → Text) → Entry F → Text
entry_text py_float e = canonical py_float (
    field (codes "ts") (float e.ts) (
      field (codes "event") (str e.event) (
        field (codes "data") (obj e.payload)
          (field (codes "prev") (str e.prev) (field (codes "hash") (str e.hash) end)))))

-- encoding/json: what Unmarshal reads of a line into a Record and into a struct of the hash alone,
-- nothing where it fails, and what asRead makes of a payload: Marshal's text of it, read back.
pub record Reader (F : Type 0) : Type 0 where
  pub read : Text → Line F
  pub read_hash : Text → Option Text
  pub as_read : Fields F → Fields F

-- The last line of the file, without the newlines at its end.
abbrev pub last_line : List Text → Option Text
last_line [] = none
last_line (l ∷ ls) = elim (last_line ls) [
  | some later ↦ some later
  | none ↦ if is_empty l then none else some l
]

-- what the next record names as its predecessor
unfoldable pub prev_after : {F : Type 0} → Reader F → List Text → Text
prev_after json lines = elim (last_line lines) [
  | none ↦ genesis
  | some last ↦ if is_blank last then genesis else (elim (json.read_hash last) [
    | none ↦ recovered
    | some hash ↦ if is_empty hash then recovered else hash
  ])
]

module _ {F : Type 0} (digest : Text → Text) (py_float : F → Text) where
  unfoldable pub sealed : F → Text → Fields F → Text → Entry F
  sealed ts event payload prev =
      let e : Entry F = record {
        ts = ts;
        event = event;
        payload = payload;
        prev = prev;
        hash = [];
      } in
      record e { hash = seal digest py_float e }

  -- Journal: the hash, and the file. `ts` is the time, rounded to milliseconds.
  unfoldable pub journal : Reader F → F → Text → Fields F → List Text → Text × List Text
  journal json ts event payload lines =
      let e = sealed ts event (json.as_read payload) (prev_after json lines) in
      (e.hash, insert (entry_text py_float e) lines)

-- Where the chain first fails.
pub data Break (F : Type 0) : Type 0 where
  not_json : Break F
  at_entry : Entry F → Break F

pub record Verdict (F : Type 0) : Type 0 where
  pub sound : Bool
  pub count : ℕ
  pub break_at : Option (Break F)

module _ {F : Type 0} (digest : Text → Text) (py_float : F → Text) where
  -- The tests of one record, after `prev`.
  unfoldable pub links : Text → Entry F → Bool
  links prev e = text_eq e.prev prev || text_eq prev genesis

  unfoldable pub is_sealed : Entry F → Bool
  is_sealed e = text_eq (seal digest py_float e) e.hash

  -- The loop of VerifyChain, after `n` records of which the last has the hash `prev`.
  unfoldable pub verify_from : Text → ℕ → List (Line F) → Verdict F
  verify_from prev n [] = record { sound = true; count = n; break_at = none }
  verify_from prev n (none ∷ ls) = record { sound = false; count = n; break_at = some not_json }
  verify_from prev n (some e ∷ ls) =
      let rest = verify_from e.hash (suc n) ls in
      if not (links prev e) || not (is_sealed e)
      then record { sound = false; count = suc n; break_at = some (at_entry e) }
      else rest

  unfoldable pub verify_chain : List (Line F) → Verdict F
  verify_chain lines = verify_from genesis 0 lines

  -- VerifyChain, of the lines of the file that are not blank.
  unfoldable pub verify_journal : Reader F → List Text → Verdict F
  verify_journal json lines = verify_chain (map json.read (select (λ l. not (is_blank l)) lines))
