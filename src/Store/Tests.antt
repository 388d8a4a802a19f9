-- ===== src/Store/Tests.antt =====
-- A journal of two records, written, verified, cut and compared.
use costcrew.Base.{
  ℕ, ◌≡◌, refl, true, some, List, [], ◌∷◌, Text, codes, length, map, drop, ◌⊎◌, pos, negsuc,
  text_eq, if◌then◌else◌, is_blank, trim_space, trim_left,
}
use costcrew.Base.Decimal.{show_nat}
use costcrew.Store.Json.{
  Value, obj, arr, str, bool, null, int, float, Fields, end, field, canonical, write_value,
  write_string, escapes, escape, sorted, put_field, write_int,
}
use costcrew.Store.Journal.{
  Entry, Line, Reader, genesis, seal, sealed, prev_after, entry_text, journal, links, is_sealed,
  verify_from, verify_chain, verify_journal,
}
use costcrew.Store.Chain.{IsDigest, passed, verify_chain-drop}
use costcrew.Store.Written.{Written, blank, wrote, Written-verifies}
use costcrew.Store.Tamper.{lines_of, Collision, same_end_same_seals}

-- A stand-in for a SHA-256's text, and for a float's.
abbrev digest : Text → Text
digest s = codes "0123456789abcdef"

abbrev show : ℕ → Text
show n = codes "1.0"

abbrev floated : Value ℕ → Value ℕ
floated (int (pos n)) = float n
floated (int (negsuc n)) = null
floated (obj fs) = obj fs
floated (arr xs) = arr xs
floated (str s) = str s
floated (bool b) = bool b
floated null = null
floated (float n) = float n

-- Whole numbers are read back as floats.
abbrev as_read : Fields ℕ → Fields ℕ
as_read end = end
as_read (field k v fs) = field k (floated v) (as_read fs)

floated-floated : (v : Value ℕ) → floated (floated v) ≡ floated v
floated-floated (int (pos n)) = refl
floated-floated (int (negsuc n)) = refl
floated-floated (obj fs) = refl
floated-floated (arr xs) = refl
floated-floated (str s) = refl
floated-floated (bool b) = refl
floated-floated null = refl
floated-floated (float n) = refl

as_read-as_read : (fs : Fields ℕ) → as_read (as_read fs) ≡ as_read fs
as_read-as_read end = refl
as_read-as_read (field k v fs) = rw (floated-floated v, as_read-as_read fs) refl

abbrev who : Fields ℕ
who = field (codes "username") (str (codes "ann")) end

abbrev cost : Fields ℕ
cost = field (codes "excess") (int (pos 34805)) end

abbrev record_of : Text → Fields ℕ → Text → Entry ℕ
record_of event payload prev = record {
  ts = 1;
  event = event;
  payload = payload;
  prev = prev;
  hash = digest [];
}

abbrev login : Entry ℕ
login = record_of (codes "login") who genesis

abbrev found : Entry ℕ
found = record_of (codes "found") (as_read cost) (digest [])

abbrev login_line : Text
login_line =
    codes
      "{\"data\": {\"username\": \"ann\"}, \"event\": \"login\", \"hash\": \"0123456789abcdef\", \"prev\": \"genesis\", \"ts\": 1.0}"

-- A reader that knows the two lines.
abbrev json : Reader ℕ
json = record {
  read = λ t. if text_eq t login_line then some login else some found;
  read_hash = λ t. some (digest []);
  as_read = as_read;
}

abbrev lines : List Text
lines =
    (journal digest show json 1 (codes "found") cost
      (journal digest show json 1 (codes "login") who []).1).1

written : Written digest show json lines
unfolding journal sealed seal prev_after entry_text canonical sorted put_field write_value
    write_string escapes escape is_blank trim_space trim_left
written =
    wrote 1 (codes "found") cost
      (wrote 1 (codes "login") who blank (record { whole = refl; hash = refl }))
      (record { whole = refl; hash = refl })

digest-IsDigest : IsDigest digest
digest-IsDigest s = refl

Written-verifies_example : verify_journal digest show json lines ≡ passed (length lines)
Written-verifies_example = Written-verifies digest show json digest-IsDigest as_read-as_read written

abbrev read_back : List (Line ℕ)
read_back = some login ∷ some found ∷ []

sound_lines : (verify_chain digest show read_back).sound ≡ true
unfolding verify_chain verify_from links is_sealed seal
sound_lines = refl

verify_chain-drop_example : (verify_chain digest show (drop 1 read_back)).sound ≡ true
verify_chain-drop_example = verify_chain-drop digest show 1 read_back sound_lines

abbrev entry : Text → Entry ℕ
entry event = record { ts = 1; event = event; payload = who; prev = genesis; hash = digest [] }

sound_entry :
    (event : Text)
    → (verify_chain digest show (lines_of digest show (entry event ∷ []))).sound ≡ true
unfolding verify_chain verify_from links is_sealed seal
sound_entry event = refl

same_end_same_seals_example :
    Collision digest show (entry (codes "login") ∷ []) (entry (codes "logout") ∷ [])
    ⊎ (map (seal digest show) (entry (codes "login") ∷ [])
        ≡ map (seal digest show) (entry (codes "logout") ∷ []))
same_end_same_seals_example =
    same_end_same_seals digest show digest-IsDigest (entry (codes "login") ∷ [])
      (entry (codes "logout") ∷ []) (sound_entry (codes "login")) (sound_entry (codes "logout"))
      refl refl

-- The keys are sorted, and what JSON escapes is escaped.
canonical_text :
    canonical show (field (codes "b") (int (pos 2)) (field (codes "a") (str (codes "x\"y")) end))
    ≡ codes "{\"a\": \"x\\\"y\", \"b\": 2}"
unfolding canonical write_value sorted put_field write_string escapes escape write_int show_nat
canonical_text = refl
