-- ===== src/Store/Written.antt =====
-- A journal that only Journal wrote to, as VerifyChain reads it back.
use costcrew.Base.{
  ◌≡◌, refl, true, false, not, some, List, [], ◌∷◌, Text, text_eq_refl, is_empty, is_blank,
  is_blank-cons, length, length-insert, map, select, insert, arith,
}
use costcrew.Store.Json.{Fields, canonical, write_value, sorted}
use costcrew.Store.Journal.{
  Entry, Line, Reader, body, seal, sealed, genesis, entry_text, last_line, prev_after, journal,
  links, is_sealed, verify_chain, verify_journal,
}
use costcrew.Store.Chain.{
  IsDigest, passed, end_hash, end_hash-insert, verify_from-insert, verify_from-nil,
}

module _ {F : Type 0} (digest : Text → Text) (py_float : F → Text) (json : Reader F) where
  -- The line of a record is read back with its hash, and as a record with the same fields, but for
  -- the payload, which is as asRead makes it.
  pub record IsReadBack (e : Entry F) : Type 0 where
    pub whole :
        json.read (entry_text py_float e) ≡ some (record e { payload = json.as_read e.payload })
    pub hash : json.read_hash (entry_text py_float e) ≡ some e.hash

  -- What calls of Journal leave, from no file on, where each line that they write is read back.
  pub data Written : List Text → Type 0 where
    blank : Written []
    wrote :
        (ts : F) (event : Text) (payload : Fields F) {lines : List Text}
        → Written lines
        → IsReadBack
            (sealed digest py_float ts event (json.as_read payload) (prev_after json lines))
        → Written (journal digest py_float json ts event payload lines).1

  -- the file as VerifyChain reads it
  abbrev read_lines : List Text → List (Line F)
  read_lines lines = map json.read (select (λ l. not (is_blank l)) lines)

  read_lines-insert :
      (l : Text) (lines : List Text)
      → is_blank l ≡ false
      → read_lines (insert l lines) ≡ insert (json.read l) (read_lines lines)
  read_lines-insert l [] full = rw full refl
  read_lines-insert l (m ∷ lines) full = ground (arith, read_lines-insert l lines full)

  entry_text-is_blank : (e : Entry F) → is_blank (entry_text py_float e) ≡ false
  unfolding entry_text canonical sorted write_value
  entry_text-is_blank e = is_blank-cons b'{' _ refl

  entry_text-is_empty : (e : Entry F) → is_empty (entry_text py_float e) ≡ false
  unfolding entry_text canonical sorted write_value
  entry_text-is_empty e = refl

  last_line-insert :
      (l : Text) (lines : List Text) → is_empty l ≡ false → last_line (insert l lines) ≡ some l
  last_line-insert l [] full = rw full refl
  last_line-insert l (m ∷ lines) full = rw (last_line-insert l lines full) refl

  prev_after-last :
      (lines : List Text) {last hash : Text}
      → last_line lines ≡ some last
      → is_blank last ≡ false
      → json.read_hash last ≡ some hash
      → is_empty hash ≡ false
      → prev_after json lines ≡ hash
  unfolding prev_after
  prev_after-last lines ends solid back full = rw (prev_after, ends, solid, back, full) refl

  sealed-is_sealed :
      (ts : F) (event : Text) (payload : Fields F) (prev : Text)
      → is_sealed digest py_float (sealed digest py_float ts event payload prev) ≡ true
  unfolding is_sealed sealed seal body
  sealed-is_sealed ts event payload prev =
      text_eq_refl (seal digest py_float (sealed digest py_float ts event payload prev))

  sealed-links :
      (ts : F) (event : Text) (payload : Fields F) (prev : Text)
      → links digest py_float prev (sealed digest py_float ts event payload prev) ≡ true
  unfolding links sealed
  sealed-links ts event payload prev = rw (text_eq_refl prev) refl

  module _ (hex : IsDigest digest)
      (settled : (fs : Fields F) → json.as_read (json.as_read fs) ≡ json.as_read fs) where
    sealed-is_empty :
        (ts : F) (event : Text) (payload : Fields F) (prev : Text)
        → is_empty (sealed digest py_float ts event payload prev).hash ≡ false
    unfolding sealed seal
    sealed-is_empty ts event payload prev =
        let e : Entry F = record {
          ts = ts;
          event = event;
          payload = payload;
          prev = prev;
          hash = [];
        } in
        ground (arith, hex (body py_float e))

    -- the next record names the one that was written last
    prev_after-insert :
        (e : Entry F) (lines : List Text)
        → IsReadBack e
        → is_empty e.hash ≡ false
        → prev_after json (insert (entry_text py_float e) lines) ≡ e.hash
    prev_after-insert e lines back full =
        prev_after-last (insert (entry_text py_float e) lines)
          (last_line-insert (entry_text py_float e) lines (entry_text-is_empty e))
          (entry_text-is_blank e) back.hash full

    -- what is hashed is what is read
    sealed-read :
        (ts : F) (event : Text) (payload : Fields F) (prev : Text)
        → let e = sealed digest py_float ts event (json.as_read payload) prev in
          record e { payload = json.as_read e.payload } ≡ e
    unfolding sealed
    sealed-read ts event payload prev = rw (settled payload) refl

    Written-end_hash :
        {lines : List Text}
        → Written lines
        → end_hash digest py_float genesis (read_lines lines) ≡ prev_after json lines
    unfolding journal
    Written-end_hash blank = unfold prev_after in refl
    Written-end_hash (wrote ts event payload {lines} w back) =
        let prev = prev_after json lines in
        let e = sealed digest py_float ts event (json.as_read payload) prev in
        rw
          (
            read_lines-insert (entry_text py_float e) lines (entry_text-is_blank e),
            back.whole,
            sealed-read ts event payload prev,
            end_hash-insert digest py_float genesis e (read_lines lines),
            prev_after-insert e lines back (sealed-is_empty ts event (json.as_read payload) prev),
          )
          refl

    -- A journal that Journal alone wrote, from no file on, verifies with as many records as lines, if
    -- the digest has at least 16 characters, each line that was written is read back with its fields
    -- but for the payload, which is read as asRead makes it, and asRead leaves what it made as it is.
    pub Written-verifies :
        {lines : List Text}
        → Written lines
        → verify_journal digest py_float json lines ≡ passed (length lines)
    unfolding verify_journal verify_chain journal
    Written-verifies blank = verify_from-nil digest py_float genesis 0
    Written-verifies (wrote ts event payload {lines} w back) =
        let prev = prev_after json lines in
        let e = sealed digest py_float ts event (json.as_read payload) prev in
        rw
          (
            read_lines-insert (entry_text py_float e) lines (entry_text-is_blank e),
            back.whole,
            sealed-read ts event payload prev,
            length-insert (entry_text py_float e) lines,
          )
          (verify_from-insert digest py_float genesis 0 (length lines) e (read_lines lines)
            (Written-verifies w)
            (rw (Written-end_hash w) (sealed-links ts event (json.as_read payload) prev))
            (sealed-is_sealed ts event (json.as_read payload) prev))
