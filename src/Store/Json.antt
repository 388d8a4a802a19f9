-- ===== src/Store/Json.antt =====
-- The canonical text of a journal entry in internal/store/store.go: canonical, writeValue and
-- writeString. A float64 is of a type `F` whose text, pyFloat's, is an argument.
use costcrew.Base.{
  ℕ, ◌+◌, ◌-◌, ◌/◌, ◌%◌, Bool, [], ◌∷◌, ◌++◌, Text, codes, text_leb, if◌then◌else◌, ltb, ◌==◌, ℤ,
  pos, negsuc, suc,
}
use costcrew.Base.Decimal.{show_nat}

mutual
  -- the `any` of the payloads
  pub data Value (F : Type 0) : Type 0 where
    obj : Fields F → Value F
    arr : Items F → Value F
    str : Text → Value F
    bool : Bool → Value F
    null : Value F
    int : ℤ → Value F
    float : F → Value F

  pub data Items (F : Type 0) : Type 0 where
    nil : Items F
    cons : Value F → Items F → Items F

  -- A map, as its entries.
  pub data Fields (F : Type 0) : Type 0 where
    end : Fields F
    field : Text → Value F → Fields F → Fields F

-- fmt's "%x" of a digit
unfoldable pub hex_digit : ℕ → ℕ
hex_digit d = if ltb d 10 then b'0' + d else b'a' + (d - 10)

-- `\u%04x` of a code point below 0x20
unfoldable pub show_u : ℕ → Text
unfolding hex_digit
show_u c = codes "\\u00" ++ hex_digit (c / 16) ∷ hex_digit (c % 16) ∷ []

unfoldable pub escape : ℕ → Text
unfolding show_u
escape c =
    if c == b'"'
    then codes "\\\""
    else if c == 92
    then codes "\\\\"
    else if c == 10
    then codes "\\n"
    else if c == 13
    then codes "\\r"
    else if c == 9
    then codes "\\t"
    else if ltb c 0x20
    then show_u c
    else c ∷ []

unfoldable pub escapes : Text → Text
escapes [] = []
escapes (c ∷ s) = escape c ++ escapes s

-- writeString
unfoldable pub write_string : Text → Text
write_string s = b'"' ∷ escapes s ++ b'"' ∷ []

unfoldable pub write_int : ℤ → Text
write_int (pos n) = show_nat n
write_int (negsuc n) = b'-' ∷ show_nat (suc n)

module _ {F : Type 0} where
  unfoldable pub put_field : Text → Value F → Fields F → Fields F
  put_field k v end = field k v end
  put_field k v (field j w fs) =
      let rest = put_field k v fs in
      if text_leb k j then field k v (field j w fs) else field j w rest

  -- Every map inside in the order of its keys, as sort.Strings puts them.
  unfoldable mutual
    pub sorted : Value F → Value F
    sorted (obj fs) = obj (sorted_fields fs)
    sorted (arr xs) = arr (sorted_items xs)
    sorted (str s) = str s
    sorted (bool b) = bool b
    sorted null = null
    sorted (int n) = int n
    sorted (float f) = float f

    pub sorted_items : Items F → Items F
    sorted_items nil = nil
    sorted_items (cons x xs) = cons (sorted x) (sorted_items xs)

    pub sorted_fields : Fields F → Fields F
    sorted_fields end = end
    sorted_fields (field k v fs) = put_field k (sorted v) (sorted_fields fs)

unfoldable mutual
  pub write_value : {F : Type 0} → (F → Text) → Value F → Text
  write_value py_float (obj fs) = b'{' ∷ write_fields py_float fs ++ b'}' ∷ []
  write_value py_float (arr xs) = b'[' ∷ write_items py_float xs ++ b']' ∷ []
  write_value py_float (str s) = write_string s
  write_value py_float (bool b) = if b then codes "true" else codes "false"
  write_value py_float null = codes "null"
  write_value py_float (int n) = write_int n
  write_value py_float (float f) = py_float f

  pub write_items : {F : Type 0} → (F → Text) → Items F → Text
  write_items py_float nil = []
  write_items py_float (cons x nil) = write_value py_float x
  write_items py_float (cons x (cons y xs)) =
      write_value py_float x ++ codes ", " ++ write_items py_float (cons y xs)

  pub write_fields : {F : Type 0} → (F → Text) → Fields F → Text
  write_fields py_float end = []
  write_fields py_float (field k v end) = write_string k ++ codes ": " ++ write_value py_float v
  write_fields py_float (field k v (field j w fs)) =
      write_string k
      ++ codes ": "
      ++ write_value py_float v
      ++ codes ", "
      ++ write_fields py_float (field j w fs)

-- canonical
unfoldable pub canonical : {F : Type 0} → (F → Text) → Fields F → Text
canonical py_float fs = write_value py_float (sorted (obj fs))
