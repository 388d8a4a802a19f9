-- ===== src/Crew/Options/Answer.antt =====
-- internal/crew/answer.go: who answered an option, for whom and why. A text is a list of code points,
-- so the case of bytes that are not UTF-8 does not arise.
use costcrew.Base.{
  ℕ, Bool, true, false, not, ◌&&◌, ◌||◌, [], ◌∷◌, Text, if◌then◌else◌, is_empty, trim_space,
  is_space, ltb, leb, ◌==◌, Result, ok, err, ◌>>=◌,
}
use costcrew.Auth.Passwords.{byte_length}
use costcrew.Crew.Options.Table.{
  AnsweredAs, as_nobody, as_owner, as_admin_for_owner, Answer, StoreError, need_behalf_reason,
  reason_for_nobody, wrong_mark, bad_behalf_reason,
}

abbrev pub behalf_reason_max_bytes : ℕ
behalf_reason_max_bytes = 500

abbrev pub owner_answer : Text → Answer
owner_answer owner = record { actor = owner; given_as = as_owner; on_behalf_of = []; reason = [] }

abbrev pub admin_answer_for : Text → Text → Text → Answer
admin_answer_for admin owner reason = record {
  actor = admin;
  given_as = as_admin_for_owner;
  on_behalf_of = owner;
  reason = reason;
}

-- Apply's answer: the supervisor's own act.
abbrev pub own_act : Text → Answer
own_act actor = record { actor = actor; given_as = as_nobody; on_behalf_of = []; reason = [] }

unfoldable pub on_behalf : Answer → Bool
on_behalf a = not (is_empty a.on_behalf_of)

unfoldable pub is_admin_for_owner : AnsweredAs → Bool
is_admin_for_owner as_admin_for_owner = true
is_admin_for_owner _ = false

-- unicode.IsControl
unfoldable pub is_control : ℕ → Bool
is_control c = ltb c 0x20 || (leb 0x7F c && leb c 0x9F)

unfoldable pub is_separator : ℕ → Bool
is_separator c = c == 0x2028 || c == 0x2029

unfoldable pub is_direction : ℕ → Bool
is_direction c = (leb 0x202A c && leb c 0x202E) || (leb 0x2066 c && leb c 0x2069)

unfoldable pub is_zero_width : ℕ → Bool
is_zero_width c = c == 0x200B || c == 0x200C || c == 0x200D || c == 0xFEFF

-- The cases of the switch that return an error: not reached by a newline or a tab.
unfoldable pub is_forbidden : ℕ → Bool
is_forbidden c =
    not (c == b'\n' || c == b'\t') && (is_control c || is_separator c || is_direction c)

-- The last case. A newline and a tab are white space too.
unfoldable pub is_shown : ℕ → Bool
is_shown c = not (is_zero_width c) && not (is_space c)

-- The loop over the characters; `visible` is whether one before showed.
unfoldable pub scan_reason : Bool → Text → Result StoreError Bool
scan_reason visible [] = ok visible
scan_reason visible (c ∷ s) =
    let rest = scan_reason (visible || is_shown c) s in
    if is_forbidden c then err bad_behalf_reason else rest

unfoldable pub valid_behalf_reason : Text → Result StoreError Text
valid_behalf_reason s =
    let r = trim_space s in
    if is_empty r
    then err need_behalf_reason
    else if ltb behalf_reason_max_bytes (byte_length r)
    then err bad_behalf_reason
    else (scan_reason false r >>= λ visible. if not visible then err need_behalf_reason else ok r)

-- Answer.Validate
unfoldable pub validate : Answer → Result StoreError (Unit {0})
validate a =
    if not (on_behalf a)
    then if not (is_empty a.reason) then err reason_for_nobody else ok tt
    else if not (is_admin_for_owner a.given_as)
    then err wrong_mark
    else (valid_behalf_reason a.reason >>= λ _. ok tt)

unfoldable pub trimmed_reason : Answer → Text
trimmed_reason a =
    if not (on_behalf a)
    then []
    else (elim (valid_behalf_reason a.reason) [ ok r ↦ r | err _ ↦ [] ])
