-- ===== src/Crew/Options/Block.antt =====
-- ParseOptions of internal/crew/options.go: the trailing block of a deliverable. `decode` is
-- encoding/json's reading of the block into its options, which is none for a text that is not the
-- JSON of one. An absent field reads as the empty text.
use costcrew.Base.{
  ℕ, suc, Option, none, some, List, [], ◌∷◌, Text, codes, if◌then◌else◌, is_empty, is_blank,
  trim_space, text_eq, ltb, ltb_ℤ, pos, ◌*◌, ◌||◌, length, Result, ok, err, ◌>>=◌, ◌>>◌, refuse_if,
}
use costcrew.Base.Decimal.{parse_int}
use costcrew.Money.Amount.{Cents}
use costcrew.Auth.Passwords.{byte_length}
use costcrew.Crew.Options.Table.{OptionRow, opened}
use costcrew.Crew.Options.Fence.{options_fence}

pub record RawOption : Type 0 where
  pub class : Text
  pub summary : Text
  pub figure_cents : Text
  pub saving_cents : Text
  pub risk : Text
  pub needs : Text
  pub evidence : List Text
  pub target : Text

abbrev pub options_block_max_bytes : ℕ
options_block_max_bytes = 64 * 1024

abbrev pub options_max : ℕ
options_max = 3

-- The reason that ParseOptions gives, by what it names; an option by its position from 1.
pub data BlockError : Type 0 where
  block_too_large : ℕ → BlockError
  not_json : BlockError
  too_many : ℕ → BlockError
  no_class figure_not_whole figure_negative saving_not_whole : ℕ → BlockError

-- centsOf, whose error is none
unfoldable pub cents_of : Text → Option Cents
cents_of n = if is_empty n then some (pos 0) else parse_int n

-- normalizedTarget, whose nil is the empty text
unfoldable pub normalized_target : Text → Text
normalized_target raw =
    if is_empty (trim_space raw) || text_eq (trim_space raw) (codes "null") then [] else raw

abbrev pub whole : BlockError → Option Cents → Result BlockError Cents
whole e none = err e
whole e (some v) = ok v

-- One turn of the loop, for the option at position i.
unfoldable pub read_option : ℕ → RawOption → Result BlockError OptionRow
read_option i r = do
  refuse_if (is_blank r.class) (no_class i)
  figure ← whole (figure_not_whole i) (cents_of r.figure_cents)
  refuse_if (ltb_ℤ figure (pos 0)) (figure_negative i)
  saving ← whole (saving_not_whole i) (cents_of r.saving_cents)
  ok (record {
    artifact = 0;
    ordinal = i;
    class = trim_space r.class;
    summary = r.summary;
    figure_cents = figure;
    saving_cents = saving;
    risk = r.risk;
    needs = r.needs;
    evidence = r.evidence;
    target = normalized_target r.target;
    state = opened;
    decided_by = [];
    decided_at = [];
    reason = [];
    on_behalf_of = [];
    behalf_reason = [];
  })

unfoldable pub read_options : ℕ → List RawOption → Result BlockError (List OptionRow)
read_options i [] = ok []
read_options i (r ∷ rs) = do o ← read_option i r; os ← read_options (suc i) rs; ok (o ∷ os)

-- `ok none` where no block is found
unfoldable pub parse_options :
    (Text → Option (List RawOption)) → Text → Result BlockError (Option (List OptionRow))
parse_options decode body = elim (options_fence body) [
  | none ↦ ok none
  | some raw ↦
      if ltb options_block_max_bytes (byte_length raw)
      then err (block_too_large (byte_length raw))
      else (elim (decode raw) [
        | none ↦ err not_json
        | some rs ↦
            if ltb options_max (length rs)
            then err (too_many (length rs))
            else (read_options 1 rs >>= λ os. ok (some os))
      ])
]
