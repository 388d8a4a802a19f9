-- ===== src/Crew/Options/Fence.antt =====
-- optionsFence of internal/crew/options.go: the first match of
-- ```options[ \t]*\r?\n(.*?)``` in a text, where the dot matches every character. Each part of the
-- pattern matches in one way, and the lazy part stops at the first three backquotes.
use costcrew.Base.{
  ◌≡◌, refl, ℕ, ◌||◌, Option, none, some, [], ◌∷◌, ◌++◌, Text, codes, if◌then◌else◌, ◌==◌, false,
  All,
}

-- What follows a literal prefix.
unfoldable pub after_prefix : Text → Text → Option Text
after_prefix [] s = some s
after_prefix (c ∷ p) [] = none
after_prefix (c ∷ p) (d ∷ s) = let rest = after_prefix p s in if d == c then rest else none

-- [ \t]*
unfoldable pub skip_blanks : Text → Text
skip_blanks [] = []
skip_blanks (c ∷ s) = let rest = skip_blanks s in if c == b' ' || c == b'\t' then rest else c ∷ s

-- \r?\n
unfoldable pub after_newline : Text → Option Text
after_newline [] = none
after_newline (c ∷ s) =
    if c == b'\n' then some s else if c == b'\r' then after_prefix (b'\n' ∷ []) s else none

abbrev pub ticks : Text
ticks = codes "```"

-- (.*?)```
unfoldable pub until_ticks : Text → Option Text
until_ticks [] = none
until_ticks (c ∷ s) =
    let rest = until_ticks s in
    elim (after_prefix ticks (c ∷ s)) [
      | some _ ↦ some []
      | none ↦ (elim rest [ none ↦ none | some r ↦ some (c ∷ r) ])
    ]

-- A match that starts here.
unfoldable pub match_here : Text → Option Text
match_here s = elim (after_prefix (codes "```options") s) [
  | none ↦ none
  | some r ↦ (elim (after_newline (skip_blanks r)) [ none ↦ none | some body ↦ until_ticks body ])
]

unfoldable pub options_fence : Text → Option Text
options_fence [] = none
options_fence (c ∷ s) =
    let rest = options_fence s in
    elim (match_here (c ∷ s)) [ some block ↦ some block | none ↦ rest ]

-- A text without backquotes.
abbrev pub IsPlain : Text → Type 0
IsPlain = All (λ c. (c == b'`') ≡ false)

until_ticks-append : (s rest : Text) → IsPlain s → until_ticks (s ++ ticks ++ rest) ≡ some s
unfolding until_ticks after_prefix
until_ticks-append [] rest h = refl
until_ticks-append (c ∷ s) rest h = rw (until_ticks, h.0, until_ticks-append s rest h.1) refl

match_here-first :
    (block rest : Text)
    → All (λ c. (c == b'`') ≡ false) block
    → match_here (codes "```options\n" ++ block ++ ticks ++ rest) ≡ some block
unfolding match_here after_newline skip_blanks after_prefix
match_here-first block rest plain = until_ticks-append block rest plain

options_fence-here :
    (c : ℕ) (s : Text) {block : Text}
    → match_here (c ∷ s) ≡ some block
    → options_fence (c ∷ s) ≡ some block
unfolding options_fence
options_fence-here c s h = rw (options_fence, h) refl

-- A deliverable that starts with a block is read as that block, whatever follows it, another block
-- included, if the block has no backquote in it.
pub options_fence-first :
    (block rest : Text)
    → All (λ c. (c == b'`') ≡ false) block
    → options_fence (codes "```options\n" ++ block ++ ticks ++ rest) ≡ some block
options_fence-first block rest plain = options_fence-here _ _ (match_here-first block rest plain)
