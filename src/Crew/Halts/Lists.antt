-- ===== src/Crew/Halts/Lists.antt =====
-- The names of a halt, as they are stored in one text and read back.
use costcrew.Base.{
  split, ◌≡◌, refl, ◌∙◌, ap, true, false, List, [], ◌∷◌, ◌++◌, Text, codes, text_eq, if◌then◌else◌,
  is_empty, is_blank, trim_space, trim_left, is_space, join, All, All-mono, All-append,
  append_assoc, ◌==◌, arith,
}
use costcrew.Base.Decimal.Laws.{trim_space_lem}
use costcrew.Crew.Roles.Defs.{mem_text}
use costcrew.Crew.Halts.Desk.{put_text, sort_texts, trimmed, split_list}

-- A name with neither a comma nor a space, and not empty, as nameOK asks for.
abbrev pub IsName : Text → Type 0
IsName s = (is_empty s ≡ false) × All (λ c. ((c == b',') ≡ false) × (is_space c ≡ false)) s

mem_text-put : (n s : Text) (ts : List Text) → mem_text n (put_text s ts) ≡ mem_text n (s ∷ ts)
unfolding mem_text put_text
mem_text-put n s [] = refl
mem_text-put n s (t ∷ ts) = ground (arith, mem_text-put n s ts)

mem_text-sort : (n : Text) (ts : List Text) → mem_text n (sort_texts ts) ≡ mem_text n ts
unfolding mem_text sort_texts
mem_text-sort n [] = refl
mem_text-sort n (t ∷ ts) =
    mem_text-put n t (sort_texts ts)
    ∙ ap (λ b. if text_eq t n then true else b) (mem_text-sort n ts)

trim-IsName : (s : Text) → IsName s → trim_space s ≡ s
trim-IsName s h = trim_space_lem s (All-mono _ _ (λ c k. k.1) s h.1)

trimmed-names : (ts : List Text) → All IsName ts → trimmed ts ≡ ts
unfolding trimmed
trimmed-names [] h = refl
trimmed-names (t ∷ ts) h = rw (trim-IsName t h.0, h.0.0, trimmed-names ts h.1) refl

split-IsName :
    (s t : Text)
    → All (λ c. ((c == b',') ≡ false) × (is_space c ≡ false)) s
    → split b',' (s ++ b',' ∷ t) ≡ s ∷ split b',' t
unfolding split
split-IsName [] t h = refl
split-IsName (c ∷ s) t h = rw (h.0.0, split-IsName s t h.1) refl

split-last :
    (s : Text) → All (λ c. ((c == b',') ≡ false) × (is_space c ≡ false)) s → split b',' s ≡ s ∷ []
unfolding split
split-last [] h = refl
split-last (c ∷ s) h = rw (h.0.0, split-last s h.1) refl

split-join :
    (t : Text) (ts : List Text)
    → All IsName (t ∷ ts)
    → split b',' (join (codes ",") (t ∷ ts)) ≡ t ∷ ts
split-join t [] h = split-last t h.0.1
split-join t (u ∷ ts) h =
    ap (split b',') (append_assoc t (codes ",") (join (codes ",") (u ∷ ts)))
    ∙ split-IsName t (join (codes ",") (u ∷ ts)) h.0.1
    ∙ ap (λ l. t ∷ l) (split-join u ts h.1)

join-no_space :
    (ts : List Text) → All IsName ts → All (λ c. is_space c ≡ false) (join (codes ",") ts)
join-no_space [] h = tt
join-no_space (t ∷ []) h = All-mono _ _ (λ c k. k.1) t h.0.1
join-no_space (t ∷ u ∷ ts) h =
    All-append _ (t ++ codes ",") (join (codes ",") (u ∷ ts))
      (All-append _ t (codes ",") (All-mono _ _ (λ c k. k.1) t h.0.1) (refl, tt))
      (join-no_space (u ∷ ts) h.1)

join-nonempty :
    (t : Text) (ts : List Text) → is_empty t ≡ false → is_empty (join (codes ",") (t ∷ ts)) ≡ false
join-nonempty [] ts h = cc
join-nonempty (c ∷ t) [] h = refl
join-nonempty (c ∷ t) (u ∷ ts) h = refl

-- The names that are read back are those that were stored.
pub mem_text-split_list :
    (n : Text) (ts : List Text)
    → All IsName ts
    → mem_text n (split_list (join (codes ",") ts)) ≡ mem_text n ts
unfolding split_list is_blank trim_space trim_left mem_text
mem_text-split_list n [] h = refl
mem_text-split_list n (t ∷ ts) h =
    let joined : Text = join (codes ",") (t ∷ ts) in
    let filled : is_blank joined ≡ false =
      ap is_empty (trim_space_lem joined (join-no_space (t ∷ ts) h)) ∙ join-nonempty t ts h.0.0 in
    let read : split_list joined ≡ sort_texts (t ∷ ts) =
      ap (λ b. if b then [] else sort_texts (trimmed (split b',' joined))) filled
      ∙ ap (λ l. sort_texts (trimmed l)) (split-join t ts h)
      ∙ ap sort_texts (trimmed-names (t ∷ ts) h) in
    ap (mem_text n) read ∙ mem_text-sort n (t ∷ ts)
