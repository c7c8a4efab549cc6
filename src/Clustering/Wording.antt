-- ===== src/Clustering/Wording.antt =====
-- backend/app/clustering/engine.py: the words of a title and of an article's opening, and their
-- stems. What Unicode says of a character (`str.casefold`, the class of letters in `[^\W\d_]`) is
-- the parameter `Unicode`.
pub mod Stems
use newsintel.Prelude.{
  ℕ, zero, suc, ◌-◌, Bool, not, ◌&&◌, ◌||◌, List, [], ◌∷◌, ◌++◌, map, leb, ltb, ◌==◌, if◌then◌else◌,
  length, take, keep,
}
use newsintel.Prelude.Sets.{beq_list, contains, dedupe, word_eq}
use newsintel.Clustering.Features.{Word, lede_word_limit, term_minimum_length, term_maximum_length}

pub record Unicode : Type 0 where
  pub casefold : List ℕ → List ℕ
  pub is_letter : ℕ → Bool

-- `re.compile(p + "+").findall(text)`: the maximal runs of characters that pass the test. The first
-- argument is the run read so far.
unfoldable pub runs_from : (ℕ → Bool) → Word → List ℕ → List Word
runs_from p [] [] = []
runs_from p (c ∷ run) [] = (c ∷ run) ∷ []
runs_from p run (c ∷ text) =
    let grown = runs_from p (run ++ c ∷ []) text in
    let fresh = runs_from p [] text in
    if p c then grown else elim run [ [] ↦ fresh | d ∷ ds ↦ (d ∷ ds) ∷ fresh ]

unfoldable pub find_all : (ℕ → Bool) → List ℕ → List Word
unfolding runs_from
find_all p text = runs_from p [] text

-- `[0-9a-z]`
abbrev pub is_token : ℕ → Bool
is_token c = (leb b'0' c && leb c b'9') || (leb b'a' c && leb c b'z')

unfoldable pub title_tokens : Unicode → List ℕ → List Word → List Word
unfolding find_all
title_tokens u title stop_words =
    dedupe (keep (λ w. not (contains stop_words w)) (find_all is_token (u.casefold title)))

abbrev pub drop_to : ℕ → Word → Word
drop_to zero w = w
drop_to (suc n) [] = []
drop_to (suc n) (c ∷ w) = drop_to n w

-- `word.endswith(suffix)`
abbrev pub ends_with : Word → Word → Bool
ends_with w suffix =
    leb (length suffix) (length w) && beq_list (drop_to (length w - length suffix) w) suffix

-- `word[:-n]`
abbrev pub cut : ℕ → Word → Word
cut n w = take (length w - n) w

abbrev pub last_char : ℕ → Word → ℕ
last_char n w = elim (drop_to (length w - n) w) [ [] ↦ 0 | c ∷ _ ↦ c ]

-- The plural: "ies", "sses" and "s".
unfoldable pub strip_plural : Word → Word
strip_plural w =
    if ends_with w (b'i' ∷ b'e' ∷ b's' ∷ []) && ltb 4 (length w)
    then cut 3 w ++ b'y' ∷ []
    else if ends_with w (b's' ∷ b's' ∷ b'e' ∷ b's' ∷ [])
    then cut 2 w
    else if ends_with w (b's' ∷ [])
        && (not (
              ends_with w (b's' ∷ b's' ∷ [])
              || (ends_with w (b'u' ∷ b's' ∷ []) || ends_with w (b'i' ∷ b's' ∷ [])))
            && ltb 3 (length w))
    then cut 1 w
    else w

-- `word[-1] == word[-2] and word[-1] not in "lsz"`, for a word of more than three characters.
unfoldable pub undouble : Word → Word
undouble w =
    let c = last_char 1 w in
    if ltb 3 (length w) && (c == last_char 2 w && not (c == b'l' || (c == b's' || c == b'z')))
    then cut 1 w
    else w

-- The first of "ing" and "ed" that the word ends in, with three characters or more before it.
unfoldable pub strip_suffix : Word → Word
unfolding undouble
strip_suffix w =
    if ends_with w (b'i' ∷ b'n' ∷ b'g' ∷ []) && leb 3 (length w - 3)
    then undouble (cut 3 w)
    else if ends_with w (b'e' ∷ b'd' ∷ []) && leb 3 (length w - 2)
    then undouble (cut 2 w)
    else w

unfoldable pub strip_e : Word → Word
strip_e w = if ends_with w (b'e' ∷ []) && ltb 3 (length w) then cut 1 w else w

unfoldable pub stem : Word → Word
unfolding strip_plural strip_suffix strip_e
stem w = strip_e (strip_suffix (strip_plural w))

unfoldable pub lede_terms : Unicode → List ℕ → List Word → List Word
unfolding find_all stem
lede_terms u text stop_words =
    let words = take lede_word_limit (find_all u.is_letter (u.casefold text)) in
    dedupe (
      map (λ w. take term_maximum_length (stem w))
        (keep (λ w. leb term_minimum_length (length w) && not (contains stop_words w)) words))
