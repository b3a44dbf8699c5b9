-- ===== src/Runtime/Memory/Tokens.antt =====
-- Words in texts, as runtime/memory.rs takes them: topics, keywords, slugs and sanitized lists. Whether
-- a character is alphanumeric is what Unicode says.
use Prim.Native.Char.{Char, code}
use liz.Prelude.{
  ℕ, ◌-◌, String, Bool, not, ◌&&◌, ◌||◌, Option, none, some, List, [], ◌∷◌, ◌++◌, ◌==◌, map, any,
  retain, take, length, sort_by, dedup, if◌then◌else◌, eqb, leb, ltb,
}
use liz.Text.{trim, is_empty, to_ascii_lowercase, join, text_le}
use liz.Text.Split.{split_by, byte_length}

abbrev pub stop_words : List String
stop_words =
    "the" ∷ "and" ∷ "that" ∷ "with" ∷ "from" ∷ "this" ∷ "have" ∷ "into" ∷ "your" ∷ "were" ∷ "while"
    ∷ "after" ∷ "before" ∷ "only" ∷ "just" ∷ "there" ∷ "their" ∷ "about" ∷ "would" ∷ "could"
    ∷ "should" ∷ "thread" ∷ "turn" ∷ "work" ∷ "task" ∷ "then" ∷ "when" ∷ "what" ∷ []

abbrev pub among : List String → String → Bool
among words s = any (λ word. word == s) words

-- The loop that takes the trimmed values which are not blank and not taken yet, in any case of the
-- letters, until `left` are taken.
unfoldable pub sanitize_from : List String → ℕ → List String → List String
unfolding trim to_ascii_lowercase any
sanitize_from seen left [] = []
sanitize_from seen left (value ∷ values) =
    let trimmed = trim value in
    let lower = to_ascii_lowercase trimmed in
    let skipped = sanitize_from seen left values in
    let more = sanitize_from (lower ∷ seen) (left - 1) values in
    if is_empty trimmed || among seen lower
    then skipped
    else if eqb left 1
    then trimmed ∷ []
    else trimmed ∷ more

unfoldable pub sanitize_string_list : List String → ℕ → List String
unfolding sanitize_from
sanitize_string_list values limit = sanitize_from [] limit values

unfoldable pub prefer_sanitized_list : List String → List String → ℕ → List String
unfolding sanitize_string_list
prefer_sanitized_list values fallback limit = elim (sanitize_string_list values limit) [
  | [] ↦ fallback
  | value ∷ rest ↦ value ∷ rest
]

unfoldable pub sanitize_optional_string : Option String → Option String
unfolding trim
sanitize_optional_string none = none
sanitize_optional_string (some value) = if is_empty (trim value) then none else some (trim value)

-- The loop of `derive_topics_from_text` over the tokens, until `left` are taken.
unfoldable pub topics_from : List String → ℕ → List String → List String
unfolding byte_length any
topics_from seen left [] = []
topics_from seen left (token ∷ tokens) =
    let skipped = topics_from seen left tokens in
    let more = topics_from (token ∷ seen) (left - 1) tokens in
    if ltb (byte_length token) 4 || among seen token
    then skipped
    else if eqb left 1
    then token ∷ []
    else token ∷ more

-- A token and how often it occurs.
abbrev pub Count : Type 0
Count = String × ℕ

abbrev pub ranked_before : Count → Count → Bool
ranked_before left right = ltb right.1 left.1 || (eqb right.1 left.1 && text_le left.0 right.0)

abbrev pub count_in : List String → String → Count
count_in tokens token = (token, length (retain (λ t. t == token) tokens))

-- A BTreeMap of counts is read in the order of the tokens.
unfoldable pub keywords_from : ℕ → List String → List String
unfolding sort_by dedup retain
keywords_from limit tokens =
    let counts = map (count_in tokens) (dedup (λ a b. a == b) (sort_by text_le tokens)) in
    map (λ (count : Count). count.0) (take limit (sort_by ranked_before counts))

abbrev pub concat : List (List String) → List String
concat [] = []
concat (xs ∷ rest) = xs ++ concat rest

module _ (is_alphanumeric : Char → Bool) where
  unfoldable pub normalize_tokens : String → List String
  unfolding split_by to_ascii_lowercase byte_length retain any
  normalize_tokens text =
      retain (λ token. leb 3 (byte_length token) && not (among stop_words token))
        (map to_ascii_lowercase
          (split_by (λ c. not (is_alphanumeric c) && not (eqb (code c) 95)) text))

  unfoldable pub derive_topics_from_text : List String → ℕ → List String
  unfolding normalize_tokens topics_from
  derive_topics_from_text texts limit = topics_from [] limit (concat (map normalize_tokens texts))

  unfoldable pub derive_keywords_from_text : List String → ℕ → List String
  unfolding normalize_tokens keywords_from
  derive_keywords_from_text texts limit = keywords_from limit (concat (map normalize_tokens texts))

  unfoldable pub slugify : String → String
  unfolding normalize_tokens join
  slugify text = elim (normalize_tokens text) [
    | [] ↦ "item"
    | token ∷ tokens ↦ join "_" (take 6 (token ∷ tokens))
  ]
