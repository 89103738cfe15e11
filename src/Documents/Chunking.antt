-- ===== src/Documents/Chunking.antt =====
-- `documents/chunking.py` from the text of the pages on. A text is its list of code points. What
-- the code leaves to regular expressions and to Unicode is a parameter: `is_space` the characters
-- that `strip` takes away, `paragraphs` the pieces of `re.split(r"\n\s*\n", …)`, and `first_line`
-- the first of `splitlines()` and `is_title` a match of `_HEADING`.
pub mod Bounds
pub mod Windows
use nexora_ai.Prelude.{
  take, ℕ, zero, suc, ◌-◌, Bool, true, false, ◌||◌, not, Option, none, some, List, [], ◌∷◌, ◌++◌,
  ◌==◌, ltb, leb, length, is_empty, select_where, map, if◌then◌else◌,
}
use nexora_ai.Session.{Result, ok, err, value_error}

abbrev pub Text : Type 0
Text = List ℕ

module _ {ℓ} {A : Type ℓ} where
  abbrev pub drop : ℕ → List A → List A
  drop zero xs = xs
  drop (suc n) [] = []
  drop (suc n) (x ∷ xs) = drop n xs

  -- `xs[-n:]`, for an n above zero.
  abbrev pub take_last : ℕ → List A → List A
  take_last n xs = drop (length xs - n) xs

pub record Page : Type 0 where
  pub number : Option ℕ
  pub text : Text

pub record Chunk : Type 0 where
  pub index : ℕ
  pub content : Text
  pub page : Option ℕ
  pub heading : Option Text

module _ (test : ℕ → Bool) where
  -- The text without the leading characters that pass the test, and without those at either end.
  unfoldable pub strip_left : Text → Text
  strip_left [] = []
  strip_left (c ∷ cs) = let rest = strip_left cs in if test c then rest else c ∷ cs

  unfoldable pub strip_right : Text → Text
  strip_right [] = []
  strip_right (c ∷ cs) =
      let rest = strip_right cs in
      if is_empty rest then (if test c then [] else c ∷ []) else c ∷ rest

  unfoldable pub strip_of : Text → Text
  unfolding strip_left strip_right
  strip_of t = strip_right (strip_left t)

-- `"# "`, and the blank line between two blocks.
abbrev pub is_mark : ℕ → Bool
is_mark c = c == 35 || c == 32

abbrev pub blank_line : Text
blank_line = 10 ∷ 10 ∷ []

-- What is cut so far: the chunks, the buffer and the heading.
pub record Cut : Type 0 where
  pub chunks : List Chunk
  pub buffer : Text
  pub heading : Option Text

-- A chunk appended; its index is the number of those before it.
abbrev pub add_chunk : Option ℕ → Option Text → Text → List Chunk → List Chunk
add_chunk page heading content cs =
    cs ++ record { index = length cs; content = content; page = page; heading = heading } ∷ []

module _ (size overlap : ℕ) where
  -- `block[size - overlap :] if overlap else block[size:]`
  abbrev pub rest_of : Text → Text
  rest_of block = if overlap == 0 then drop size block else drop (size - overlap) block

  -- `while len(block) > size`, in so many rounds at most.
  unfoldable pub split_windows : ℕ → Option ℕ → Option Text → Text → List Chunk → List Chunk × Text
  split_windows zero page heading block cs = (cs, block)
  split_windows (suc n) page heading block cs = elim (ltb size (length block)) [
    | true ↦
        split_windows n page heading (rest_of block) (add_chunk page heading (take size block) cs)
    | false ↦ (cs, block)
  ]

  abbrev pub kept_tail : Text → Text
  kept_tail buffer =
      if is_empty buffer then [] else if overlap == 0 then [] else take_last overlap buffer

abbrev pub flushed : Option ℕ → Option Text → Cut → List Chunk
flushed page heading s =
    if is_empty s.buffer then s.chunks else add_chunk page heading s.buffer s.chunks

-- `f"{buffer}\n\n{block}".strip() if buffer else block`
unfoldable pub joined : (ℕ → Bool) → Text → Text → Text
unfolding strip_of strip_left strip_right
joined is_space buffer block =
    if is_empty buffer then block else strip_of is_space (buffer ++ blank_line ++ block)

-- What does not fit is flushed, and the block is split on the window; each round shortens it, so its
-- length is enough rounds.
unfoldable pub overflow_with : (ℕ → Bool) → ℕ → ℕ → Option ℕ → Option Text → Text → Cut → Cut
unfolding split_windows joined
overflow_with is_space size overlap page heading block s =
    let (cs, rest) =
      split_windows size overlap (length block) page heading block (flushed page heading s) in
    record {
      chunks = cs;
      buffer = joined is_space (kept_tail size overlap s.buffer) rest;
      heading = heading;
    }

-- `[block.strip() for block in … if block.strip()]`
unfoldable pub blocks_of : (ℕ → Bool) → (Text → List Text) → Text → List Text
unfolding strip_of strip_left strip_right
blocks_of is_space paragraphs text =
    select_where (λ b. not (is_empty b)) (map (strip_of is_space) (paragraphs text))

-- What is left in the buffer at the end of a page.
unfoldable pub close_page : (ℕ → Bool) → Option ℕ → Cut → List Chunk
unfolding strip_of strip_left strip_right
close_page is_space page s =
    let last = strip_of is_space s.buffer in
    if is_empty last then s.chunks else add_chunk page s.heading last s.chunks

module _ (is_space : ℕ → Bool) (paragraphs : Text → List Text) (first_line : Text → Text)
    (is_title : Text → Bool) where
  -- `_heading_of`
  unfoldable pub heading_of : Text → Option Text
  unfolding strip_of strip_left strip_right
  heading_of block =
      let first =
        if is_empty (strip_of is_space block) then [] else first_line (strip_of is_space block) in
      if is_title first then some (take 500 (strip_of is_space (strip_of is_mark first))) else none

  abbrev pub or_else : Option Text → Option Text → Option Text
  or_else none h = h
  or_else (some []) h = h
  or_else (some (c ∷ cs)) h = some (c ∷ cs)

  module _ (size overlap : ℕ) where
    -- One round of the loop over the blocks.
    unfoldable pub add_block : Option ℕ → Text → Cut → Cut
    unfolding heading_of joined overflow_with
    add_block page block s =
        let heading = or_else (heading_of block) s.heading in
        let candidate = joined is_space s.buffer block in
        if leb (length candidate) size
        then record { chunks = s.chunks; buffer = candidate; heading = heading }
        else overflow_with is_space size overlap page heading block s

    unfoldable pub add_blocks : Option ℕ → List Text → Cut → Cut
    unfolding add_block
    add_blocks page [] s = s
    add_blocks page (b ∷ bs) s = add_blocks page bs (add_block page b s)

    unfoldable pub add_page : Page → List Chunk → List Chunk
    unfolding add_blocks blocks_of close_page
    add_page p cs = close_page is_space p.number (
        add_blocks p.number (blocks_of is_space paragraphs p.text)
          (record { chunks = cs; buffer = []; heading = none }))

    unfoldable pub add_pages : List Page → List Chunk → List Chunk
    unfolding add_page
    add_pages [] cs = cs
    add_pages (p ∷ ps) cs = add_pages ps (add_page p cs)

    unfoldable pub chunk_pages : List Page → Result (List Chunk)
    unfolding add_pages
    chunk_pages pages =
        if leb size overlap
        then err (value_error "overlap must be smaller than size")
        else ok (add_pages pages [])
