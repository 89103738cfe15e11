-- ===== src/Documents/Chunking/Bounds.antt =====
-- What every chunk of a document is: not empty, bounded, and in its place.
use nexora_ai.Prelude.{
  take, ℕ, zero, suc, ◌+◌, ◌-◌, ◌≤◌, ◌<◌, ◌≡◌, refl, Bool, false, Option, none, List, [], ◌∷◌, ◌++◌,
  ltb, leb, arith, length, is_empty, Bool-cases, inl, inr, All, All-append,
}
use nexora_ai.Session.{ok}
use nexora_ai.Documents.Chunking.{
  add_block, add_blocks, close_page, add_page, add_pages, chunk_pages, blocks_of, Chunk, Cut, Page,
  Text, add_chunk, blank_line, flushed, joined, kept_tail, overflow_with, rest_of, split_windows,
  strip_left, strip_of, strip_right,
}
use nexora_ai.Documents.Chunking.Windows.{
  length-append, length-take, length-drop, split_windows-rest,
}

-- A chunk's index is the number of the chunks before it.
abbrev pub Numbered : ℕ → List Chunk → Type 0
Numbered n [] = Unit
Numbered n (c ∷ cs) = (c.index ≡ n) × Numbered (n + 1) cs

Numbered-append :
    (n : ℕ) (cs : List Chunk) (c : Chunk)
    → c.index ≡ n + length cs
    → Numbered n cs
    → Numbered n (cs ++ c ∷ [])
Numbered-append n [] c e h = (omega (arith, e), tt)
Numbered-append n (d ∷ cs) c e h = (h.0, Numbered-append (n + 1) cs c (omega (arith, e)) h.1)

not_empty : (t : Text) → is_empty t ≡ false → 0 < length t
not_empty [] e = cc
not_empty (c ∷ cs) e = omega arith

strip_left_lem : (test : ℕ → Bool) (t : Text) → length (strip_left test t) ≤ length t
unfolding strip_left
strip_left_lem test [] = omega arith
strip_left_lem test (c ∷ cs) = ground (arith, strip_left_lem test cs)

strip_right_lem : (test : ℕ → Bool) (t : Text) → length (strip_right test t) ≤ length t
unfolding strip_right
strip_right_lem test [] = omega arith
strip_right_lem test (c ∷ cs) = ground (arith, strip_right_lem test cs)

strip_of_lem : (test : ℕ → Bool) (t : Text) → length (strip_of test t) ≤ length t
unfolding strip_of
strip_of_lem test t =
    let a = strip_right_lem test (strip_left test t) in let b = strip_left_lem test t in omega arith

module _ (size overlap : ℕ) where
  -- Not empty, and longer than the size by the overlap and a blank line at most.
  abbrev pub Fits : Chunk → Type 0
  Fits c = (0 < length c.content) × (length c.content ≤ size + overlap + 2)

  pub record IsCut (cs : List Chunk) : Type 0 where
    pub fits : All Fits cs
    pub numbered : Numbered 0 cs

  add_chunk-IsCut :
      (page : Option ℕ) (h : Option Text) (content : Text) (cs : List Chunk)
      → 0 < length content
      → length content ≤ size + overlap + 2
      → IsCut cs
      → IsCut (add_chunk page h content cs)
  add_chunk-IsCut page h content cs low high k = record {
    fits = All-append Fits cs _ k.fits ((low, high), tt);
    numbered = Numbered-append 0 cs _ (omega arith) k.numbered;
  }

  module _ (less : overlap < size) where
    split_windows-IsCut :
        (n : ℕ) (page : Option ℕ) (h : Option Text) (block : Text) (cs : List Chunk)
        → IsCut cs
        → IsCut (split_windows size overlap n page h block cs).0
    unfolding split_windows
    split_windows-IsCut zero page h block cs k = k
    split_windows-IsCut (suc n) page h block cs k = elim (Bool-cases (ltb size (length block))) [
      | inl e ↦
          let whole = length-take size block (ground arith) in
          rw (e, split_windows)
            (split_windows-IsCut n page h (rest_of size overlap block) _
              (add_chunk-IsCut page h (take size block) cs (omega arith) (omega arith) k))
      | inr e ↦ rw (e, split_windows) k
    ]

    joined_lem :
        (is_space : ℕ → Bool) (buffer block : Text)
        → length (joined is_space buffer block) ≤ length buffer + 2 + length block
    unfolding joined
    joined_lem is_space buffer block = elim (Bool-cases (is_empty buffer)) [
      | inl e ↦ rw e (omega arith)
      | inr e ↦
          let a = strip_of_lem is_space (buffer ++ blank_line ++ block) in
          let b = length-append (buffer ++ blank_line) block in
          let c = length-append buffer blank_line in
          let bound : length (strip_of is_space (buffer ++ blank_line ++ block))
              ≤ length buffer + 2 + length block =
            omega arith in
          rw e bound
    ]

    kept_tail_lem : (buffer : Text) → length (kept_tail size overlap buffer) ≤ overlap
    kept_tail_lem buffer = let a = length-drop (length buffer - overlap) buffer in ground arith

    -- What is cut so far, with a buffer that may be flushed.
    record IsSoFar (s : Cut) : Type 0 where
      cut : IsCut s.chunks
      bound : length s.buffer ≤ size + overlap + 2

    flushed-IsCut :
        (page : Option ℕ) (h : Option Text) (s : Cut) → IsSoFar s → IsCut (flushed page h s)
    flushed-IsCut page h s k = elim (Bool-cases (is_empty s.buffer)) [
      | inl e ↦ rw e k.cut
      | inr e ↦ rw e (add_chunk-IsCut page h s.buffer s.chunks (not_empty s.buffer e) k.bound k.cut)
    ]

    overflow-IsSoFar :
        (is_space : ℕ → Bool) (page : Option ℕ) (h : Option Text) (block : Text) (s : Cut)
        → IsSoFar s
        → IsSoFar (overflow_with is_space size overlap page h block s)
    unfolding overflow_with
    overflow-IsSoFar is_space page h block s k =
        let cs = flushed page h s in
        let out = split_windows size overlap (length block) page h block cs in
        let rest =
          split_windows-rest size overlap less (length block) page h block cs (omega arith) in
        let tail = kept_tail_lem s.buffer in
        let next = joined_lem is_space (kept_tail size overlap s.buffer) out.1 in
        record {
          cut = split_windows-IsCut (length block) page h block cs (flushed-IsCut page h s k);
          bound = omega arith;
        }

module _ (is_space : ℕ → Bool) (paragraphs : Text → List Text) (first_line : Text → Text)
    (is_title : Text → Bool) (size overlap : ℕ) (less : overlap < size) where
  add_block-IsSoFar :
      (page : Option ℕ) (block : Text) (s : Cut)
      → IsSoFar size overlap less s
      → IsSoFar size overlap less
          (add_block is_space paragraphs first_line is_title size overlap page block s)
  unfolding add_block
  add_block-IsSoFar page block s k =
      elim (Bool-cases (leb (length (joined is_space s.buffer block)) size)) [
        | inl e ↦ rw e (record { cut = k.cut; bound = ground arith })
        | inr e ↦ rw e (overflow-IsSoFar size overlap less is_space page _ block s k)
      ]

  add_blocks-IsSoFar :
      (page : Option ℕ) (bs : List Text) (s : Cut)
      → IsSoFar size overlap less s
      → IsSoFar size overlap less
          (add_blocks is_space paragraphs first_line is_title size overlap page bs s)
  unfolding add_blocks
  add_blocks-IsSoFar page [] s k = k
  add_blocks-IsSoFar page (b ∷ bs) s k = add_blocks-IsSoFar page bs _ (add_block-IsSoFar page b s k)

  close_page-IsCut :
      (page : Option ℕ) (s : Cut)
      → IsSoFar size overlap less s
      → IsCut size overlap (close_page is_space page s)
  unfolding close_page
  close_page-IsCut page s k =
      let shorter = strip_of_lem is_space s.buffer in
      let bound = k.bound in
      elim (Bool-cases (is_empty (strip_of is_space s.buffer))) [
        | inl e ↦ rw e k.cut
        | inr e ↦ rw e (
            add_chunk-IsCut size overlap page s.heading (strip_of is_space s.buffer) s.chunks
              (not_empty (strip_of is_space s.buffer) e) (omega arith) k.cut)
      ]

  add_pages-IsCut :
      (ps : List Page) (cs : List Chunk)
      → IsCut size overlap cs
      → IsCut size overlap (add_pages is_space paragraphs first_line is_title size overlap ps cs)
  unfolding add_pages add_page
  add_pages-IsCut [] cs k = k
  add_pages-IsCut (p ∷ ps) cs k = add_pages-IsCut ps _ (
      close_page-IsCut p.number _ (
        add_blocks-IsSoFar p.number (blocks_of is_space paragraphs p.text)
          (record { chunks = cs; buffer = []; heading = none })
          (record { cut = k; bound = omega arith })))

  -- For an overlap below the size, `chunk_pages` returns, whatever the pages: no chunk is empty or
  -- longer than the size, the overlap and two characters together, and each has as its index the
  -- number of chunks before it.
  pub chunk_pages-IsCut :
      (pages : List Page)
      → (cs : List Chunk) × (chunk_pages is_space paragraphs first_line is_title size overlap pages
          ≡ ok cs)
        × IsCut size overlap cs
  unfolding chunk_pages
  chunk_pages-IsCut pages =
      let test : leb size overlap ≡ false = ground arith in
      (
        add_pages is_space paragraphs first_line is_title size overlap pages [],
        rw test refl,
        add_pages-IsCut pages [] (record { fits = tt; numbered = tt }),
      )
