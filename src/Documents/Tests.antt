-- ===== src/Documents/Tests.antt =====
-- The theorems on chunks at a page of two paragraphs, a window of five characters and an overlap of
-- two.
use nexora_ai.Prelude.{
  ℕ, ◌≤◌, ◌≡◌, refl, Bool, false, ◌||◌, none, some, List, [], ◌∷◌, ◌++◌, ◌==◌, arith, length,
}
use nexora_ai.Session.{ok}
use nexora_ai.Documents.Chunking.{
  Text, Page, Chunk, strip_left, strip_right, strip_of, split_windows, joined, overflow_with,
  heading_of, add_block, add_blocks, blocks_of, close_page, add_page, add_pages, chunk_pages,
}
use nexora_ai.Documents.Chunking.Bounds.{IsCut, chunk_pages-IsCut}
use nexora_ai.Documents.Chunking.Windows.{rejoin, split_windows_ends, split_windows_rejoined}

abbrev is_space : ℕ → Bool
is_space c = c == 32 || c == 10

-- `hello`, and `# abc`, a title.
abbrev hello : Text
hello = 104 ∷ 101 ∷ 108 ∷ 108 ∷ 111 ∷ []

abbrev title : Text
title = 35 ∷ 32 ∷ 97 ∷ 98 ∷ 99 ∷ []

abbrev paragraphs : Text → List Text
paragraphs t = hello ∷ title ∷ []

abbrev first_line : Text → Text
first_line t = t

abbrev is_title : Text → Bool
is_title [] = false
is_title (c ∷ cs) = c == 35

abbrev pages : List Page
pages = record { number = some 1; text = hello ++ 10 ∷ 10 ∷ title } ∷ []

chunk_pages-IsCut_example :
    (cs : List Chunk) × (chunk_pages is_space paragraphs first_line is_title 5 2 pages ≡ ok cs)
    × IsCut 5 2 cs
chunk_pages-IsCut_example =
    chunk_pages-IsCut is_space paragraphs first_line is_title 5 2 (omega arith) pages

-- The second chunk has nine characters, `lo`, a blank line and the title; and the first, which has
-- no title, carries the title of the second.
two_chunks :
    chunk_pages is_space paragraphs first_line is_title 5 2 pages
    ≡ ok (
        record { index = 0; content = hello; page = some 1; heading = some (97 ∷ 98 ∷ 99 ∷ []) }
        ∷ record {
          index = 1;
          content = 108 ∷ 111 ∷ 10 ∷ 10 ∷ title;
          page = some 1;
          heading = some (97 ∷ 98 ∷ 99 ∷ []);
        }
        ∷ [])
unfolding chunk_pages add_pages add_page add_blocks add_block blocks_of close_page heading_of
    overflow_with split_windows joined strip_of strip_left strip_right
two_chunks = refl

abbrev long : Text
long = hello ++ hello ++ hello

split_windows_ends_example :
    (length (split_windows 5 2 (length long) none none long []).1 ≤ 5)
    × (split_windows 5 2 20 none none long [] ≡ split_windows 5 2 (length long) none none long [])
split_windows_ends_example = split_windows_ends 5 2 (omega arith) 20 none none long [] (omega arith)

split_windows_rejoined_example :
    let (windows, rest) = split_windows 5 2 15 none none long [] in rejoin 2 windows rest ≡ long
split_windows_rejoined_example = split_windows_rejoined 5 2 (omega arith) 15 none none long
