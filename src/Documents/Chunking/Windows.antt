-- ===== src/Documents/Chunking/Windows.antt =====
-- A block that is longer than the window: the loop ends, and what it cuts gives back the block.
use nexora_ai.Prelude.{
  append_assoc, append_nil, take, ℕ, zero, suc, ◌+◌, ◌-◌, ◌≤◌, ◌<◌, ◌≡◌, refl, sym, ap, ◌∙◌, true,
  Option, List, [], ◌∷◌, ◌++◌, ◌==◌, ltb, arith, length, Bool-cases, inl, inr,
}
use nexora_ai.Documents.Chunking.{Text, drop, Chunk, rest_of, split_windows}

module _ {ℓ} {A : Type ℓ} where
  pub length-append : (xs ys : List A) → length (xs ++ ys) ≡ length xs + length ys
  length-append [] ys = omega arith
  length-append (x ∷ xs) ys = rw (length-append xs ys) (omega arith)

  pub length-take : (n : ℕ) (xs : List A) → n ≤ length xs → length (take n xs) ≡ n
  length-take zero xs h = refl
  length-take (suc n) [] h = absurd (omega arith)
  length-take (suc n) (x ∷ xs) h = rw (length-take n xs (omega arith)) refl

  pub length-drop : (n : ℕ) (xs : List A) → length (drop n xs) ≡ length xs - n
  length-drop zero xs = omega arith
  length-drop (suc n) [] = omega arith
  length-drop (suc n) (x ∷ xs) = rw (length-drop n xs) (omega arith)

  take-take : (n m : ℕ) (xs : List A) → n ≤ m → take n (take m xs) ≡ take n xs
  take-take zero m xs h = refl
  take-take (suc n) zero xs h = absurd (omega arith)
  take-take (suc n) (suc m) [] h = refl
  take-take (suc n) (suc m) (x ∷ xs) h = ap (λ r. x ∷ r) (take-take n m xs (omega arith))

  take-drop : (n : ℕ) (xs : List A) → take n xs ++ drop n xs ≡ xs
  take-drop zero xs = refl
  take-drop (suc n) [] = refl
  take-drop (suc n) (x ∷ xs) = ap (λ r. x ∷ r) (take-drop n xs)

-- The windows put together again, each without its overlap with what follows, and the rest.
abbrev pub rejoin : ℕ → List Chunk → Text → Text
rejoin overlap [] rest = rest
rejoin overlap (c ∷ cs) rest = take (length c.content - overlap) c.content ++ rejoin overlap cs rest

module _ (size overlap : ℕ) (less : overlap < size) where
  rest_of_lem : (block : Text) → rest_of size overlap block ≡ drop (size - overlap) block
  rest_of_lem block = elim (Bool-cases (overlap == 0)) [
    | inl e ↦ let same : size ≡ size - overlap = ground arith in rw e (ap (λ n. drop n block) same)
    | inr e ↦ rw e refl
  ]

  -- A round shortens the block, and leaves something of it.
  pub length-rest_of :
      (block : Text)
      → ltb size (length block) ≡ true
      → (length (rest_of size overlap block) < length block)
        × (0 < length (rest_of size overlap block))
  length-rest_of block e =
      let after = ap length (rest_of_lem block) ∙ length-drop (size - overlap) block in
      let longer : size < length block = ground arith in (omega arith, omega arith)

  pub split_windows-rest :
      (n : ℕ) (page : Option ℕ) (h : Option Text) (block : Text) (cs : List Chunk)
      → length block ≤ n
      → length (split_windows size overlap n page h block cs).1 ≤ size
  unfolding split_windows
  split_windows-rest zero page h block cs fuel = omega arith
  split_windows-rest (suc n) page h block cs fuel = elim (Bool-cases (ltb size (length block))) [
    | inl e ↦
        let shorter = length-rest_of block e in
        rw (e, split_windows) (split_windows-rest n page h _ _ (omega arith))
    | inr e ↦ rw (e, split_windows) (ground arith)
  ]

  more_rounds :
      (n k : ℕ) (page : Option ℕ) (h : Option Text) (block : Text) (cs : List Chunk)
      → length block ≤ n
      → n ≤ k
      → split_windows size overlap k page h block cs ≡ split_windows size overlap n page h block cs
  unfolding split_windows
  more_rounds zero zero page h block cs fuel le = refl
  more_rounds (suc n) zero page h block cs fuel le = absurd (omega arith)
  more_rounds zero (suc k) page h block cs fuel le = elim (Bool-cases (ltb size (length block))) [
    | inl e ↦ absurd (ground arith)
    | inr e ↦ rw (e, split_windows) refl
  ]
  more_rounds (suc n) (suc k) page h block cs fuel le =
      elim (Bool-cases (ltb size (length block))) [
        | inl e ↦
            let shorter = length-rest_of block e in
            rw (e, split_windows)
              (more_rounds n k page h (rest_of size overlap block) _ (omega arith) (omega arith))
        | inr e ↦ rw (e, split_windows) refl
      ]

  -- The loop over the windows ends: for an overlap below the size, as many rounds as the block is
  -- long leave a rest that fits the window, and any more rounds give the same.
  pub split_windows_ends :
      (n : ℕ) (page : Option ℕ) (h : Option Text) (block : Text) (cs : List Chunk)
      → length block ≤ n
      → (length (split_windows size overlap (length block) page h block cs).1 ≤ size)
        × (split_windows size overlap n page h block cs
            ≡ split_windows size overlap (length block) page h block cs)
  split_windows_ends n page h block cs le = (
    split_windows-rest (length block) page h block cs (omega arith),
    more_rounds (length block) n page h block cs (omega arith) le,
  )

  -- The chunks that are new, put together again with the rest.
  IsRejoined : List Chunk → Text → List Chunk × Text → Type 0
  IsRejoined cs block out =
      (new : List Chunk) × (out.0 ≡ cs ++ new) × (rejoin overlap new out.1 ≡ block)

  split_windows-IsRejoined :
      (n : ℕ) (page : Option ℕ) (h : Option Text) (block : Text) (cs : List Chunk)
      → IsRejoined cs block (split_windows size overlap n page h block cs)
  unfolding split_windows IsRejoined
  split_windows-IsRejoined zero page h block cs = ([], sym (append_nil cs), refl)
  split_windows-IsRejoined (suc n) page h block cs = elim (Bool-cases (ltb size (length block))) [
    | inl e ↦
        let c : Chunk = record {
          index = length cs;
          content = take size block;
          page = page;
          heading = h;
        } in
        let (new, listed, again) =
          split_windows-IsRejoined n page h (rest_of size overlap block) (cs ++ c ∷ []) in
        let whole : length (take size block) ≡ size = length-take size block (ground arith) in
        let front : take (length (take size block) - overlap) (take size block)
            ≡ take (size - overlap) block =
          ap (λ k. take (k - overlap) (take size block)) whole
          ∙ take-take (size - overlap) size block (omega arith) in
        rw (e, split_windows)
          (
            c ∷ new,
            listed ∙ append_assoc cs (c ∷ []) new,
            ap (λ r. take (length (take size block) - overlap) (take size block) ++ r)
                  (again ∙ rest_of_lem block)
                ∙ ap (λ r. r ++ drop (size - overlap) block) front
                ∙ take-drop (size - overlap) block,
          )
    | inr e ↦ rw (e, split_windows) ([], sym (append_nil cs), refl)
  ]

  -- Nothing of a block is lost between the windows: for an overlap below the size, the windows, each
  -- without the overlap at its end, followed by the rest, are the block.
  pub split_windows_rejoined :
      (n : ℕ) (page : Option ℕ) (h : Option Text) (block : Text)
      → let (windows, rest) = split_windows size overlap n page h block [] in
        rejoin overlap windows rest ≡ block
  unfolding IsRejoined
  split_windows_rejoined n page h block =
      let (new, listed, again) = split_windows-IsRejoined n page h block [] in
      ap (λ cs. rejoin overlap cs (split_windows size overlap n page h block []).1) listed ∙ again
