-- ===== src/Accounting/Reports/Ledger/Sums.antt =====
-- Sums over the lines that `general_ledger` reads: in any order, and before and in a window.
use mathlib.Core.Path.{ap₂}
use nexora_ai.Prelude.{
  ℕ, ◌≤◌, ◌≡◌, ◌⊎◌, refl, sym, ap, ◌∙◌, Bool, true, false, ◌&&◌, Option, none, some, List, [], ◌∷◌,
  ◌==◌, leb, arith, if◌then◌else◌, first, select_where, sort_by, insert_by, Bool-cases, inl, inr,
}
use nexora_ai.Prelude.Int.{ℤ, pos, ◌+ℤ◌, ◌-ℤ◌, total, int_laws, +ℤ_zero, zero_+ℤ}
use nexora_ai.Session.{Uuid, Date}
use nexora_ai.Accounting.Model.{Account, JournalEntry, JournalEntryLine}
use nexora_ai.Accounting.Reports.{in_window, line_in_window, lines_on}
use nexora_ai.Accounting.Reports.Ledger.{Joined, joined_lines, net_movement, is_before}

+ℤ_left_comm : (a b c : ℤ) → a +ℤ (b +ℤ c) ≡ b +ℤ (a +ℤ c)
+ℤ_left_comm a b c = omega int_laws

module _ {ℓ} {A : Type ℓ} (key : A → ℕ) (f : A → ℤ) where
  total-insert_by : (x : A) (xs : List A) → total f (insert_by key x xs) ≡ f x +ℤ total f xs
  total-insert_by x [] = refl
  total-insert_by x (y ∷ ys) = elim (Bool-cases (leb (key x) (key y))) [
    | inl e ↦ rw e refl
    | inr e ↦ rw (e, total-insert_by x ys) (+ℤ_left_comm (f y) (f x) (total f ys))
  ]

  pub total-sort_by : (xs : List A) → total f (sort_by key xs) ≡ total f xs
  total-sort_by [] = refl
  total-sort_by (x ∷ xs) =
      total-insert_by x (sort_by key xs) ∙ ap (λ t. f x +ℤ t) (total-sort_by xs)

-- A line that is before the window or in it, and not in both, is in the window from the beginning.
split_dates :
    (start end : Date) (e : JournalEntry)
    → start ≤ end
    → ((is_before start e ≡ true) × (in_window start end e ≡ false) × (in_window 0 end e ≡ true))
      ⊎ ((is_before start e ≡ false) × (in_window start end e ≡ in_window 0 end e))
split_dates start end e h = elim (Bool-cases (is_before start e)) [
  | inl k ↦ inl (k, ground arith, ground arith)
  | inr k ↦ inr (k, ground arith)
]

-- What one line adds to the sum over the joined lines.
abbrev added : Uuid → (JournalEntry → Bool) → Option JournalEntry → JournalEntryLine → ℤ
added i test none l = pos 0
added i test (some e) l = if i == l.account_id && test e then l.debit -ℤ l.credit else pos 0

module _ (i : Uuid) (test : JournalEntry → Bool) (entries : List JournalEntry) where
  joined_cons :
      (l : JournalEntryLine) (ls : List JournalEntryLine)
      → total net_movement (joined_lines i test entries (l ∷ ls))
        ≡ added i test (first (λ e. l.journal_entry_id == e.id) entries) l
          +ℤ total net_movement (joined_lines i test entries ls)
  joined_cons l ls = go (first (λ e. l.journal_entry_id == e.id) entries)
    where
      rest : List Joined
      rest = joined_lines i test entries ls

      go :
          (o : Option JournalEntry)
          → total net_movement (elim o [
            | none ↦ joined_lines i test entries ls
            | some e ↦
                if i == l.account_id && test e
                then (e, l) ∷ joined_lines i test entries ls
                else joined_lines i test entries ls
          ])
            ≡ added i test o l +ℤ total net_movement (joined_lines i test entries ls)
      go none = sym (zero_+ℤ _)
      go (some e) = elim (Bool-cases (i == l.account_id && test e)) [
        | inl k ↦ rw k refl
        | inr k ↦ rw k (sym (zero_+ℤ _))
      ]

added_split :
    (i : Uuid) (start end : Date) (o : Option JournalEntry) (l : JournalEntryLine)
    → start ≤ end
    → added i (is_before start) o l +ℤ added i (in_window start end) o l
      ≡ added i (in_window 0 end) o l
added_split i start end none l h = omega int_laws
added_split i start end (some e) l h = elim (Bool-cases (i == l.account_id)) [
  | inl k ↦ elim (split_dates start end e h) [
    | inl (x, y, z) ↦ rw (k, x, y, z) (+ℤ_zero _)
    | inr (x, y) ↦ rw (k, x, y) (zero_+ℤ _)
  ]
  | inr k ↦ rw k (omega int_laws)
]

four_parts : (a b c d : ℤ) → (a +ℤ b) +ℤ (c +ℤ d) ≡ (a +ℤ c) +ℤ (b +ℤ d)
four_parts a b c d = omega int_laws

module _ (i : Uuid) (start end : Date) (h : start ≤ end) (entries : List JournalEntry) where
  pub joined_split :
      (ls : List JournalEntryLine)
      → total net_movement (joined_lines i (is_before start) entries ls)
          +ℤ total net_movement (joined_lines i (in_window start end) entries ls)
        ≡ total net_movement (joined_lines i (in_window 0 end) entries ls)
  joined_split [] = omega int_laws
  joined_split (l ∷ ls) =
      let o = first (λ e. l.journal_entry_id == e.id) entries in
      ap₂ (λ x y. x +ℤ y) (joined_cons i (is_before start) entries l ls)
        (joined_cons i (in_window start end) entries l ls)
      ∙ four_parts (added i (is_before start) o l) _ (added i (in_window start end) o l) _
      ∙ ap₂ (λ x y. x +ℤ y) (added_split i start end o l h) (joined_split ls)
      ∙ sym (joined_cons i (in_window 0 end) entries l ls)

-- The same sum from the lines that the trial balance groups.
module _ (a : Account) (end : Date) (entries : List JournalEntry) where
  abbrev pub chosen : List JournalEntryLine → List JournalEntryLine
  chosen ls = lines_on a (select_where (line_in_window 0 end entries) ls)

  chosen_cons :
      (f : JournalEntryLine → ℤ) (l : JournalEntryLine) (ls : List JournalEntryLine)
      → total f (chosen (l ∷ ls))
        ≡ (if a.id == l.account_id && line_in_window 0 end entries l then f l else pos 0)
          +ℤ total f (chosen ls)
  chosen_cons f l ls = elim (Bool-cases (line_in_window 0 end entries l)) [
    | inl k ↦ elim (Bool-cases (a.id == l.account_id)) [
      | inl m ↦ rw (k, m) refl
      | inr m ↦ rw (k, m) (sym (zero_+ℤ _))
    ]
    | inr k ↦ rw k (ground (arith, sym (zero_+ℤ (total f (chosen ls)))))
  ]

  added_lem :
      (l : JournalEntryLine) (o : Option JournalEntry)
      → added a.id (in_window 0 end) o l ≡ (
          if a.id == l.account_id && elim o [ none ↦ false | some e ↦ in_window 0 end e ]
          then l.debit -ℤ l.credit
          else pos 0)
  added_lem l none = ground arith
  added_lem l (some e) = refl

  difference :
      (c : Bool) (d k x y : ℤ)
      → (if c then d -ℤ k else pos 0) +ℤ (x -ℤ y)
        ≡ (if c then d else pos 0) +ℤ x -ℤ ((if c then k else pos 0) +ℤ y)
  difference true d k x y = omega int_laws
  difference false d k x y = omega int_laws

  pub joined_total :
      (ls : List JournalEntryLine)
      → total net_movement (joined_lines a.id (in_window 0 end) entries ls)
        ≡ total (λ l. l.debit) (chosen ls) -ℤ total (λ l. l.credit) (chosen ls)
  joined_total [] = omega int_laws
  joined_total (l ∷ ls) =
      joined_cons a.id (in_window 0 end) entries l ls
      ∙ ap₂ (λ x y. x +ℤ y) (added_lem l (first (λ e. l.journal_entry_id == e.id) entries))
          (joined_total ls)
      ∙ difference (a.id == l.account_id && line_in_window 0 end entries l) l.debit l.credit
          (total (λ l. l.debit) (chosen ls)) (total (λ l. l.credit) (chosen ls))
      ∙ sym
          (ap₂ (λ x y. x -ℤ y) (chosen_cons (λ l. l.debit) l ls) (chosen_cons (λ l. l.credit) l ls))
