-- ===== src/Accounting/Post/Write.antt =====
-- What the tail of `post` has done to the books when it returns.
use nexora_ai.Prelude.{
  subst, ◌≡◌, ap, ◌∙◌, Bool, true, false, ◌||◌, List, [], ◌∷◌, ◌++◌, ◌==◌, ℕ, String, arith, All,
  any_of, update_where, Bool-cases, Option-cases, inl, inr,
}
use nexora_ai.Session.{year_of, DocumentNumber, Session, ok, bind_inv, audit}
use mathlib.Core.List.{append-nil, append_assoc}
use nexora_ai.Numbering.{allocate, prefix_of}
use nexora_ai.Accounting.Model.{
  JournalEntry, JournalEntryLine, Books, same_event, exactly_one_side, lines_of, insert_entry,
  insert_line, insert_lines,
}
use nexora_ai.Accounting.Post.{balanced_rows, finished, replace_entry, finish_entry, write_entry}

abbrev pub is_taken : JournalEntry → JournalEntry → Bool
is_taken e f = e.id == f.id || same_event e f

insert_entry_inv :
    (e : JournalEntry) (s : Session Books) {u : Unit × Session Books}
    → insert_entry e s ≡ ok u
    → (any_of (is_taken e) s.rows.entries ≡ false)
      × (u.1.rows ≡ record (s.rows) { entries = s.rows.entries ++ e ∷ [] })
unfolding insert_entry
insert_entry_inv e s h = ground arith

insert_line_inv :
    (l : JournalEntryLine) (s : Session Books) {u : Unit × Session Books}
    → insert_line l s ≡ ok u
    → (exactly_one_side l ≡ true) × (u.1.rows ≡ record (s.rows) { lines = s.rows.lines ++ l ∷ [] })
unfolding insert_line
insert_line_inv l s h = ground arith

abbrev with_lines : List JournalEntryLine → Books → Books
with_lines ls b = record b { lines = b.lines ++ ls }

insert_lines_inv :
    (ls : List JournalEntryLine) (s : Session Books) {u : Unit × Session Books}
    → insert_lines ls s ≡ ok u
    → All (λ l. exactly_one_side l ≡ true) ls
      × (u.1.rows ≡ record (s.rows) { lines = s.rows.lines ++ ls })
unfolding insert_lines
insert_lines_inv [] s h = (tt, ground (arith, append-nil s.rows.lines))
insert_lines_inv (l ∷ ls) s h =
    let (_, t, p, q) = bind_inv (insert_line l) (λ _. insert_lines ls) s h in
    let (one, e) = insert_line_inv l s p in
    let (rest, es) = insert_lines_inv ls t q in
    (
      (one, rest),
      es
          ∙ ap (with_lines ls) e
          ∙ ap (λ x. record (s.rows) { lines = x }) (append_assoc s.rows.lines (l ∷ []) ls),
    )

pub allocate_rows :
    {S : Type 0} (series : String) (period : ℕ) (s : Session S) {u : DocumentNumber × Session S}
    → allocate series period s ≡ ok u
    → u.1.rows ≡ s.rows
unfolding allocate
allocate_rows series period s h = elim (Option-cases (prefix_of series)) [
  | inl e ↦ ground (arith, e)
  | inr (x, e) ↦ ground (arith, e)
]

-- The update by identifier touches the new entry alone.
update_new :
    (e f : JournalEntry) (es : List JournalEntry)
    → any_of (is_taken e) es ≡ false
    → update_where (λ x. e.id == x.id) (λ _. f) (es ++ e ∷ []) ≡ es ++ f ∷ []
update_new e f [] h = ground arith
update_new e f (x ∷ es) h = ground (arith, update_new e f es)

abbrev pub written : JournalEntry → List JournalEntryLine → Books → Books
written e rows b = record b { entries = b.entries ++ e ∷ []; lines = b.lines ++ rows }

finish_entry_inv :
    (e : JournalEntry) (s : Session Books) {u : JournalEntry × Session Books}
    → finish_entry e s ≡ ok u
    → (u.0 ≡ e)
      × (u.1.rows ≡ replace_entry e s.rows)
      × (balanced_rows e (lines_of e.id (replace_entry e s.rows)) ≡ true)
unfolding finish_entry audit
finish_entry_inv e s h =
    let ls = lines_of e.id (replace_entry e s.rows) in
    elim (Bool-cases (balanced_rows e ls)) [ inl t ↦ ground (arith, t) | inr t ↦ ground (arith, t) ]

-- On success: no entry had the new one's key or event, each line has one side, the rows grew by
-- the finished entry and its lines, and the trigger found them balanced.
pub write_entry_inv :
    (e : JournalEntry) (rows : List JournalEntryLine) (s : Session Books)
    {u : JournalEntry × Session Books}
    → write_entry e rows s ≡ ok u
    → (number : DocumentNumber) × (u.0 ≡ finished e number)
      × (any_of (is_taken e) s.rows.entries ≡ false)
      × All (λ l. exactly_one_side l ≡ true) rows
      × (u.1.rows ≡ written (finished e number) rows s.rows)
      × (balanced_rows (finished e number) (lines_of e.id (written (finished e number) rows s.rows))
          ≡ true)
unfolding write_entry
write_entry_inv e rows s {u} h =
    let (_, s1, p1, h1) = bind_inv (insert_entry e) _ s h in
    let (fresh, r1) = insert_entry_inv e s p1 in
    let (_, s2, p2, h2) = bind_inv (insert_lines rows) _ s1 h1 in
    let (sides, r2) = insert_lines_inv rows s1 p2 in
    let (number, s3, p3, h3) = bind_inv (allocate "journal" (year_of e.entry_date)) _ s2 h2 in
    let r3 = allocate_rows "journal" (year_of e.entry_date) s2 p3 in
    let (same, r4, balanced) = finish_entry_inv (finished e number) s3 h3 in
    let before : s3.rows ≡ written e rows s.rows = r3 ∙ r2 ∙ ap (with_lines rows) r1 in
    let after : replace_entry (finished e number) (written e rows s.rows)
        ≡ written (finished e number) rows s.rows =
      ap (λ x. record (s.rows) { entries = x; lines = s.rows.lines ++ rows })
        (update_new e (finished e number) s.rows.entries fresh) in
    let all = ap (replace_entry (finished e number)) before ∙ after in
    (
      number,
      same,
      fresh,
      sides,
      r4 ∙ all,
      subst (λ b. balanced_rows (finished e number) (lines_of e.id b) ≡ true) all balanced,
    )
