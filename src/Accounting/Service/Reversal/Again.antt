-- ===== src/Accounting/Service/Reversal/Again.antt =====
-- An entry is reversed once.
use nexora_ai.Prelude.{
  ◌||◌, ==→eq, ◌≡◌, refl, sym, ap, ◌∙◌, subst, Bool, true, some, is_some, List, [], ◌∷◌, ◌==◌,
  arith, any_of, first, update_where, Bool-cases, inl, inr,
}
use nexora_ai.Prelude.Rows.{first-passes, any_of-first, any_of-append, any_of-update}
use nexora_ai.Session.{Uuid, Date, Context, Env, Session, ok, err, conflict}
use nexora_ai.Accounting.Model.{JournalEntry, Books, entry}
use nexora_ai.Accounting.Post.Once.{post-IsPosting}
use nexora_ai.Accounting.Service.{set_reversal_of, set_reversed_by, reverse}
use nexora_ai.Accounting.Service.Reversal.{reverse_inv}

abbrev is_entry : Uuid → JournalEntry → Bool
is_entry i e = i == e.id

-- The entry that is found where an identifier has been marked as reversed.
reversed_found :
    (i r : Uuid) (xs : List JournalEntry)
    → any_of (is_entry i) xs ≡ true
    → (y : JournalEntry) × (first
          (is_entry i)
          (update_where (is_entry i) (λ e. record e { reversed_by = some r }) xs)
        ≡ some y)
      × (is_some y.reversed_by ≡ true)
reversed_found i r [] h = cc
reversed_found i r (x ∷ xs) h = elim (Bool-cases (i == x.id)) [
  | inl e ↦ (record x { reversed_by = some r }, rw (e, e) refl, refl)
  | inr e ↦ let (y, f, k) = reversed_found i r xs (ground (arith, e, h)) in (y, rw (e, e) f, k)
]

refused :
    (c : Context) (env : Env) (i : Uuid) (d : Date) (s : Session Books) (y : JournalEntry)
    → entry i s.rows ≡ some y
    → is_some y.reversed_by ≡ true
    → reverse c env i d s ≡ err (conflict "ENTRY_ALREADY_REVERSED")
unfolding reverse
refused c env i d s y f k = rw (f, k) refl

-- An entry that `reverse` has reversed cannot be reversed again, whoever asks and for whatever
-- date, in the state that the reversal leaves.
pub reverse_again :
    (c : Context) (env : Env) (i : Uuid) (d : Date) (s : Session Books)
    {u : JournalEntry × Session Books}
    → reverse c env i d s ≡ ok u
    → (k : Context) (later : Env) (day : Date)
    → reverse k later i day u.1 ≡ err (conflict "ENTRY_ALREADY_REVERSED")
unfolding entry
reverse_again c env i d s {u} h k later day =
    let x = reverse_inv c env i d s h in
    let o = x.original in
    let is_i : i ≡ o.id = ==→eq i o.id (first-passes (λ e. i == e.id) s.rows.entries o x.found) in
    let p = post-IsPosting c env _ s x.entered in
    let es = x.after.rows.entries in
    let stands : any_of (is_entry i) es ≡ true =
      ap (any_of (is_entry i)) p.entries_after
      ∙ any_of-append (is_entry i) s.rows.entries x.reversal
      ∙ ap (λ b. b || is_entry i x.reversal) (any_of-first (is_entry i) s.rows.entries o x.found) in
    let linked =
      any_of-update (is_entry i) (is_entry x.reversal.id)
        (λ e. record e { reversal_of = some o.id }) es (λ e. refl)
      ∙ stands in
    let (y, f, marked) = reversed_found i x.reversal.id _ linked in
    refused k later i day u.1 y
      (ap (λ (b : Books). first (is_entry i) b.entries)
          (subst
            (λ j.
              u.1.rows
              ≡ set_reversed_by j x.reversal.id (set_reversal_of x.reversal.id o.id x.after.rows))
            (sym is_i) x.linked)
        ∙ f)
      marked
