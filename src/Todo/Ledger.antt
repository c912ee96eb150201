-- ===== src/Todo/Ledger.antt =====
-- The bounds of the ledger, whatever a model writes to it.
use mm_harness.Prelude.{
  ℕ, suc, ◌≤◌, String, true, List, ◌∷◌, map, select, length, distinct, string_eq, ◌≡◌, refl, subst,
  arith, ◌⊎◌, inl, inr,
}
use mm_harness.Errors.{Result, ok, Result-cases, >>=-eq-ok, ◌>>=◌}
use mm_harness.Json.{Json, Items, array, nil, item, null, boolean, integer, real, string, object}
use mm_harness.Todo.{
  TodoItem, TodoLedger, TodoSnapshot, is_in_progress, item_of, items_of, item_count, checked, write,
}

module _ (casefold : String → String) where
  -- at most `max_items` items, of different contents, one in progress at most
  pub record IsBounded (max_items : ℕ) (items : List TodoItem) : Type 0 where
    pub few : length items ≤ max_items
    pub different : distinct (map (λ (i : TodoItem). casefold i.content) items) ≡ true
    pub single : length (select is_in_progress items) ≤ 1

  items_of-count :
      (raw : Items) (items : List TodoItem)
      → items_of raw ≡ ok items
      → length items ≡ item_count raw
  unfolding items_of
  items_of-count nil items h = ground (arith, h)
  items_of-count (item j rest) items h =
      let (i, parsed, h1) = >>=-eq-ok (item_of j) (λ i. items_of rest >>= λ is. ok (i ∷ is)) h in
      let (is, read, h2) = >>=-eq-ok (items_of rest) (λ is. ok (i ∷ is)) h1 in
      ground (arith, h2, items_of-count rest is read)

  module _ (persist : TodoSnapshot → Result (Unit {0})) where
    checked-IsBounded :
        (max_items : ℕ) (raw : Json) (items : List TodoItem)
        → checked casefold persist max_items raw ≡ ok items
        → IsBounded max_items items
    unfolding checked
    checked-IsBounded m (array raw) items h = elim (Result-cases (items_of raw)) [
      | inl (e, f) ↦ absurd (ground (arith, f, h))
      | inr (is, f) ↦
          let counted = items_of-count raw is f in
          let (same, few, different, single) : (is ≡ items)
              × (length is ≤ m)
              × (distinct (map (λ (i : TodoItem). casefold i.content) is) ≡ true)
              × (length (select is_in_progress is) ≤ 1) =
            ground (arith, f, h, counted) in
          subst (IsBounded m) same (record { few = few; different = different; single = single })
    ]
    checked-IsBounded m null items h = absurd (ground (arith, h))
    checked-IsBounded m (boolean b) items h = absurd (ground (arith, h))
    checked-IsBounded m (integer n) items h = absurd (ground (arith, h))
    checked-IsBounded m (real x) items h = absurd (ground (arith, h))
    checked-IsBounded m (string s) items h = absurd (ground (arith, h))
    checked-IsBounded m (object fields) items h = absurd (ground (arith, h))

    -- Whatever a model writes, and whether the write succeeds or raises, a ledger within its bounds stays within
    -- them: as many items as are allowed, no two with the same content, at most one in progress. It is the same
    -- ledger, or its sequence has grown by one.
    pub write-IsBounded :
        (raw : Json) (iteration now : ℕ) (ledger : TodoLedger)
        → IsBounded ledger.max_items ledger.items
        → IsBounded
            (write casefold persist raw iteration now ledger).1.max_items
            (write casefold persist raw iteration now ledger).1.items
          × (((write casefold persist raw iteration now ledger).1 ≡ ledger)
              ⊎ ((write casefold persist raw iteration now ledger).1.sequence
                  ≡ suc ledger.sequence))
    unfolding write
    write-IsBounded raw iteration now ledger b =
        elim (Result-cases (checked casefold persist ledger.max_items raw)) [
          | inl (e, f) ↦ rw (f, write) (b, inl refl)
          | inr (items, f) ↦
              rw (f, write) (checked-IsBounded ledger.max_items raw items f, inr refl)
        ]
