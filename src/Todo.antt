-- ===== src/Todo.antt =====
-- application/todo.py: the ledger of a code agent's steps. Reading an item is what pydantic does for `TodoItem`; `casefold`
-- and the writing of the snapshot's files are parameters.
pub mod Ledger
pub mod Samples
use mm_harness.Prelude.{
  ℕ, suc, ◌+◌, String, Bool, true, false, not, ◌&&◌, ◌||◌, Option, none, some, List, [], ◌∷◌, all,
  map, select, length, contains, distinct, ltb, leb, ◌==◌, nat_eq, string_eq, if◌then◌else◌,
  text_length,
}
use mm_harness.Errors.{Error, Result, ok, err, value_error, raise_if, ◌>>=◌, ◌>>◌}
use mm_harness.Json.{Json, Items, Fields, null, string, object, array, nil, item, end, field, get}

pub data TodoStatus : Type 0 where
  pending in_progress completed : TodoStatus

pub record TodoItem : Type 0 where
  pub content : String
  pub status : TodoStatus
  pub active_form : Option String

pub record TodoSnapshot : Type 0 where
  pub sequence : ℕ
  pub task_id : String
  pub iteration : ℕ
  pub items : List TodoItem
  pub updated_at : ℕ

pub record TodoLedger : Type 0 where
  pub task_id : String
  pub max_items : ℕ
  pub sequence : ℕ
  pub items : List TodoItem

-- a text whose length is within bounds
abbrev pub is_within : ℕ → ℕ → String → Bool
is_within low high s = leb low (text_length s) && leb (text_length s) high

abbrev pub content_of : Option Json → Result String
content_of (some (string s)) = if is_within 1 500 s then ok s else err value_error
content_of _ = err value_error

abbrev pub status_of : Option Json → Result TodoStatus
status_of none = ok pending
status_of (some (string s)) =
    if s == "pending"
    then ok pending
    else if s == "in_progress"
    then ok in_progress
    else if s == "completed"
    then ok completed
    else err value_error
status_of _ = err value_error

abbrev pub form_of : Option Json → Result (Option String)
form_of none = ok none
form_of (some null) = ok none
form_of (some (string s)) = if is_within 0 500 s then ok (some s) else err value_error
form_of _ = err value_error

-- extra="forbid"
abbrev pub are_known : Fields → Bool
are_known end = true
are_known (field key value rest) =
    contains key ("content" ∷ "status" ∷ "active_form" ∷ []) && are_known rest

abbrev pub is_in_progress : TodoItem → Bool
is_in_progress i = elim i.status [ in_progress ↦ true | _ ↦ false ]

-- active_form_for_progress
abbrev pub with_form : TodoItem → TodoItem
with_form i = elim i.active_form [
  | some f ↦ i
  | none ↦ if is_in_progress i then record i { active_form = some i.content } else i
]

-- TodoItem.model_validate
unfoldable pub item_of : Json → Result TodoItem
item_of (object fields) = do
  raise_if (not (are_known fields)) value_error
  content ← content_of (get "content" fields)
  status ← status_of (get "status" fields)
  active_form ← form_of (get "active_form" fields)
  ok (with_form (record { content = content; status = status; active_form = active_form }))
item_of _ = err value_error

unfoldable pub items_of : Items → Result (List TodoItem)
items_of nil = ok []
items_of (item j rest) = do i ← item_of j; is ← items_of rest; ok (i ∷ is)

abbrev pub item_count : Items → ℕ
item_count nil = 0
item_count (item j rest) = suc (item_count rest)

-- TodoSnapshot(…): the bounds of its fields
abbrev pub snapshot_of : TodoLedger → ℕ → ℕ → Result TodoSnapshot
snapshot_of ledger iteration now =
    if is_within 1 120 ledger.task_id && leb 1 iteration
    then ok (record {
      sequence = ledger.sequence;
      task_id = ledger.task_id;
      iteration = iteration;
      items = ledger.items;
      updated_at = now;
    })
    else err value_error

module _ (casefold : String → String) (persist : TodoSnapshot → Result (Unit {0})) where
  -- the checks of `write`
  unfoldable pub checked : ℕ → Json → Result (List TodoItem)
  checked max_items (array raw) = do
    raise_if (ltb max_items (item_count raw)) value_error
    items ← items_of raw
    raise_if (not (distinct (map (λ (i : TodoItem). casefold i.content) items))) value_error
    raise_if (ltb 1 (length (select is_in_progress items))) value_error
    ok items
  checked max_items _ = err value_error

  -- write: once the checks have passed, the items are kept, also where the snapshot or its file fails
  unfoldable pub write : Json → ℕ → ℕ → TodoLedger → Result TodoSnapshot × TodoLedger
  write raw iteration now ledger = elim (checked ledger.max_items raw) [
    | err e ↦ (err e, ledger)
    | ok items ↦
        let after = record ledger { sequence = suc ledger.sequence; items = items } in
        (snapshot_of after iteration now >>= λ snapshot. persist snapshot >> ok snapshot, after)
  ]
