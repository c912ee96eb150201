-- ===== src/Todo/Samples.antt =====
-- Two steps that a model writes, and a write that raises.
use mm_harness.Prelude.{none, some, [], ◌∷◌, ◌≡◌, refl, ◌⊎◌, text_length, arith}
use mm_harness.Errors.{ok, err, value_error}
use mm_harness.Json.{Json, array, item, nil, object, field, end, string, get}
use mm_harness.Todo.{TodoStatus, TodoLedger, item_of, items_of, checked, write}
use mm_harness.Todo.Ledger.{IsBounded, write-IsBounded}

abbrev new_ledger : TodoLedger
new_ledger = record { task_id = "q1"; max_items = 100; sequence = 0; items = [] }

abbrev steps : Json
steps = array (
    item
      (object
        (field "content" (string "Fit the model") (field "status" (string "in_progress") end)))
      (item (object (field "content" (string "Plot") end)) nil))

abbrev two_steps : TodoLedger
two_steps = record new_ledger {
  sequence = 1;
  items =
      record {
        content = "Fit the model";
        status = TodoStatus.in_progress;
        active_form = some "Fit the model";
      }
      ∷ record { content = "Plot"; status = TodoStatus.pending; active_form = none }
      ∷ [];
}

steps_written : write (λ s. s) (λ s. ok tt) steps 1 5 new_ledger ≡ (
  ok (record {
    sequence = 1;
    task_id = "q1";
    iteration = 1;
    items = two_steps.items;
    updated_at = 5;
  }),
  two_steps,
)
unfolding write checked items_of item_of get text_length
steps_written = refl

-- a snapshot that cannot be built or stored raises, and the items are replaced all the same
lost_snapshot : write (λ s. s) (λ s. ok tt) steps 0 5 new_ledger ≡ (err value_error, two_steps)
unfolding write checked items_of item_of get text_length
lost_snapshot = refl

write-IsBounded_example :
    IsBounded
      (λ s. s)
      (write (λ s. s) (λ s. ok tt) steps 1 5 new_ledger).1.max_items
      (write (λ s. s) (λ s. ok tt) steps 1 5 new_ledger).1.items
    × (((write (λ s. s) (λ s. ok tt) steps 1 5 new_ledger).1 ≡ new_ledger)
        ⊎ ((write (λ s. s) (λ s. ok tt) steps 1 5 new_ledger).1.sequence ≡ 1))
write-IsBounded_example = write-IsBounded (λ s. s) (λ s. ok tt) steps 1 5 new_ledger empty_bounded
  where
    empty_bounded : IsBounded (λ s. s) 100 []
    empty_bounded = record { few = ground arith; different = refl; single = ground arith }
