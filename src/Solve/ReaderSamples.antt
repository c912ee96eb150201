-- ===== src/Solve/ReaderSamples.antt =====
-- A reader that is asked for a stored text twice, and cuts it.
use mm_harness.Prelude.{true, none, some, [], ◌∷◌, ◌≡◌, refl, begins, string_eq}
use mm_harness.Errors.{ok}
use mm_harness.Reports.{ReadOnlyFileReference, reference}
use mm_harness.Store.Evidence.{unique}
use mm_harness.MainHarness.Disclosure.{
  SolveProblemContext, DisclosedTextFile, no_context, put_file, merge_files,
}
use mm_harness.Solve.Reader.{Workspace, verified, sampled, disclose_each, disclose}
use mm_harness.Solve.Reader.Allowed.{AllAllowed, disclose-AllAllowed}

abbrev note : ReadOnlyFileReference
note = record {
  relative_path = "notes/a.md";
  purpose = "The plan.";
  role = reference;
  owner_task_id = none;
  media_type = "text/markdown";
  sha256 = some "digest";
  size_bytes = some 3;
}

abbrev workspace : Workspace
workspace = record {
  max_file_bytes = 2;
  max_total_bytes = 10;
  is_inside = λ p. true;
  bytes_of = λ p. some (104 ∷ 105 ∷ 106 ∷ []);
  sha256 = λ b. "digest";
  decode = λ b. some "hi";
}

abbrev context : SolveProblemContext
context = record no_context { readonly_files = note ∷ [] }

abbrev shown : DisclosedTextFile
shown = record {
  relative_path = "notes/a.md";
  purpose = "The plan.";
  content = "hi";
  sha256 = "digest";
  truncated = true;
}

note_shown : disclose workspace context ("notes/a.md" ∷ "notes\\a.md" ∷ []) ≡ ok (shown ∷ [])
unfolding disclose disclose_each verified sampled unique merge_files put_file begins
note_shown = refl

disclose-AllAllowed_example : AllAllowed workspace context 0 (shown ∷ [])
disclose-AllAllowed_example =
    disclose-AllAllowed workspace context ("notes/a.md" ∷ "notes\\a.md" ∷ []) (shown ∷ [])
      note_shown
