-- ===== src/Solve/Reader.antt =====
-- application/solve_problem.py: `WorkspaceReadOnlyFileReader.disclose`. The file system and the UTF-8 decoder are parameters.
pub mod Allowed
use Prim.Native.Char.{code}
use mm_harness.Prelude.{
  ℕ, zero, suc, ◌+◌, ◌-◌, min, String, Bool, true, false, not, ◌&&◌, ◌||◌, Option, none, some, List,
  [], ◌∷◌, map, find, contains, length, codes, begins, ltb, ◌==◌, nat_eq, string_eq, if◌then◌else◌,
}
use mm_harness.Errors.{
  Result, ok, err, permission_error, value_error, file_not_found, raise_if, ◌>>=◌, ◌>>◌,
}
use mm_harness.Reports.{ReadOnlyFileReference}
use mm_harness.Store.Evidence.{unique}
use mm_harness.MainHarness.Disclosure.{
  SolveProblemContext, DisclosedTextFile, merge_files, first_of,
}
use mm_harness.Solve.Start.{is_pdf}

-- path.replace("\\", "/")
abbrev pub with_slashes : String → String
with_slashes String.[] = String.[]
with_slashes (String.◌∷◌ c s) =
    if code c == 92 then String.◌∷◌ "/" (with_slashes s) else String.◌∷◌ c (with_slashes s)

-- The reader's bounds, and what the workspace answers: whether a path resolves to one inside it, the bytes of a path that
-- is a file and no link, their digest, and their text, if they are UTF-8.
pub record Workspace : Type 0 where
  pub max_file_bytes : ℕ
  pub max_total_bytes : ℕ
  pub is_inside : String → Bool
  pub bytes_of : String → Option (List ℕ)
  pub sha256 : List ℕ → String
  pub decode : List ℕ → Option String

-- allowlist.get(requested)
abbrev pub allowed : SolveProblemContext → String → Option ReadOnlyFileReference
allowed context requested =
    find (λ f. f.relative_path == requested) (merge_files [] context.readonly_files)

abbrev pub is_text : ReadOnlyFileReference → Bool
is_text f = f.media_type == "text/plain" || begins (codes "text/") (codes f.media_type)

abbrev pub differs_text : Option String → String → Bool
differs_text none found = false
differs_text (some expected) found = not (found == expected)

abbrev pub differs_size : Option ℕ → ℕ → Bool
differs_size none found = false
differs_size (some expected) found = not (found == expected)

module _ (workspace : Workspace) (context : SolveProblemContext) where
  open workspace use {max_file_bytes, max_total_bytes, is_inside, bytes_of, sha256, decode}

  abbrev pub found : Option (List ℕ) → Result (List ℕ)
  found none = err file_not_found
  found (some raw) = ok raw

  -- the bytes of a file that is as its reference says
  unfoldable pub verified : ReadOnlyFileReference → String → Result (List ℕ)
  verified file requested = do
    raise_if (not (is_inside requested)) permission_error
    raw ← found (bytes_of requested)
    raise_if (differs_text file.sha256 (sha256 raw)) value_error
    raise_if (differs_size file.size_bytes (length raw)) value_error
    ok raw

  abbrev pub as_disclosed : ReadOnlyFileReference → String → List ℕ → ℕ → String → DisclosedTextFile
  as_disclosed file requested raw limit content = record {
    relative_path = requested;
    purpose = file.purpose;
    content = content;
    sha256 = sha256 raw;
    truncated = ltb limit (length raw);
  }

  -- the rest of the loop's body behind the checks of the file, where `rest` goes on with the total
  unfoldable pub sampled :
      ReadOnlyFileReference
      → String
      → List ℕ
      → ℕ
      → (ℕ → Result (List DisclosedTextFile))
      → Result (List DisclosedTextFile)
  sampled file requested raw total rest =
      let limit = min max_file_bytes (max_total_bytes - total) in
      let sample = first_of limit raw in
      if is_pdf file then err permission_error else elim (decode sample) [
        | none ↦ if is_text file then err value_error else rest total
        | some content ↦ rest (total + length sample) >>= λ files.
            ok (as_disclosed file requested raw limit content ∷ files)
      ]

  -- the files that the loop adds for the paths that are left, after `total` bytes
  unfoldable pub disclose_each : ℕ → List String → Result (List DisclosedTextFile)
  disclose_each total [] = ok []
  disclose_each total (requested ∷ paths) =
      let skipped = disclose_each total paths in
      let rest = λ (n : ℕ). disclose_each n paths in
      if contains requested (map (λ f. f.relative_path) context.disclosed_text_files)
      then skipped
      else elim (allowed context requested) [
        | none ↦ err permission_error
        | some file ↦ verified file requested >>= λ raw.
            if ltb total max_total_bytes then sampled file requested raw total rest else ok []
      ]

  -- disclose
  unfoldable pub disclose : List String → Result (List DisclosedTextFile)
  disclose paths = disclose_each 0 (unique [] (map with_slashes paths))
