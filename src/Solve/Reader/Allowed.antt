-- ===== src/Solve/Reader/Allowed.antt =====
-- What the reader discloses.
use mm_harness.Prelude.{
  ℕ, zero, suc, ◌+◌, ◌-◌, ◌≤◌, min, String, true, false, Option, none, some, List, [], ◌∷◌, map,
  contains, length, ltb, ◌≡◌, refl, subst, arith, ltb→lt, string_eq, eq_iff, if◌then◌else◌,
  Bool-cases, Option-cases, inl, inr,
}
use mm_harness.Errors.{Result, ok, >>=-eq-ok}
use mm_harness.Reports.{ReadOnlyFileReference}
use mm_harness.MainHarness.Disclosure.{SolveProblemContext, DisclosedTextFile, first_of}
use mm_harness.Solve.Start.{is_pdf}
use mm_harness.Solve.Reader.{
  Workspace, allowed, is_text, differs_text, verified, as_disclosed, sampled, disclose_each,
  disclose,
}

length-first_of : (n : ℕ) (xs : List ℕ) → length (first_of n xs) ≤ n
length-first_of zero [] = omega arith
length-first_of zero (x ∷ xs) = omega arith
length-first_of (suc n) [] = omega arith
length-first_of (suc n) (x ∷ xs) = omega (arith, length-first_of n xs)

module _ (workspace : Workspace) (context : SolveProblemContext) where
  open workspace use {max_file_bytes, max_total_bytes, is_inside, bytes_of, sha256, decode}

  -- A disclosed file, behind `total` bytes of others.
  pub record IsAllowed (total : ℕ) (f : DisclosedTextFile) : Type 0 where
    pub file : ReadOnlyFileReference
    pub raw : List ℕ
    pub limit : ℕ
    pub sample : List ℕ
    pub first : sample ≡ first_of limit raw
    pub purposed : f.purpose ≡ file.purpose
    pub cut : f.truncated ≡ ltb limit (length raw)
    pub listed : allowed context f.relative_path ≡ some file
    pub is_new :
        contains f.relative_path (map (λ d. d.relative_path) context.disclosed_text_files) ≡ false
    pub inside : is_inside f.relative_path ≡ true
    pub read : bytes_of f.relative_path ≡ some raw
    pub digested : f.sha256 ≡ sha256 raw
    pub unchanged : (expected : String) → file.sha256 ≡ some expected → f.sha256 ≡ expected
    pub scoped : is_pdf file ≡ false
    pub decoded : decode sample ≡ some f.content
    pub small : length sample ≤ max_file_bytes
    pub fits : total + length sample ≤ max_total_bytes

  abbrev pub AllAllowed : ℕ → List DisclosedTextFile → Type 0
  AllAllowed total [] = Unit
  AllAllowed total (f ∷ fs) = (a : IsAllowed total f) × AllAllowed (total + length a.sample) fs

  verified-read :
      (file : ReadOnlyFileReference) (requested : String) {raw : List ℕ}
      → verified workspace context file requested ≡ ok raw
      → (is_inside requested ≡ true)
        × (bytes_of requested ≡ some raw)
        × (differs_text file.sha256 (sha256 raw) ≡ false)
  unfolding verified
  verified-read file requested {raw} h = ground (arith, h)

  same_text : (o : Option String) (t u : String) → differs_text o t ≡ false → o ≡ some u → t ≡ u
  same_text none t u h e = absurd (ground (arith, e))
  same_text (some v) t u h e = ground (arith, eq_iff t v, h, e)

  module _ (total : ℕ) (requested : String) (file : ReadOnlyFileReference) (raw : List ℕ)
      (listed : allowed context requested ≡ some file)
      (is_new : contains requested (map (λ d. d.relative_path) context.disclosed_text_files)
        ≡ false)
      (checked : verified workspace context file requested ≡ ok raw)
      (room : ltb total max_total_bytes ≡ true) where
    sampled-AllAllowed :
        (rest : ℕ → Result (List DisclosedTextFile))
        → ((n : ℕ) (fs : List DisclosedTextFile) → rest n ≡ ok fs → AllAllowed n fs)
        → (fs : List DisclosedTextFile)
        → sampled workspace context file requested raw total rest ≡ ok fs
        → AllAllowed total fs
    unfolding sampled
    sampled-AllAllowed rest later fs h = elim (Bool-cases (is_pdf file)) [
      | inl pdf ↦ absurd (ground (arith, rw pdf at h))
      | inr scoped ↦
          elim (Option-cases
            (decode (first_of (min max_file_bytes (max_total_bytes - total)) raw))) [
              | inl binary ↦ elim (Bool-cases (is_text file)) [
                | inl text ↦ absurd (ground (arith, rw (scoped, binary, text, sampled) at h))
                | inr other ↦ later total fs (rw (scoped, binary, other, sampled) at h)
              ]
              | inr (content, decoded) ↦
                  let limit = min max_file_bytes (max_total_bytes - total) in
                  let sample = first_of limit raw in
                  let (inside, read, digest) = verified-read file requested checked in
                  let (files, went_on, e) =
                    >>=-eq-ok (rest (total + length sample))
                      (λ files.
                        ok
                          (as_disclosed workspace context file requested raw limit content ∷ files))
                      (rw (scoped, decoded, sampled) at h) in
                  let same : (as_disclosed workspace context file requested raw limit content
                        ∷ files)
                      ≡ fs =
                    ground (arith, e) in
                  subst (AllAllowed total) same (
                    record {
                      file = file;
                      raw = raw;
                      limit = limit;
                      sample = sample;
                      first = refl;
                      purposed = refl;
                      cut = refl;
                      listed = listed;
                      is_new = is_new;
                      inside = inside;
                      read = read;
                      digested = refl;
                      unchanged = λ expected given.
                          same_text file.sha256 (sha256 raw) expected digest given;
                      scoped = scoped;
                      decoded = decoded;
                      small = omega (arith, length-first_of limit raw);
                      fits =
                          omega
                            (arith, length-first_of limit raw, ltb→lt total max_total_bytes room);
                    },
                    later (total + length sample) files went_on,
                  )
            ]
    ]

  disclose_each-AllAllowed :
      (total : ℕ) (paths : List String) (fs : List DisclosedTextFile)
      → disclose_each workspace context total paths ≡ ok fs
      → AllAllowed total fs
  unfolding disclose_each
  disclose_each-AllAllowed total [] fs h =
      let same : ◌≡◌ {A = List DisclosedTextFile} [] fs = ground (arith, h) in
      subst (AllAllowed total) same tt
  disclose_each-AllAllowed total (requested ∷ paths) fs h =
      elim (Bool-cases
        (contains requested (map (λ d. d.relative_path) context.disclosed_text_files))) [
          | inl old ↦ disclose_each-AllAllowed total paths fs (rw old at h)
          | inr is_new ↦ elim (Option-cases (allowed context requested)) [
            | inl e ↦ absurd (ground (arith, rw (is_new, e, disclose_each) at h))
            | inr (file, listed) ↦
                let (raw, checked, g) =
                  >>=-eq-ok (verified workspace context file requested)
                    (λ raw.
                      if ltb total max_total_bytes
                      then sampled workspace context file requested raw total
                          (λ n. disclose_each workspace context n paths)
                      else ok [])
                    (rw (is_new, listed, disclose_each) at h) in
                elim (Bool-cases (ltb total max_total_bytes)) [
                  | inl room ↦
                      sampled-AllAllowed total requested file raw listed is_new checked room _
                        (λ n gs. disclose_each-AllAllowed n paths gs) fs (rw room at g)
                  | inr full ↦
                      let same : ◌≡◌ {A = List DisclosedTextFile} [] fs =
                        ground (arith, rw full at g) in
                      subst (AllAllowed total) same tt
                ]
          ]
        ]

  -- Where the reader returns files, each is on the allowlist under its path, was not disclosed before, lies inside the
  -- workspace, is no PDF, has the digest that its reference records, and its text is that of its first bytes, at most
  -- `max_file_bytes`, and marked where that cuts it. All of them together take at most `max_total_bytes`.
  pub disclose-AllAllowed :
      (paths : List String) (fs : List DisclosedTextFile)
      → disclose workspace context paths ≡ ok fs
      → AllAllowed 0 fs
  unfolding disclose
  disclose-AllAllowed paths fs h = disclose_each-AllAllowed 0 _ fs h
