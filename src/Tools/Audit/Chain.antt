-- ===== src/Tools/Audit/Chain.antt =====
-- The audit's chain: appending keeps it verified, and its hashes fix what its rows say.
use Prim.Native.String.{◌++◌ as concat}
use mathlib.Core.List.{Memᴰ}
use text.Mathlib.TextLemmas.{append_cancel_left}
use mm_harness.Prelude.{
  ℕ, ◌+◌, String, ◌||◌, List, [], ◌∷◌, ◌++◌, map, any, length, ◌==◌, string_eq, ◌≡◌, refl, subst,
  sym, ◌∙◌, ap, arith, eq_iff, Bool-cases, inl, inr, length-append,
}
use mm_harness.Errors.{ok, Result-cases}
use mm_harness.Json.{Json}
use mm_harness.Tools.{ToolCall}
use mm_harness.Tools.Audit.{
  AuditRow, zero_hash, last_hash, event_body, row_body, new_row, append, check_chain, verify,
}

module _ (sha256 : String → String) (canonical : Json → String) (loads : String → Json) where
  check_chain-append :
      (previous : String) (rows : List AuditRow) (r : AuditRow)
      → check_chain sha256 canonical loads previous rows ≡ ok tt
      → r.previous_hash ≡ last_hash previous rows
      → r.event_hash
        ≡ sha256 (concat (last_hash previous rows) (canonical (row_body sha256 canonical loads r)))
      → check_chain sha256 canonical loads previous (rows ++ r ∷ []) ≡ ok tt
  unfolding check_chain
  check_chain-append previous [] r h link hash = ground (
    arith,
    eq_iff r.previous_hash previous,
    eq_iff r.event_hash (sha256 (concat previous (canonical (row_body sha256 canonical loads r)))),
  )
  check_chain-append previous (x ∷ rows) r h link hash =
      ground (arith, check_chain-append x.event_hash rows r)

  verify-ok :
      (rows : List AuditRow) (n : ℕ)
      → verify sha256 canonical loads rows ≡ ok n
      → (check_chain sha256 canonical loads zero_hash rows ≡ ok tt) × (n ≡ length rows)
  unfolding verify
  verify-ok rows n h = elim (Result-cases (check_chain sha256 canonical loads zero_hash rows)) [
    | inl (e, f) ↦ absurd (ground (arith, f, h))
    | inr (u, f) ↦ (f, ground (arith, f, h))
  ]

  module _ (event_type : String) (call : ToolCall) (payload : Json) (event_id occurred_at : String)
      (rows after : List AuditRow)
      (added : append sha256 canonical loads event_type call payload event_id occurred_at rows
        ≡ (ok tt, after)) where
    abbrev last_row : AuditRow
    last_row =
        new_row sha256 canonical loads event_type call payload event_id occurred_at
          (last_hash zero_hash rows)

    appended : after ≡ rows ++ last_row ∷ []
    unfolding append
    appended =
        elim (Bool-cases
          (any (λ r. r.event_id == event_id || r.event_hash == last_row.event_hash) rows)) [
            | inl taken ↦ absurd (ground (arith, taken, added))
            | inr free ↦ ground (arith, free, added)
          ]

    -- An event that is appended to a log that passes verification leaves one that passes it too, one
    -- event longer, if the JSON library reads a payload back as it wrote it.
    pub verify-append :
        (n : ℕ)
        → loads (canonical payload) ≡ payload
        → verify sha256 canonical loads rows ≡ ok n
        → verify sha256 canonical loads after ≡ ok (n + 1)
    unfolding verify
    verify-append n reads h =
        let (chained, counted) = verify-ok rows n h in
        let previous = last_hash zero_hash rows in
        let kept = check_chain-append zero_hash rows last_row chained refl (
          ap
            (λ (p : Json). sha256 (
              concat previous (
                canonical (
                  event_body event_id event_type call.idempotency_key call.call_id call.tool_name
                    occurred_at p previous))))
            (sym reads)) in
        ground (arith, kept, appended, counted, length-append rows (last_row ∷ []))

  checked :
      (previous : String) (r : AuditRow) (rows : List AuditRow)
      → check_chain sha256 canonical loads previous (r ∷ rows) ≡ ok tt
      → (r.previous_hash ≡ previous)
        × (r.event_hash ≡ sha256 (concat previous (canonical (row_body sha256 canonical loads r))))
        × (check_chain sha256 canonical loads r.event_hash rows ≡ ok tt)
  unfolding check_chain
  checked previous r rows h = ground (
    arith,
    eq_iff r.previous_hash previous,
    eq_iff r.event_hash (sha256 (concat previous (canonical (row_body sha256 canonical loads r)))),
  )

  -- the text whose digest a row holds
  abbrev hashed : AuditRow → String
  hashed r = concat r.previous_hash (canonical (row_body sha256 canonical loads r))

  row_body-fields :
      (r s : AuditRow)
      → row_body sha256 canonical loads r ≡ row_body sha256 canonical loads s
      → (r.event_id ≡ s.event_id)
        × (r.event_type ≡ s.event_type)
        × (r.idempotency_key ≡ s.idempotency_key)
        × (r.call_id ≡ s.call_id)
        × (r.tool_name ≡ s.tool_name)
        × (r.occurred_at ≡ s.occurred_at)
        × (loads r.payload ≡ loads s.payload)
  row_body-fields r s h = (cc, cc, cc, cc, cc, cc, cc)

  -- the fields that an event's dictionary holds
  abbrev pub said : AuditRow → String × String × String × String × String × String × Json
  said r = (
    r.event_id,
    r.event_type,
    r.idempotency_key,
    r.call_id,
    r.tool_name,
    r.occurred_at,
    loads r.payload,
  )

  chain-fixed :
      (previous : String) (rows others : List AuditRow)
      → ((r s : AuditRow)
          → Memᴰ r rows
          → Memᴰ s others
          → sha256 (hashed r) ≡ sha256 (hashed s)
          → hashed r ≡ hashed s)
      → ((r s : AuditRow)
          → Memᴰ r rows
          → Memᴰ s others
          → canonical (row_body sha256 canonical loads r)
            ≡ canonical (row_body sha256 canonical loads s)
          → row_body sha256 canonical loads r ≡ row_body sha256 canonical loads s)
      → check_chain sha256 canonical loads previous rows ≡ ok tt
      → check_chain sha256 canonical loads previous others ≡ ok tt
      → map (λ (r : AuditRow). r.event_hash) rows ≡ map (λ (r : AuditRow). r.event_hash) others
      → map said rows ≡ map said others
  chain-fixed previous [] [] free written h k same = refl
  chain-fixed previous [] (s ∷ others) free written h k same = cc
  chain-fixed previous (r ∷ rows) [] free written h k same = cc
  chain-fixed previous (r ∷ rows) (s ∷ others) free written h k same =
      let (linked, a, b) = checked previous r rows h in
      let (joined, c, d) = checked previous s others k in
      let first : r.event_hash ≡ s.event_hash = cc in
      let later : map (λ (x : AuditRow). x.event_hash) rows
          ≡ map (λ (x : AuditRow). x.event_hash) others =
        cc in
      let rest =
        chain-fixed r.event_hash rows others (λ x y m n. free x y (Memᴰ.tail m) (Memᴰ.tail n))
          (λ x y m n. written x y (Memᴰ.tail m) (Memᴰ.tail n)) b
          (subst (λ p. check_chain sha256 canonical loads p others ≡ ok tt) (sym first) d) later in
      let texts : hashed r ≡ hashed s = free r s (Memᴰ.head refl) (Memᴰ.head refl) (
        ap (λ p. sha256 (concat p (canonical (row_body sha256 canonical loads r)))) linked
        ∙ sym a
        ∙ first
        ∙ c
        ∙ ap (λ p. sha256 (concat p (canonical (row_body sha256 canonical loads s))))
            (sym joined)) in
      let bodies = written r s (Memᴰ.head refl) (Memᴰ.head refl) (
        append_cancel_left previous _ _ (
          ap (λ p. concat p (canonical (row_body sha256 canonical loads r))) (sym linked)
          ∙ texts
          ∙ ap (λ p. concat p (canonical (row_body sha256 canonical loads s))) joined)) in
      let (e1, e2, e3, e4, e5, e6, e7) = row_body-fields r s bodies in
      ground (arith, e1, e2, e3, e4, e5, e6, e7, rest)

  -- If two logs pass verification and have the same hashes, event by event, then their events agree: in their ids, their
  -- types, their keys, their calls, their tools, their times and their payloads. So no event can be changed under its
  -- hash. The digest is taken to have no collision among the texts that the two logs hash, and the JSON writer to write
  -- the dictionaries of their events differently where they differ.
  pub verify-fixed :
      (rows others : List AuditRow) (n m : ℕ)
      → ((r s : AuditRow)
          → Memᴰ r rows
          → Memᴰ s others
          → sha256 (concat r.previous_hash (canonical (row_body sha256 canonical loads r)))
            ≡ sha256 (concat s.previous_hash (canonical (row_body sha256 canonical loads s)))
          → concat r.previous_hash (canonical (row_body sha256 canonical loads r))
            ≡ concat s.previous_hash (canonical (row_body sha256 canonical loads s)))
      → ((r s : AuditRow)
          → Memᴰ r rows
          → Memᴰ s others
          → canonical (row_body sha256 canonical loads r)
            ≡ canonical (row_body sha256 canonical loads s)
          → row_body sha256 canonical loads r ≡ row_body sha256 canonical loads s)
      → verify sha256 canonical loads rows ≡ ok n
      → verify sha256 canonical loads others ≡ ok m
      → map (λ (r : AuditRow). r.event_hash) rows ≡ map (λ (r : AuditRow). r.event_hash) others
      → map said rows ≡ map said others
  verify-fixed rows others n m free written h k same =
      chain-fixed zero_hash rows others free written (verify-ok rows n h).0 (verify-ok others m k).0
        same
