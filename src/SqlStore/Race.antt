-- ===== src/SqlStore/Race.antt =====
-- internal/store/sql_ops.go: two requests that create a submission under the same key at once.
use scintx.Base.{
  String, false, none, some, Map, lookup, insert, lookup-insert, lookup-delete, ◌==◌, eq_iff,
  eq_refl, ◌≡◌, ◌≢◌, refl, ◌∙◌, arith, Bool-cases, inl, inr, if◌then◌else◌,
}
use scintx.Api.{Submission}
use scintx.Store.{StoreError, clone}
use scintx.SqlStore.{
  Codecs, KeyRow, SqlStore, SqlError, Put, conflicts, on_key, put_submission_idempotent,
}
use scintx.SqlStore.Laws.{Faithful}

-- The transaction that commits between the SELECT and the INSERT of another one.
abbrev pub committed :
    {S B : Type 0} → Codecs S B → String → String → Submission → SqlStore B → SqlStore B
committed json key hash sub q = (put_submission_idempotent json (λ t. t) key hash (some sub) q).0

module _ {S B : Type 0} (json : Codecs S B) (law : Faithful json) where
  committed_lem :
      (key hash : String) (sub : Submission) (q : SqlStore B)
      → key ≢ ""
      → lookup key q.idempotency ≡ none
      → (put_submission_idempotent json (λ t. t) key hash (some sub) q).0 ≡ record q {
        submissions = insert sub.id (json.submission.encode sub) q.submissions;
        idempotency =
            insert key (record { submission_id = sub.id; request_hash = hash }) q.idempotency;
      }
  unfolding put_submission_idempotent
  committed_lem key hash sub q k free =
      let n : (key == "") ≡ false = ground (arith, eq_iff key "") in rw (n, free, on_key, free) refl

  -- Of two requests that create a submission under the same free key, where the other commits after
  -- this one has seen that the key is free, this one leaves no submission behind, the key leads to
  -- the other's, which is stored, and this one is answered with it, or refused if the hashes of
  -- the requests are known and differ.
  pub put_submission_idempotent-race :
      (key hash other_hash : String) (sub other : Submission) (q : SqlStore B)
      → key ≢ ""
      → sub.id ≢ other.id
      → lookup key q.idempotency ≡ none
      → lookup sub.id q.submissions ≡ none
      → let out =
          put_submission_idempotent json
            (committed json key other_hash other)
            key
            hash
            (some sub)
            q in
        (lookup sub.id out.0.submissions ≡ none)
        × (lookup other.id out.0.submissions ≡ some (json.submission.encode other))
        × (lookup key out.0.idempotency
            ≡ some (record { submission_id = other.id; request_hash = other_hash }))
        × (out.1 ≡ (
            if conflicts other_hash hash
            then Put.rejected (SqlError.store_error StoreError.idempotency_conflict)
            else Put.replayed (clone other)))
  unfolding put_submission_idempotent
  put_submission_idempotent-race key hash other_hash sub other q k differ free fresh =
      let n : (key == "") ≡ false = ground (arith, eq_iff key "") in
      let apart : (other.id == sub.id) ≡ false = ground (arith, eq_iff other.id sub.id) in
      let apart' : (sub.id == other.id) ≡ false = ground (arith, eq_iff sub.id other.id) in
      let bound =
        lookup-insert key key (record { submission_id = other.id; request_hash = other_hash })
          q.idempotency in
      let mine = lookup-insert other.id sub.id (json.submission.encode other) q.submissions in
      let theirs = lookup-insert other.id other.id (json.submission.encode other) q.submissions in
      let row : KeyRow = record { submission_id = other.id; request_hash = other_hash } in
      let held : Map B = insert other.id (json.submission.encode other) q.submissions in
      let gone = lookup-delete sub.id sub.id held in
      let stays = lookup-delete sub.id other.id held in
      let read : json.submission.decode (json.submission.encode other) ≡ some (clone other) =
        law.submission other in
      elim (Bool-cases (conflicts other_hash hash)) [
        | inl c ↦
            rw (n, free, on_key, committed_lem key other_hash other q k free, bound, eq_refl key, c)
              (
                mine ∙ ground (arith, apart, fresh),
                theirs ∙ rw (eq_refl other.id) refl,
                bound ∙ rw (eq_refl key) refl,
                refl,
              )
        | inr c ↦
            rw
              (
                n,
                free,
                on_key,
                committed_lem key other_hash other q k free,
                bound,
                eq_refl key,
                c,
                stays,
                apart',
                theirs,
                eq_refl other.id,
                read,
              )
              (
                gone ∙ rw (eq_refl sub.id) refl,
                stays ∙ rw (apart', theirs, eq_refl other.id) refl,
                bound ∙ rw (eq_refl key) refl,
                refl,
              )
      ]
