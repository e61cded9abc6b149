-- ===== src/SqlStore/Creation.antt =====
-- internal/store/sql_ops.go: the statements that store submissions and bind keys keep the tables
-- in step with the maps of the in-memory store.
use scintx.Base.{
  String, Option, none, some, lookup, insert, lookup-insert, ◌==◌, ◌≡◌, ◌≢◌, refl, ap, ◌∙◌, arith,
  Bool-cases, Option-cases, inl, inr,
}
use scintx.Api.{Submission}
use scintx.Store.{MemoryStore, StoreError, Stored, clone, clone_option, or_empty}
use scintx.Store
use scintx.SqlStore.{
  Codecs, SqlStore, SqlError, Fetched, found, missing, fetch, Put, on_key, put_submission,
  put_submission_idempotent, remember_idempotency_key, get_submission_by_key,
}
use scintx.SqlStore.Laws.{Faithful}
use scintx.SqlStore.Tables.{
  rows_of, lookup-rows_of, insert-rows_of, key_rows, key_row_of, lookup-key_rows, insert-key_rows,
  insert-key_rows_bare, Mirrors,
}

abbrev pub fetched : {A : Type 0} → Option A → Fetched A
fetched none = missing
fetched (some a) = found a

-- The answer of PutSubmissionIdempotent in the words of the SQL store.
abbrev pub put_of : Stored → Put
put_of Stored.ignored = Put.ignored
put_of (Stored.refused e) = Put.rejected (SqlError.store_error e)
put_of (Stored.replayed sub) = Put.replayed sub
put_of (Stored.created sub) = Put.created sub

-- A key that is bound leads to a submission that is stored.
abbrev pub Live : {S : Type 0} → Option String → MemoryStore S → Type 0
Live none m = Unit
Live (some id) m = lookup id m.submissions ≢ none

module _ {S B : Type 0} (json : Codecs S B) (law : Faithful json) where
  module _ (q : SqlStore B) (m : MemoryStore S) (h : Mirrors json q m) where
    pub fetch_lem :
        (id : String)
        → fetch json.submission (lookup id q.submissions)
          ≡ fetched (clone_option (lookup id m.submissions))
    fetch_lem id = elim (Option-cases (lookup id m.submissions)) [
      | inl e ↦ rw (h.submissions, lookup-rows_of, e) refl
      | inr (sub, e) ↦ rw (h.submissions, lookup-rows_of, e, law.submission sub) refl
    ]

    pub write_rows :
        (id : String) (sub : Submission)
        → insert id (json.submission.encode sub) q.submissions
          ≡ rows_of json.submission.encode (insert id (clone sub) m.submissions)
    write_rows id sub =
        rw (h.submissions, ← law.not_serialised sub)
          (insert-rows_of json.submission.encode id (clone sub) m.submissions)

    pub key_lem :
        (key : String)
        → lookup key q.idempotency ≡ key_row_of key m.idem_hash (lookup key m.idempotency)
    key_lem key = rw h.idempotency (lookup-key_rows key m.idempotency m.idem_hash)

    pub put_submission-Mirrors :
        (sub : Option Submission)
        → Mirrors json (put_submission json sub q) (Store.put_submission sub m)
    unfolding put_submission Store.put_submission
    put_submission-Mirrors none = h
    put_submission-Mirrors (some sub) = ground (arith, h, write_rows sub.id sub)

    -- The rows of a submission and of its key, which was not bound.
    bind-Mirrors :
        (key hash : String) (sub : Submission)
        → lookup key m.idempotency ≡ none
        → Mirrors json
            (record q {
              submissions = insert sub.id (json.submission.encode sub) q.submissions;
              idempotency =
                  insert key (record { submission_id = sub.id; request_hash = hash }) q.idempotency;
            })
            (record m {
              submissions = insert sub.id (clone sub) m.submissions;
              idempotency = insert key sub.id m.idempotency;
              idem_hash = insert key hash m.idem_hash;
            })
    bind-Mirrors key hash sub e =
        let keyed : insert key (record { submission_id = sub.id; request_hash = hash })
              q.idempotency
            ≡ key_rows (insert key sub.id m.idempotency) (insert key hash m.idem_hash) =
          rw h.idempotency (insert-key_rows key sub.id hash m.idempotency m.idem_hash e) in
        let unbound : (k : String)
            → lookup k (insert key sub.id m.idempotency) ≡ none
            → lookup k (insert key hash m.idem_hash) ≡ none =
          λ k n. ground (
            arith,
            lookup-insert key k sub.id m.idempotency,
            lookup-insert key k hash m.idem_hash,
            h.unbound k,
          ) in
        ground (arith, h, write_rows sub.id sub, keyed, unbound)

    pub put_submission_idempotent-Mirrors :
        (key hash : String) (sub : Option Submission)
        → Live (lookup key m.idempotency) m
        → Mirrors json
            (put_submission_idempotent json (λ t. t) key hash sub q).0
            (Store.put_submission_idempotent key hash sub m).0
    unfolding put_submission_idempotent Store.put_submission_idempotent
    put_submission_idempotent-Mirrors key hash none l = h
    put_submission_idempotent-Mirrors key hash (some sub) l = elim (Bool-cases (key == "")) [
      | inl e ↦ rw e (ground (arith, h, write_rows sub.id sub))
      | inr e ↦ elim (Option-cases (lookup key m.idempotency)) [
        | inl n ↦
            let free = key_lem key ∙ ap (key_row_of key m.idem_hash) n in
            rw (e, n, free, on_key, free) (bind-Mirrors key hash sub n)
        | inr (id, b) ↦ elim (Option-cases (lookup id m.submissions)) [
          | inl d ↦ ground (arith, d)
          | inr (first, f) ↦ rw (e, key_lem key, b, f) (ground (arith, h))
        ]
      ]
    ]

    pub put_submission_idempotent-answer :
        (key hash : String) (sub : Option Submission)
        → Live (lookup key m.idempotency) m
        → (put_submission_idempotent json (λ t. t) key hash sub q).1
          ≡ put_of (Store.put_submission_idempotent key hash sub m).1
    unfolding put_submission_idempotent Store.put_submission_idempotent
    put_submission_idempotent-answer key hash none l = refl
    put_submission_idempotent-answer key hash (some sub) l = elim (Bool-cases (key == "")) [
      | inl e ↦ rw e refl
      | inr e ↦ elim (Option-cases (lookup key m.idempotency)) [
        | inl n ↦
            let free = key_lem key ∙ ap (key_row_of key m.idem_hash) n in
            rw (e, n, free, on_key, free) refl
        | inr (id, b) ↦ elim (Option-cases (lookup id m.submissions)) [
          | inl d ↦ ground (arith, d)
          | inr (first, f) ↦ rw (e, key_lem key, b, f, fetch_lem id) (ground arith)
        ]
      ]
    ]

    pub remember_idempotency_key-Mirrors :
        (key id : String)
        → Mirrors json
            (remember_idempotency_key json key id q)
            (Store.remember_idempotency_key key id m)
    unfolding remember_idempotency_key Store.remember_idempotency_key
    remember_idempotency_key-Mirrors key id = elim (Bool-cases (key == "")) [
      | inl e ↦ rw e h
      | inr e ↦ elim (Option-cases (lookup key m.idempotency)) [
        | inl n ↦
            let keyed : insert key (record { submission_id = id; request_hash = "" }) q.idempotency
                ≡ key_rows (insert key id m.idempotency) m.idem_hash =
              rw h.idempotency
                (insert-key_rows_bare key id m.idempotency m.idem_hash n (h.unbound key n)) in
            let unbound : (k : String)
                → lookup k (insert key id m.idempotency) ≡ none
                → lookup k m.idem_hash ≡ none =
              λ k x. ground (arith, lookup-insert key k id m.idempotency, h.unbound k) in
            rw (e, key_lem key, n) (ground (arith, h, keyed, unbound))
        | inr (bound, b) ↦ rw (e, key_lem key, b) (ground (arith, h))
      ]
    ]

    pub get_submission_by_key-answer :
        (key : String)
        → get_submission_by_key json key q ≡ fetched (Store.get_submission_by_key key m)
    unfolding get_submission_by_key Store.get_submission_by_key
    get_submission_by_key-answer key = elim (Bool-cases (key == "")) [
      | inl e ↦ rw e refl
      | inr e ↦ elim (Option-cases (lookup key m.idempotency)) [
        | inl n ↦ rw (e, key_lem key, n) refl
        | inr (id, b) ↦ rw (e, key_lem key, b) (fetch_lem id)
      ]
    ]
