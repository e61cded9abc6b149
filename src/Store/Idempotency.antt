-- ===== src/Store/Idempotency.antt =====
-- Creating a submission under an idempotency key, and giving the key up again.
use scintx.Base.{
  String, true, false, not, ◌&&◌, List, [], ◌∷◌, All, Bool, Bool-cases, Option-cases, inl, inr, ◌⊎◌,
  ◌∙◌, ap, sym, subst, none, some, lookup, insert, lookup-insert, lookup-delete, ◌==◌, eq_iff,
  eq_refl, if◌then◌else◌, ◌≡◌, ◌≢◌, refl, arith,
}
use scintx.Api.{Submission, SubmissionStatus}
use scintx.Store.{
  MemoryStore, Stored, StoreError, refused, or_empty, replayed, created, clone,
  put_submission_idempotent, abandon_submission,
}

-- The key leads to the submission, with the hash of the request that made it.
pub record Bound (S : Type 0) (key hash : String) (sub : Submission) (s : MemoryStore S)
    : Type 0 where
  pub leads : lookup key s.idempotency ≡ some sub.id
  pub hashed : lookup key s.idem_hash ≡ some hash
  pub stored : lookup sub.id s.submissions ≡ some sub

module _ {S : Type 0} (key hash : String) (sub : Submission) where
  -- Under a free key that is not empty a new submission is stored, without its content, and the
  -- key is bound to it.
  put_submission_idempotent-created :
      (s : MemoryStore S)
      → key ≢ ""
      → lookup key s.idempotency ≡ none
      → ((put_submission_idempotent key hash (some sub) s).1 ≡ created (clone sub))
        × Bound S key hash (clone sub) (put_submission_idempotent key hash (some sub) s).0
  unfolding put_submission_idempotent
  put_submission_idempotent-created s k f =
      let n : (key == "") ≡ false = ground (arith, eq_iff key "") in
      rw (n, f)
        (
          refl,
          record {
            leads = rw (lookup-insert, eq_refl key);
            hashed = rw (lookup-insert, eq_refl key);
            stored = rw (lookup-insert, eq_refl sub.id);
          },
        )

  -- While a key that is not empty is bound, a request with it never changes the store: it is
  -- answered with the stored submission, or refused if both hashes are known and differ.
  put_submission_idempotent-replayed :
      (s : MemoryStore S) (first : Submission) (first_hash : String)
      → key ≢ ""
      → Bound S key first_hash first s
      → put_submission_idempotent key hash (some sub) s ≡ (
        s,
        if not (first_hash == "") && (not (hash == "") && not (first_hash == hash))
            then refused StoreError.idempotency_conflict
            else replayed (clone first),
      )
  unfolding put_submission_idempotent
  put_submission_idempotent-replayed s first first_hash k b =
      let n : (key == "") ≡ false = ground (arith, eq_iff key "") in
      rw (n, b.leads, b.stored, b.hashed) (ground arith)

agreeing :
    (hash again : String)
    → (hash ≡ again) ⊎ ((hash ≡ "") ⊎ (again ≡ ""))
    → (not (hash == "") && (not (again == "") && not (hash == again))) ≡ false
agreeing hash again (inl e) = ground (arith, eq_iff hash again)
agreeing hash again (inr (inl e)) = ground (arith, eq_iff hash "")
agreeing hash again (inr (inr e)) = ground (arith, eq_iff again "")

differing :
    (hash again : String)
    → hash ≢ ""
    → again ≢ ""
    → hash ≢ again
    → (not (hash == "") && (not (again == "") && not (hash == again))) ≡ true
differing hash again a b c = ground (arith, eq_iff hash again, eq_iff hash "", eq_iff again "")

-- A call of PutSubmissionIdempotent: the key, the hash of the request and the submission.
abbrev pub Creation : Type 0
Creation = String × String × Submission

-- The submission that a call would store has another id.
abbrev pub Apart : String → Creation → Type 0
Apart id (key, hash, sub) = sub.id ≢ id

module _ {S : Type 0} where
  abbrev pub create_all : List Creation → MemoryStore S → MemoryStore S
  create_all [] s = s
  create_all ((key, hash, sub) ∷ calls) s =
      create_all calls (put_submission_idempotent key hash (some sub) s).0

  either_Bound :
      (key hash : String) (first : Submission) (s : MemoryStore S) (t : Bool) (x y : Stored)
      → Bound S key hash first s
      → let r : MemoryStore S × Stored = if t then (s, x) else (s, y) in Bound S key hash first r.0
  either_Bound key hash first s true x y b = b
  either_Bound key hash first s false x y b = b

  unbound_Bound :
      (key hash k h : String) (first sub : Submission) (s : MemoryStore S)
      → key ≢ k
      → sub.id ≢ first.id
      → Bound S key hash first s
      → Bound S key hash first (put_submission_idempotent k h (some sub) s).0
  unfolding put_submission_idempotent clone
  unbound_Bound key hash k h first sub s n a b =
      let e : (k == key) ≡ false = ground (arith, eq_iff k key) in
      let d : (sub.id == first.id) ≡ false = ground (arith, eq_iff sub.id first.id) in
      let kept : lookup first.id (insert sub.id (clone sub) s.submissions) ≡ some first =
        rw (lookup-insert, d) b.stored in
      elim (Bool-cases (k == "")) [
        | inl z ↦ rw z (record { leads = b.leads; hashed = b.hashed; stored = kept })
        | inr z ↦ elim (Option-cases (lookup k s.idempotency)) [
          | inl f ↦
              rw (z, f)
                (record {
                  leads = rw (lookup-insert, e) b.leads;
                  hashed = rw (lookup-insert, e) b.hashed;
                  stored = kept;
                })
          | inr (id, f) ↦ elim (Option-cases (lookup id s.submissions)) [
            | inl g ↦
                rw (z, f, g)
                  (record {
                    leads = rw (lookup-insert, e, lookup-delete, e) b.leads;
                    hashed = rw (lookup-insert, e, lookup-delete, e) b.hashed;
                    stored = kept;
                  })
            | inr (old, g) ↦
                rw (z, f, g)
                  (either_Bound key hash first s
                    (not (or_empty (lookup k s.idem_hash) == "")
                      && (not (h == "") && not (or_empty (lookup k s.idem_hash) == h)))
                    _ _ b)
          ]
        ]
      ]

  step-Bound :
      (key hash : String) (first : Submission) (c : Creation) (s : MemoryStore S)
      → key ≢ ""
      → Apart first.id c
      → Bound S key hash first s
      → Bound S key hash first (create_all (c ∷ []) s)
  step-Bound key hash first (k, h, sub) s n a b = elim (Bool-cases (key == k)) [
    | inl e ↦
        let q = (eq_iff key k).0 e in
        let same =
          ap (λ r. r.0)
            (put_submission_idempotent-replayed k h sub s first hash (λ z. n (q ∙ z))
              (subst (λ j. Bound S j hash first s) q b)) in
        subst (Bound S key hash first) (sym same) b
    | inr e ↦ unbound_Bound key hash k h first sub s (λ q. ground (arith, eq_iff key k)) a b
  ]

  calls-Bound :
      (key hash : String) (first : Submission) (calls : List Creation) (s : MemoryStore S)
      → key ≢ ""
      → All (Apart first.id) calls
      → Bound S key hash first s
      → Bound S key hash first (create_all calls s)
  calls-Bound key hash first [] s n a b = b
  calls-Bound key hash first (c ∷ calls) s n a b =
      calls-Bound key hash first calls (create_all (c ∷ []) s) n a.1
        (step-Bound key hash first c s n a.0 b)

  -- A submission that is created under a free key that is not empty is the only one of the key: after
  -- any further creations, under this key or others, of submissions with other ids, a retry under the
  -- key gets the first submission and changes nothing if its request has the same hash or either hash
  -- is not known, and is refused and changes nothing if the hashes differ.
  pub put_submission_idempotent-once :
      (key hash again : String) (sub other : Submission) (calls : List Creation) (s : MemoryStore S)
      → key ≢ ""
      → lookup key s.idempotency ≡ none
      → All (Apart sub.id) calls
      → let later = create_all ((key, hash, sub) ∷ calls) s in
        let retry = put_submission_idempotent key again (some other) later in
        ((put_submission_idempotent key hash (some sub) s).1 ≡ created (clone sub))
        × (((hash ≡ again) ⊎ ((hash ≡ "") ⊎ (again ≡ ""))) → retry ≡ (later, replayed (clone sub)))
        × (hash ≢ ""
            → again ≢ ""
            → hash ≢ again
            → retry ≡ (later, refused StoreError.idempotency_conflict))
  unfolding clone
  put_submission_idempotent-once key hash again sub other calls s n f a =
      let (answer, bound) = put_submission_idempotent-created key hash sub s n f in
      let b = calls-Bound key hash (clone sub) calls _ n a bound in
      let r =
        put_submission_idempotent-replayed key again other (create_all calls _) (clone sub) hash n
          b in
      (
        answer,
        (λ e. r ∙ rw (agreeing hash again e) refl),
        (λ x y z. r ∙ rw (differing hash again x y z) refl),
      )

-- Giving up an accepted submission, under the key that leads to it, removes it and its job and
-- frees the key, and leaves every other submission and job; one that has left the accepted state
-- is refused and nothing changes.
abandon_submission-frees :
    {S : Type 0} (key hash : String) (sub : Submission) (s : MemoryStore S)
    → key ≢ ""
    → Bound S key hash sub s
    → (sub.status ≡ SubmissionStatus.accepted
        → let s' = (abandon_submission sub.id key s).0 in
          (lookup key s'.idempotency ≡ none)
          × ((id : String)
              → lookup id s'.submissions ≡ (if sub.id == id then none else lookup id s.submissions))
          × ((id : String) → lookup id s'.jobs ≡ (if sub.id == id then none else lookup id s.jobs)))
      × (sub.status ≢ SubmissionStatus.accepted
          → abandon_submission sub.id key s ≡ (s, some StoreError.abandon_rejected))
unfolding abandon_submission
abandon_submission-frees key hash sub s k b =
    let n : (key == "") ≡ false = ground (arith, eq_iff key "") in
    (
      λ a.
          rw (b.stored, abandon_submission, a, n, b.leads, eq_refl sub.id)
            (
              rw (lookup-delete, eq_refl key),
              λ id. lookup-delete sub.id id s.submissions,
              λ id. lookup-delete sub.id id s.jobs,
            ),
      λ a. rw (b.stored, abandon_submission) (ground arith),
    )
