-- ===== src/Tests/Serving.antt =====
-- The handlers, at a request that finds a place and at a pool that is closed in between.
use scintx.Base.{
  ℕ, String, ◌^^◌, false, Option, none, some, [], ◌∷◌, lookup, insert, inl, ◌≡◌, refl,
}
use scintx.Api.{SubmissionStatus}
use scintx.Store.{MemoryStore, new_memory_store}
use scintx.LocalPool.{new_local_pool, close}
use scintx.Server.Answers.{Front, decoded}
use scintx.Server.Submissions.{CreateSubmissionRequest, IdempotencyPayload, create_submission}
use scintx.Server.Resuming.{resume_submission}
use scintx.Server.Settling.{Settles, LiveKey}
use scintx.Server.Atomic.{create_submission-Settles}
use scintx.Server.Retry.{Resumes, resume_submission-Resumes}
use scintx.Tests.Lifecycle.{out}
use scintx.Tests.Samples.{submission}

abbrev request : CreateSubmissionRequest
request = record {
  schema_version = "";
  artifact = submission.artifact;
  requested_capabilities = "vuln" ∷ [];
  policy_ref = some "default";
}

abbrev marshal : IdempotencyPayload → Option String
marshal p = some p.schema_version

abbrev digest : String → String
digest s = s

abbrev nothing_stored : MemoryStore ℕ
nothing_stored = new_memory_store

abbrev front : Front ℕ
front = record {
  gateway = record { store = nothing_stored; seq = 0; draws = 0 };
  pool = some (new_local_pool 2 1);
}

id-unused :
    lookup ("sub_" ^^ out.random_hex front.gateway.draws) front.gateway.store.submissions ≡ none
unfolding lookup
id-unused = refl

key-unused : LiveKey "key" front.gateway.store
unfolding lookup
key-unused = inl refl

create_submission-Settles_example :
    let (f', answer) =
      create_submission out marshal digest false close "key" (decoded request) front in
    Settles false close front.gateway.store front.pool f' answer.body
create_submission-Settles_example =
    create_submission-Settles out marshal digest false close "key" (decoded request) front
      key-unused id-unused

-- The pool takes the request.
taken :
    (create_submission out marshal digest false (λ p. p) "key" (decoded request) front).1.status
    ≡ 202
unfolding create_submission lookup new_local_pool
taken = refl

-- The pool is closed after the reservation.
given_up :
    (create_submission out marshal digest false close "key" (decoded request) front).1.status ≡ 503
unfolding create_submission lookup close new_local_pool
given_up = refl

abbrev waiting : Front ℕ
waiting = record {
  gateway = record {
    store = record nothing_stored {
      submissions = ("sub_1", record submission { status = SubmissionStatus.deferred }) ∷ [];
    };
    seq = 0;
    draws = 0;
  };
  pool = some (new_local_pool 2 1);
}

resume_submission-Resumes_example :
    let (f', answer) = resume_submission false "sub_1" waiting in
    Resumes false "sub_1" waiting f' answer.body
resume_submission-Resumes_example = resume_submission-Resumes false "sub_1" waiting

resumed : (resume_submission false "sub_1" waiting).1.status ≡ 202
unfolding resume_submission lookup new_local_pool insert
resumed = refl
