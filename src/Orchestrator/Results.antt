-- ===== src/Orchestrator/Results.antt =====
-- The providers' side of `Process`: the artifact they are given, which of them are asked, and what
-- is stored of their answers. A provider, the cache and SHA-256 are arguments.
use scintx.Base.{
  ℕ, String, ◌^^◌, Bool, true, false, not, Option, none, some, List, [], ◌∷◌, ◌++◌, map, flat_map,
  is_empty, Map, lookup, keys, ◌==◌, starts_with, if◌then◌else◌, trim_space, sort, join,
}
use Prim.Native.String.{len, slice}
use scintx.Api.{
  Time, Duration, shift, Fields, Artifact, ResourceReference, Capability, ProviderCapabilities,
  ProviderResult, ProviderErrorCode, CacheInfo, ExecutionStatus,
}
use scintx.Matching.{matching_capability}
use scintx.Purl.{canonical_purl, purl_type}
use scintx.Store.{MemoryStore}
use scintx.Store.Records.{get_artifact}

-- What Assess returns: a result or an error.
pub data Assessed (S : Type 0) : Type 0 where
  assessed : ProviderResult S → Assessed S
  assess_failed : String → Assessed S

-- api.Provider; the number tells one call from another, and `receives` says whether the provider
-- is an AdjudicationReceiver.
pub record Provider (S : Type 0) : Type 0 where
  pub id : String
  pub capabilities : ProviderCapabilities
  pub assess : ℕ → Artifact → Capability → Assessed S
  pub receives : Bool

-- selectedProvider
pub record SelectedProvider (S : Type 0) : Type 0 where
  pub capability : Capability
  pub impl : Provider S

abbrev pub blob_urn_prefix : String
blob_urn_prefix = "urn:scintx:blob:"

-- BlobURN
unfoldable pub blob_urn : String → String
blob_urn digest = blob_urn_prefix ^^ digest

-- LocalBlobDigest
unfoldable pub local_blob_digest : String → Option String
local_blob_digest uri =
    let trimmed = trim_space uri in
    let digest = slice trimmed (len blob_urn_prefix) (len trimmed) in
    if not (starts_with trimmed blob_urn_prefix)
    then none
    else if digest == ""
    then none
    else some digest

module _ {S : Type 0} where
  abbrev load_blob : Artifact → Option String → MemoryStore S → Option Artifact
  load_blob artifact none store = some artifact
  load_blob artifact (some digest) store = elim (get_artifact digest store) [
    | none ↦ none
    | some body ↦ some (record artifact { content = body })
  ]

  -- hydrateLocalBlob; `none` if the store lacks the blob
  unfoldable pub hydrate_local_blob : Artifact → MemoryStore S → Option Artifact
  unfolding local_blob_digest
  hydrate_local_blob artifact store = elim artifact.content_ref [
    | none ↦ some artifact
    | some ref ↦ load_blob artifact (local_blob_digest ref.uri) store
  ]

-- Only the first part of the answer of MatchingCapability is used.
abbrev matched : {S : Type 0} → Provider S → Option Capability → List (SelectedProvider S)
matched p none = []
matched p (some c) = record { capability = c; impl = p } ∷ []

abbrev or_raw : String → Option String → String
or_raw raw none = raw
or_raw raw (some s) = s

abbrev canonical_if : Option String → Option String
canonical_if none = none
canonical_if (some purl) = some (or_raw purl (canonical_purl purl))

-- The artifact with the canonical form of its purl, if it has one.
unfoldable pub canonical_artifact : Artifact → Artifact
unfolding canonical_purl
canonical_artifact artifact = record artifact { purl = canonical_if artifact.purl }

-- The two loops that select the providers.
unfoldable pub select :
    {S : Type 0} → List (Provider S) → Artifact → List String → List (SelectedProvider S)
unfolding matching_capability canonical_purl purl_type
select providers artifact requested =
    flat_map
      (λ cap.
        flat_map
          (λ p.
            matched p
              (matching_capability canonical_purl purl_type artifact p.capabilities.capabilities
                cap).0)
          providers)
      requested

abbrev purl_part : Option String → List String
purl_part none = []
purl_part (some purl) =
    if purl == "" then [] else ("purl=" ^^ or_raw purl (canonical_purl purl)) ∷ []

abbrev digest_of : Map String → String → String
digest_of digests k = elim (lookup k digests) [ none ↦ "" | some d ↦ d ]

abbrev content_part : Option ResourceReference → List String
content_part none = []
content_part (some ref) = if ref.uri == "" then [] else ("content=" ^^ ref.uri) ∷ []

-- artifactFingerprint
unfoldable pub artifact_fingerprint : Artifact → String
unfolding canonical_purl
artifact_fingerprint a =
    let parts =
      purl_part a.purl
      ++ (map (λ k. "digest." ^^ (k ^^ ("=" ^^ digest_of a.digests k))) (sort (keys a.digests))
          ++ content_part a.content_ref) in
    if is_empty parts then "empty" else join ";" parts

-- ResultCacheKey; `hash` stands for SHA-256 in hexadecimal digits
unfoldable pub result_cache_key : (String → String) → String → String → Artifact → String
unfolding artifact_fingerprint
result_cache_key hash provider_id capability_id artifact =
    "scintx:result:v1:"
    ^^ hash (join "|" (provider_id ∷ capability_id ∷ artifact_fingerprint artifact ∷ []))

module _ {S : Type 0} where
  -- MaterializeCachedResult
  unfoldable pub materialize_cached_result :
      String → Time → ProviderResult S → String → Duration → ProviderResult S
  unfolding shift
  materialize_cached_result random_hex now cached submission_id ttl = record cached {
    id = "res_" ^^ random_hex;
    submission_id = submission_id;
    cache = some (record {
      hit = true;
      original_result_id = cached.id;
      valid_until = some (shift now ttl);
      freshness_basis = "provider_result_cache";
    });
  }

  -- The result that stands for an error of Assess; it lacks all but what the code sets.
  abbrev failed_result : String → Time → String → ProviderResult S
  failed_result random_hex now message = record {
    id = "res_" ^^ random_hex;
    schema_version = "";
    submission_id = "";
    provider = record { id = ""; version = "" };
    capabilities = [];
    capability_manifest_digest = "";
    execution = record {
      status = ExecutionStatus.error;
      started_at = now;
      finished_at = now;
      error = some (record {
        code = ProviderErrorCode.transport_error;
        message = message;
        detail = Fields.end;
      });
    };
    verdict = none;
    findings = [];
    raw_result = none;
    cache = none;
    extensions = Fields.end;
  }

  unfoldable pub or_failed : String → Time → Assessed S → ProviderResult S
  or_failed random_hex now (assessed r) = r
  or_failed random_hex now (assess_failed message) = failed_result random_hex now message

abbrev pub is_hit : Option CacheInfo → Bool
is_hit none = false
is_hit (some c) = c.hit

abbrev pub event_type : ExecutionStatus → String
event_type ExecutionStatus.error = "org.eclipse.scintx.provider.result.error.v1"
event_type ExecutionStatus.timeout = "org.eclipse.scintx.provider.result.timeout.v1"
event_type _ = "org.eclipse.scintx.provider.result.completed.v1"

-- What the cache answers to the n-th question; `none` for a miss and for an error.
abbrev pub CacheGet : Type 0 → Type 0
CacheGet S = ℕ → String → Option (ProviderResult S)
