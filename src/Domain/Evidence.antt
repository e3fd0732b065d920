-- ===== src/Domain/Evidence.antt =====
-- data/domain/evidence.py. The members of a `StrEnum` are texts: `scope_value` and
-- `code_value` give the texts, and two members are equal as their texts are.
use supply_response.Base.{String, Option, List, Bool}
use supply_response.Domain.Common.{Instant, RuntimeMode}

pub data EvidenceKind : Type 0 where
  operational_fact source_statement prerequisite contextual_evidence : EvidenceKind

pub data EvidenceSourceSystem : Type 0 where
  fabric sqlite work_iq server synthetic_fixture : EvidenceSourceSystem

pub data AuthorityScope : Type 0 where
  operational_quantity operational_date qualification_state : AuthorityScope
  supplier_statement collaboration_statement prerequisite_approval : AuthorityScope

pub data EvidenceRequirement : Type 0 where
  required_authoritative contextual : EvidenceRequirement

pub data FreshnessState : Type 0 where
  current stale : FreshnessState

pub data BusinessValidityState : Type 0 where
  valid not_yet_effective expired : BusinessValidityState

pub data UncertaintyState : Type 0 where
  certain uncertain conflicted : UncertaintyState

pub data RetrievalHealth : Type 0 where
  healthy unhealthy : RetrievalHealth

pub data IdentitySource : Type 0 where
  entra : IdentitySource

pub data EvidenceBlockingCode : Type 0 where
  required_evidence_missing required_evidence_not_authoritative : EvidenceBlockingCode
  required_citation_missing required_source_metadata_missing : EvidenceBlockingCode
  evidence_timestamp_stale evidence_retrieval_outside_window : EvidenceBlockingCode
  retrieval_health_unacceptable evidence_not_yet_effective evidence_expired : EvidenceBlockingCode
  evidence_conflict_unresolved conflict_resolution_invalid : EvidenceBlockingCode
  authority_scope_mismatch provenance_mismatch : EvidenceBlockingCode

pub record EvidenceItem : Type 0 where
  pub evidence_id : String
  pub case_id : String
  pub kind : EvidenceKind
  pub authority_scope : List AuthorityScope
  pub source_system : EvidenceSourceSystem
  pub source_id : String
  pub source_timestamp : Option Instant
  pub retrieved_at : Option Instant
  pub retrieved_for_analysis_id : String
  pub retrieval_health : RetrievalHealth
  pub effective_at : Option Instant
  pub expires_at : Option Instant
  pub claim : String
  pub excerpt : Option String
  pub citation_url : Option String
  pub runtime_mode : RuntimeMode
  pub synthetic : Bool
  pub requirement : EvidenceRequirement
  pub uncertainty_state : UncertaintyState
  pub citation_classification : Option String
  pub navigable_citation_url : Option String
  pub citation_trusted_host : Option String

pub record EvidenceConflict : Type 0 where
  pub conflict_id : String
  pub case_id : String
  pub evidence_ids : List String
  pub authority_scope : List AuthorityScope
  pub description : String
  pub feasibility_relevant : Bool

pub record ActorProvenance : Type 0 where
  pub persona_id : String
  pub roles : List String
  pub identity_source : IdentitySource
  pub source_id : String

pub record ConflictResolution : Type 0 where
  pub conflict_id : String
  pub governing_evidence_id : String
  pub actor : ActorProvenance
  pub why : String

pub record EvidenceItemValidation : Type 0 where
  pub evidence_id : String
  pub requirement : EvidenceRequirement
  pub validated_authority_scope : List AuthorityScope
  pub freshness : FreshnessState
  pub business_validity : BusinessValidityState
  pub uncertainty_state : UncertaintyState
  pub retrieval_health : RetrievalHealth
  pub authoritative : Bool
  pub blocking_codes : List EvidenceBlockingCode

pub record EvidenceValidation : Type 0 where
  pub policy_version : String
  pub item_results : List EvidenceItemValidation
  pub blocking_codes : List EvidenceBlockingCode
  pub global_blocking_codes : List EvidenceBlockingCode

-- The texts of the members.
unfoldable pub scope_value : AuthorityScope → String
scope_value operational_quantity = "operational_quantity"
scope_value operational_date = "operational_date"
scope_value qualification_state = "qualification_state"
scope_value supplier_statement = "supplier_statement"
scope_value collaboration_statement = "collaboration_statement"
scope_value prerequisite_approval = "prerequisite_approval"

unfoldable pub code_value : EvidenceBlockingCode → String
code_value required_evidence_missing = "REQUIRED_EVIDENCE_MISSING"
code_value required_evidence_not_authoritative = "REQUIRED_EVIDENCE_NOT_AUTHORITATIVE"
code_value required_citation_missing = "REQUIRED_CITATION_MISSING"
code_value required_source_metadata_missing = "REQUIRED_SOURCE_METADATA_MISSING"
code_value evidence_timestamp_stale = "EVIDENCE_TIMESTAMP_STALE"
code_value evidence_retrieval_outside_window = "EVIDENCE_RETRIEVAL_OUTSIDE_WINDOW"
code_value retrieval_health_unacceptable = "RETRIEVAL_HEALTH_UNACCEPTABLE"
code_value evidence_not_yet_effective = "EVIDENCE_NOT_YET_EFFECTIVE"
code_value evidence_expired = "EVIDENCE_EXPIRED"
code_value evidence_conflict_unresolved = "EVIDENCE_CONFLICT_UNRESOLVED"
code_value conflict_resolution_invalid = "CONFLICT_RESOLUTION_INVALID"
code_value authority_scope_mismatch = "AUTHORITY_SCOPE_MISMATCH"
code_value provenance_mismatch = "PROVENANCE_MISMATCH"
