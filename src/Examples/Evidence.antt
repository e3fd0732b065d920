-- ===== src/Examples/Evidence.antt =====
-- An item of evidence of the RL-001 scenario, and a conflict about it. No address is navigable.
use supply_response.Base.{
  ◌≡◌, refl, String, true, false, none, some, Option, List, [], ◌∷◌, All, any, contains, str_leb,
  strip,
}
use supply_response.Base.Result.{ok, err}
use supply_response.Domain.Common.{fallback}
use supply_response.Domain.Evidence.{
  EvidenceItem, EvidenceValidation, EvidenceConflict, ActorProvenance, operational_fact,
  operational_quantity, operational_date, synthetic_fixture, healthy, required_authoritative,
  certain, entra, AuthorityScope,
}
use supply_response.Policy.Evidence.{
  Run, evidence_policy_version, is_blank, scope_set, non_empty, policy_violation,
}
use supply_response.Policy.Evidence.Permitted.{Permitted, Retrieved, InForce}
use supply_response.Policy.Evidence.Item.{
  item_validation, is_conflicted, is_cited, item_validation-authoritative,
}
use supply_response.Policy.Evidence.Resolver.{
  covers, result_of, resolve_conflict, resolution, validated_conflict_scope, resolves_all,
  resolve_conflict-agent, resolve_conflict-authority,
}

abbrev pub no_address : String → Option (String × String)
no_address url = some ("", "")

abbrev pub receipt : EvidenceItem
receipt = record {
  evidence_id = "RL-ALPHA-OPTIONAL-3000";
  case_id = "RL-CASE-1";
  kind = operational_fact;
  authority_scope = operational_quantity ∷ operational_date ∷ [];
  source_system = synthetic_fixture;
  source_id = "RL-SOURCE-RL-ALPHA-OPTIONAL-3000";
  source_timestamp = some 1000;
  retrieved_at = some 1000;
  retrieved_for_analysis_id = "RL-ANALYSIS-1";
  retrieval_health = healthy;
  effective_at = some 500;
  expires_at = some 5000;
  claim = "Alpha partial shipment quantity and date are confirmed.";
  excerpt = none;
  citation_url = none;
  runtime_mode = fallback;
  synthetic = true;
  requirement = required_authoritative;
  uncertainty_state = certain;
  citation_classification = none;
  navigable_citation_url = none;
  citation_trusted_host = none;
}

abbrev pub run : Run
run = record {
  analysis_id = "RL-ANALYSIS-1";
  runtime_mode = fallback;
  scenario_effective_time = 700;
  analysis_started_at = 900;
  analysis_recorded_at = 1100;
}

receipt-authoritative : (item_validation no_address receipt run []).authoritative ≡ true
unfolding item_validation str_leb
receipt-authoritative = refl

item_validation-authoritative_example :
    (receipt.requirement ≡ required_authoritative)
    × ((item_validation no_address receipt run []).blocking_codes ≡ [])
    × Permitted receipt fallback
    × Retrieved receipt run
    × InForce receipt run
    × (is_conflicted receipt.uncertainty_state ≡ false)
    × (contains receipt.evidence_id [] ≡ false)
    × (is_cited no_address receipt run ≡ true)
item_validation-authoritative_example =
    item_validation-authoritative no_address receipt run [] receipt-authoritative

abbrev validation : EvidenceValidation
validation = record {
  policy_version = evidence_policy_version;
  item_results = item_validation no_address receipt run [] ∷ [];
  blocking_codes = [];
  global_blocking_codes = [];
}

abbrev pub conflict : EvidenceConflict
conflict = record {
  conflict_id = "RL-CONFLICT-1";
  case_id = "RL-CASE-1";
  evidence_ids = "RL-ALPHA-OPTIONAL-3000" ∷ [];
  authority_scope = operational_date ∷ [];
  description = "Two dates of one receipt.";
  feasibility_relevant = true;
}

abbrev person : List String → ActorProvenance
person roles = record {
  persona_id = "RL-PERSONA-ALEX";
  roles = roles;
  identity_source = entra;
  source_id = "RL-ENTRA-ALEX";
}

abbrev pub alex : ActorProvenance
alex = person ("material_planner" ∷ [])

abbrev agent : ActorProvenance
agent = person ("agent" ∷ "material_planner" ∷ [])

resolved_conflict :
    resolve_conflict conflict validation alex "RL-ALPHA-OPTIONAL-3000" "confirmed"
    ≡ ok (resolution conflict alex "RL-ALPHA-OPTIONAL-3000" "confirmed")
unfolding resolve_conflict item_validation str_leb strip
resolved_conflict = refl

resolve_conflict-authority_example :
    (contains "RL-ALPHA-OPTIONAL-3000" conflict.evidence_ids ≡ true)
    × (is_blank "confirmed" ≡ false)
    × (contains "agent" alex.roles ≡ false)
    × ((scopes : List AuthorityScope) × (validated_conflict_scope conflict validation.item_results
          ≡ ok scopes)
        × (scopes ≡ scope_set conflict.authority_scope)
        × (non_empty conflict.evidence_ids ≡ true)
        × All
            (λ i. covers scopes (result_of i validation.item_results) ≡ true)
            conflict.evidence_ids
        × (any (resolves_all scopes) alex.roles ≡ true))
resolve_conflict-authority_example =
    resolve_conflict-authority conflict validation alex "RL-ALPHA-OPTIONAL-3000" "confirmed"
      (resolution conflict alex "RL-ALPHA-OPTIONAL-3000" "confirmed") resolved_conflict

an_agent : contains "agent" agent.roles ≡ true
unfolding contains
an_agent = refl

resolve_conflict-agent_example :
    resolve_conflict conflict validation agent "RL-ALPHA-OPTIONAL-3000" "confirmed"
    ≡ err policy_violation
resolve_conflict-agent_example =
    resolve_conflict-agent conflict validation agent "RL-ALPHA-OPTIONAL-3000" "confirmed" an_agent
