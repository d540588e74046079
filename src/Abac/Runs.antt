-- ===== src/Abac/Runs.antt =====
-- Concrete policies, and the theorems on decisions at them.
use gems.Prelude.{
  All, map, ℕ, ◌≡◌, ◌↔◌, ◌⊎◌, inl, inr, refl, true, false, none, some, List, [], ◌∷◌, Member,
  replicate,
}
use gems.Prelude.Sets.{contains}
use gems.Prelude.Ascending.{IsAscending}
use gems.Catalog.Kind.{plain_data, link}
use gems.Catalog.Header.{EntityHeader, Tuid, nil}
use gems.Catalog.Policy.{Effect, Policy, applies}
use gems.Abac.Decision.{SubjectContext, deny, evaluate}
use gems.Abac.Enforcement.{
  Entity, enforce, IsReturned, header_of, permitted_headers, enforce-returns,
}
use gems.Abac.Verdict.{
  any, forbids, allows, hides, evaluate-denies, evaluate-redacts, evaluate-same_policies,
}

abbrev auditor : Tuid
auditor = replicate 24 7

abbrev reader : SubjectContext
reader = record { subject_id = replicate 24 1; roles = auditor ∷ [] }

-- Anyone may read data without its attribute 9, auditors without 4 and 9, and nobody reads links.
abbrev public : Policy
unfolding nil
public = record {
  target = record { entity_kind = some plain_data; schema_ref = nil };
  subject = record { subject_id = nil; role_id = nil };
  effect = Effect.permit;
  redact_attributes = 9 ∷ [];
}

abbrev audit : Policy
unfolding nil
audit = record {
  target = record { entity_kind = none; schema_ref = nil };
  subject = record { subject_id = nil; role_id = auditor };
  effect = Effect.permit;
  redact_attributes = 9 ∷ 4 ∷ [];
}

abbrev no_links : Policy
unfolding nil
no_links = record {
  target = record { entity_kind = some link; schema_ref = nil };
  subject = record { subject_id = nil; role_id = nil };
  effect = Effect.deny;
  redact_attributes = [];
}

abbrev policies : List Policy
policies = public ∷ audit ∷ no_links ∷ []

evaluate-denies_example : (evaluate policies reader link nil ≡ deny) ↔ (
    (any (forbids reader link nil) policies ≡ true)
    ⊎ (any (allows reader link nil) policies ≡ false))
evaluate-denies_example = evaluate-denies reader link nil policies

evaluate-redacts_example :
    IsAscending (4 ∷ 9 ∷ [])
    × ((a : ℕ) → contains (4 ∷ 9 ∷ []) a ≡ any (hides reader plain_data nil a) policies)
unfolding evaluate applies
evaluate-redacts_example = evaluate-redacts reader plain_data nil policies (4 ∷ 9 ∷ []) refl

twice : (p : Policy) → Member p policies ↔ Member p (public ∷ policies)
twice p = (λ m. inr m, λ m. elim m [ inl e ↦ inl e | inr m' ↦ m' ])

evaluate-same_policies_example :
    evaluate policies reader plain_data nil ≡ evaluate (public ∷ policies) reader plain_data nil
evaluate-same_policies_example =
    evaluate-same_policies reader plain_data nil policies (public ∷ policies) twice

abbrev header : EntityHeader
unfolding nil
header = record {
  id = replicate 24 5;
  created_by = [];
  modified_by = [];
  modified_at_ns = 0;
  name = [];
  description = [];
  flags = 0;
  entity_kind = plain_data;
  schema_ref = nil;
  body_offset = 0;
  body_len = 3;
}

enforce-returns_example :
    (out : List Entity) × (enforce policies reader ((header, 1 ∷ 2 ∷ 3 ∷ []) ∷ []) ≡ some out)
    × All (IsReturned policies reader ((header, 1 ∷ 2 ∷ 3 ∷ []) ∷ [])) out
    × (map header_of out ≡ permitted_headers policies reader ((header, 1 ∷ 2 ∷ 3 ∷ []) ∷ []))
enforce-returns_example = enforce-returns policies reader ((header, 1 ∷ 2 ∷ 3 ∷ []) ∷ [])
