-- ===== src/Abac/Verdict.antt =====
-- What the policies decide: a denial overrides, nothing is allowed by default, permits hide the
-- union of their attributes, and only the set of policies counts.
use gems.Prelude.{
  ℕ, ◌≡◌, ◌↔◌, ◌⊎◌, inl, inr, refl, sym, ◌∙◌, Bool, true, false, not, ◌&&◌, ◌||◌, List, [], ◌∷◌,
  ◌++◌, arith, Bool-cases, if◌then◌else◌, Member,
}
use gems.Prelude.Sets.{contains}
use gems.Prelude.Ascending.{
  sort_unstable, dedup, IsAscending, distinct-IsAscending, contains-distinct, ascending_unique,
}
use gems.Catalog.Kind.{EntityKind}
use gems.Catalog.Header.{Tuid}
use gems.Catalog.Policy.{Effect, Policy, applies}
use gems.Abac.Decision.{
  SubjectContext, deny, permit, is_permit, is_deny, filter_applicable, any_deny, is_empty,
  permit_redactions, evaluate,
}

-- Whether some policy passes a test.
unfoldable pub any : (Policy → Bool) → List Policy → Bool
any f [] = false
any f (p ∷ ps) = f p || any f ps

any-Member :
    (f : Policy → Bool) (ps : List Policy)
    → any f ps ≡ true
    → (p : Policy) × Member p ps × (f p ≡ true)
unfolding any
any-Member f [] h = cc
any-Member f (p ∷ ps) h = elim (Bool-cases (f p)) [
  | inl e ↦ (p, inl refl, e)
  | inr e ↦ let (q, m, e') = any-Member f ps (rw e at h) in (q, inr m, e')
]

any-of_Member :
    (f : Policy → Bool) (p : Policy) (ps : List Policy) → Member p ps → f p ≡ true → any f ps ≡ true
unfolding any
any-of_Member f p [] m e = elim m [ ]
any-of_Member f p (q ∷ ps) (inl same) e = rw (← same, e) refl
any-of_Member f p (q ∷ ps) (inr m) e = ground (arith, any-of_Member f p ps m e)

any-same :
    (f : Policy → Bool) (ps qs : List Policy)
    → ((p : Policy) → Member p ps ↔ Member p qs)
    → any f ps ≡ any f qs
any-same f ps qs same = elim (Bool-cases (any f ps)) [
  | inl e ↦ let (p, m, e') = any-Member f ps e in e ∙ sym (any-of_Member f p qs ((same p).0 m) e')
  | inr e ↦ elim (Bool-cases (any f qs)) [
    | inr e' ↦ e ∙ sym e'
    | inl e' ↦
        let (p, m, e'') = any-Member f qs e' in cc (any-of_Member f p ps ((same p).1 m) e'', e)
  ]
]

contains-append :
    (a : ℕ) (xs ys : List ℕ) → contains (xs ++ ys) a ≡ (contains xs a || contains ys a)
unfolding contains
contains-append a [] ys = refl
contains-append a (x ∷ xs) ys = ground (arith, contains-append a xs ys)

permits : (e : Effect) → is_deny e ≡ false → is_permit e ≡ true
permits Effect.permit h = refl
permits Effect.deny h = cc

module _ (subject : SubjectContext) (kind : EntityKind) (schema_ref : Tuid) where
  -- The applicable policies of one effect.
  unfoldable pub applies_to : Policy → Bool
  applies_to p = applies p subject.subject_id subject.roles kind schema_ref

  unfoldable pub forbids : Policy → Bool
  unfolding applies_to
  forbids p = applies_to p && is_deny p.effect

  unfoldable pub allows : Policy → Bool
  unfolding applies_to
  allows p = applies_to p && is_permit p.effect

  unfoldable pub hides : ℕ → Policy → Bool
  unfolding allows
  hides a p = allows p && contains p.redact_attributes a

  any_deny-filter :
      (ps : List Policy) → any_deny (filter_applicable ps subject kind schema_ref) ≡ any forbids ps
  unfolding any any_deny filter_applicable forbids applies_to
  any_deny-filter [] = refl
  any_deny-filter (p ∷ ps) = ground (arith, any_deny-filter ps)

  -- Without a denial, an applicable policy is a permit.
  is_empty-filter :
      (ps : List Policy)
      → any forbids ps ≡ false
      → is_empty (filter_applicable ps subject kind schema_ref) ≡ not (any allows ps)
  unfolding any filter_applicable forbids allows applies_to
  is_empty-filter [] h = refl
  is_empty-filter (p ∷ ps) h =
      elim (Bool-cases (applies p subject.subject_id subject.roles kind schema_ref)) [
        | inr e ↦ rw e (is_empty-filter ps (rw e at h))
        | inl e ↦ elim (Bool-cases (is_deny p.effect)) [
          | inl denied ↦ cc (rw (e, denied) at h)
          | inr granted ↦ rw (e, permits p.effect granted) refl
        ]
      ]

  contains-redactions :
      (a : ℕ) (ps : List Policy)
      → contains (permit_redactions (filter_applicable ps subject kind schema_ref)) a
        ≡ any (hides a) ps
  unfolding any permit_redactions filter_applicable hides allows applies_to contains
  contains-redactions a [] = refl
  contains-redactions a (p ∷ ps) = ground (
    arith,
    contains-redactions a ps,
    contains-append a p.redact_attributes
        (permit_redactions (filter_applicable ps subject kind schema_ref)),
  )

  -- The attributes that a permit hides.
  unfoldable pub hidden : List Policy → List ℕ
  hidden ps =
      dedup (sort_unstable (permit_redactions (filter_applicable ps subject kind schema_ref)))

  verdict :
      (ps : List Policy)
      → evaluate ps subject kind schema_ref
        ≡ (if any forbids ps then deny else if any allows ps then permit (hidden ps) else deny)
  unfolding evaluate hidden
  verdict ps = ground (arith, any_deny-filter ps, is_empty-filter ps)

  hidden-contains : (ps : List Policy) (a : ℕ) → contains (hidden ps) a ≡ any (hides a) ps
  unfolding hidden
  hidden-contains ps a =
      contains-distinct a (permit_redactions (filter_applicable ps subject kind schema_ref))
      ∙ contains-redactions a ps

  -- The decision is to deny exactly if an applicable policy denies or no applicable policy
  -- permits.
  pub evaluate-denies :
      (ps : List Policy)
      → (evaluate ps subject kind schema_ref ≡ deny)
        ↔ ((any forbids ps ≡ true) ⊎ (any allows ps ≡ false))
  evaluate-denies ps = rw (verdict ps) (ground arith)

  -- A permit hides, in ascending order and once each, exactly the attributes that some applicable
  -- permit hides.
  pub evaluate-redacts :
      (ps : List Policy) (redacted : List ℕ)
      → evaluate ps subject kind schema_ref ≡ permit redacted
      → IsAscending redacted × ((a : ℕ) → contains redacted a ≡ any (hides a) ps)
  unfolding hidden
  evaluate-redacts ps redacted h =
      let same : hidden ps ≡ redacted = ground (arith, verdict ps) in
      rw (← same) (
        distinct-IsAscending (permit_redactions (filter_applicable ps subject kind schema_ref)),
        hidden-contains ps,
      )

  -- Two lists of the same policies, in any order and however often repeated, decide the same.
  pub evaluate-same_policies :
      (ps qs : List Policy)
      → ((p : Policy) → Member p ps ↔ Member p qs)
      → evaluate ps subject kind schema_ref ≡ evaluate qs subject kind schema_ref
  unfolding hidden
  evaluate-same_policies ps qs same =
      let lists : hidden ps ≡ hidden qs =
        ascending_unique (hidden ps) (hidden qs)
          (distinct-IsAscending (permit_redactions (filter_applicable ps subject kind schema_ref)))
          (distinct-IsAscending (permit_redactions (filter_applicable qs subject kind schema_ref)))
          (λ a.
            hidden-contains ps a ∙ (any-same (hides a) ps qs same ∙ sym (hidden-contains qs a))) in
      verdict ps
      ∙ (rw (any-same forbids ps qs same, any-same allows ps qs same, lists) (sym (verdict qs)))
