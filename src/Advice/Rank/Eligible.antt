-- ===== src/Advice/Rank/Eligible.antt =====
-- What an eligible check is.
use veyra_demo.Advice.Catalog.{CatalogCheck, catalog}
use veyra_demo.Advice.Checks.{Facts, MachineProfile, Override, is_authorized, source_files}
use veyra_demo.Advice.Rank.{RankedCheck, is_applicable, overridden}
use veyra_demo.Engine.Outcomes.{find_key}
use veyra_demo.Prelude.{
  In, List, Option, String, [], false, is_nil, nat_eq, none, refl, some, true, ◌&&◌, ◌==◌, ◌≡◌,
}

overridden-id : (o : Option Override) (c : CatalogCheck) → (overridden o c).id ≡ c.id
overridden-id none c = refl
overridden-id (some o) c = refl

-- An automatic check that can run: every signal that it needs is present, brief events were scanned for, and no
-- context that comparing inputs and responses needs is open.
pub record CanRun (f : Facts) (c : CatalogCheck) : Type 0 where
  pub signals : (x : String) → In x c.requires_signals → In x f.signals_present
  pub scanned : (c.id == "CHK-BRIEF-EVENTS") ≡ true → f.brief_events_scanned ≡ true
  pub context : (c.id == "CHK-IO-BASELINE") ≡ true → f.io_needs_context ≡ []

-- What the state of a check that may be recommended tells.
record IsOpenCheck (f : Facts) (c : CatalogCheck) (prerequisites : List String) : Type 0 where
  unanswered : find_key c.id f.answered ≡ none
  absent : source_files c.id f ≡ none
  recorded : (c.mode == "automatic_read_only") ≡ true → CanRun f c
  reviewable : (c.id == "CHK-INTERVENTION-REVIEW" && nat_eq f.interventions_total 0) ≡ false
  authorized :
      (c.mode == "automatic_read_only") ≡ false
      → c.requires_authorization ≡ true
      → is_authorized f ≡ false
      → is_nil prerequisites ≡ false

-- A check that may be recommended.
pub record IsRecommendable (f : Facts) (profile : Option MachineProfile) (r : RankedCheck)
    : Type 0 where
  pub base : CatalogCheck
  pub listed : In base catalog
  pub same_id : r.check.id ≡ base.id
  pub applies : is_applicable base.id profile ≡ true
  pub not_answered : find_key base.id f.answered ≡ none
  pub not_performed : find_key base.id f.previously_performed ≡ none
  pub not_in_case : source_files base.id f ≡ none
  pub can_run : (base.mode == "automatic_read_only") ≡ true → CanRun f base
  pub reviewable : (base.id == "CHK-INTERVENTION-REVIEW" && nat_eq f.interventions_total 0) ≡ false
  pub has_access :
      (base.mode == "automatic_read_only") ≡ false
      → base.requires_authorization ≡ true
      → is_authorized f ≡ false
      → is_nil r.eligibility_now.prerequisites ≡ false
