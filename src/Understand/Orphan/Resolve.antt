-- ===== src/Understand/Orphan/Resolve.antt =====
-- understand/orphan/resolver.py: the first channel that applies, and the report.
use salesforce.Common.{
  ℕ, Bool, not, ◌&&◌, String, Option, none, some, List, [], ◌∷◌, ◌=ₛ◌, keep, member, length,
  if◌then◌else◌,
}
use salesforce.Models.{apex_class}
use salesforce.Understand.Orphan.Inputs.{
  OrphanComponent, ResolutionInputs, OrphanResolution, ResolutionReport, is_category, class_name,
}
use salesforce.Understand.Orphan.Callers.{called_apex_classes}
use salesforce.Understand.Orphan.Channels.{Channel, channels}

unfoldable pub first_channel : OrphanComponent → List Channel → Option OrphanResolution
first_channel c [] = none
first_channel c ((applies, channel, confidence, evidence) ∷ rest) =
    let later = first_channel c rest in
    if applies
    then some (record {
      component_id = c.id;
      apex_class_name = class_name c;
      channel = channel;
      confidence = confidence;
      evidence = evidence;
    })
    else later

unfoldable pub resolve_one : ResolutionInputs → OrphanComponent → Option OrphanResolution
unfolding channels first_channel
resolve_one inputs c = first_channel c (channels inputs c)

-- The report of the orphans, one by one.
abbrev pub report_one : Option OrphanResolution → String → ResolutionReport → ResolutionReport
report_one none name r = record r { unresolved = name ∷ r.unresolved }
report_one (some x) name r = record r { resolved = x ∷ r.resolved }

unfoldable pub report_all : ResolutionInputs → ℕ → List OrphanComponent → ResolutionReport
unfolding resolve_one
report_all inputs referenced [] = record { resolved = []; unresolved = []; referenced = referenced }
report_all inputs referenced (c ∷ cs) =
    report_one (resolve_one inputs c) (class_name c) (report_all inputs referenced cs)

unfoldable pub is_orphan : List String → OrphanComponent → Bool
unfolding is_category member
is_orphan referenced c =
    is_category apex_class c && (not (class_name c =ₛ "") && not (member (class_name c) referenced))

unfoldable pub resolve_orphans : ResolutionInputs → ResolutionReport
unfolding called_apex_classes keep is_orphan report_all
resolve_orphans inputs =
    let referenced = called_apex_classes inputs.components inputs.graph in
    report_all inputs (length referenced) (keep (is_orphan referenced) inputs.components)
