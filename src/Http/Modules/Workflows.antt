-- ===== src/Http/Modules/Workflows.antt =====
-- backend-service/internal/http/module_handlers.go, GetModuleWorkflows: which workflows it lists.
use electric_power_digital_d.Common.{
  String, Bool, false, not, ◌&&◌, ◌≡◌, Option, none, some, List, [], ◌∷◌, str_eq, eq_iff, any,
  arith, Bool-cases, Option-cases, inl, inr, subst, sym,
}
use electric_power_digital_d.Models.{Scheme}
use electric_power_digital_d.Http.Text.{split_dash}
use electric_power_digital_d.Http.Server.{WorkflowInfo}
use electric_power_digital_d.Http.Modules.{in_module, workflow_part, collect_workflows, info}

abbrev is_part : String → Option String → Bool
is_part wf none = false
is_part wf (some p) = str_eq p wf

-- A scheme of the module whose code names the workflow behind the dash.
abbrev pub offers : String → String → Scheme → Bool
offers mod_name wf s = in_module mod_name s.code && is_part wf (workflow_part (split_dash s.code))

abbrev pub has_workflow : String → WorkflowInfo → Bool
has_workflow wf i = str_eq i.workflow_id wf

abbrev pub IsUnique : List WorkflowInfo → Type 0
IsUnique [] = Unit
IsUnique (i ∷ infos) = (any (has_workflow i.workflow_id) infos ≡ false) × IsUnique infos

collect-any :
    (mod_name wf : String) (seen : List String) (l : List Scheme)
    → any (has_workflow wf) (collect_workflows mod_name seen l)
      ≡ (any (offers mod_name wf) l && not (any (str_eq wf) seen))
unfolding collect_workflows
collect-any mod_name wf seen [] = ground arith
collect-any mod_name wf seen (s ∷ ss) = elim (Bool-cases (in_module mod_name s.code)) [
  | inr other ↦ ground (arith, collect-any mod_name wf seen ss)
  | inl ours ↦ elim (Option-cases (workflow_part (split_dash s.code))) [
    | inl none_there ↦ ground (arith, collect-any mod_name wf seen ss)
    | inr (p, part) ↦ elim (Bool-cases (any (str_eq p) seen)) [
      | inl old ↦ ground (arith, eq_iff p wf, collect-any mod_name wf seen ss)
      | inr new ↦ ground (arith, eq_iff p wf, eq_iff wf p, collect-any mod_name wf (p ∷ seen) ss)
    ]
  ]
]

collect-IsUnique :
    (mod_name : String) (seen : List String) (l : List Scheme)
    → IsUnique (collect_workflows mod_name seen l)
unfolding collect_workflows
collect-IsUnique mod_name seen [] = tt
collect-IsUnique mod_name seen (s ∷ ss) =
    let rest = collect-IsUnique mod_name seen ss in
    elim (Bool-cases (in_module mod_name s.code)) [
      | inr other ↦ subst IsUnique (skipped (ground arith)) rest
      | inl ours ↦ elim (Option-cases (workflow_part (split_dash s.code))) [
        | inl none_there ↦ subst IsUnique (skipped (ground arith)) rest
        | inr (p, part) ↦ elim (Bool-cases (any (str_eq p) seen)) [
          | inl old ↦ subst IsUnique (skipped (ground arith)) rest
          | inr new ↦ subst IsUnique (put_first p (ground arith)) (
            ground (arith, eq_iff p p, collect-any mod_name p (p ∷ seen) ss),
            collect-IsUnique mod_name (p ∷ seen) ss,
          )
        ]
      ]
    ]
  where
    skipped :
        collect_workflows mod_name seen (s ∷ ss) ≡ collect_workflows mod_name seen ss
        → collect_workflows mod_name seen ss ≡ collect_workflows mod_name seen (s ∷ ss)
    skipped e = sym e

    put_first :
        (p : String)
        → collect_workflows mod_name seen (s ∷ ss)
          ≡ info p s ∷ collect_workflows mod_name (p ∷ seen) ss
        → info p s ∷ collect_workflows mod_name (p ∷ seen) ss
          ≡ collect_workflows mod_name seen (s ∷ ss)
    put_first p e = sym e

-- GetModuleWorkflows lists no workflow twice, and exactly those that some scheme of the module names
-- behind the first dash of its code.
pub collect_workflows-IsUnique :
    (mod_name : String) (l : List Scheme)
    → IsUnique (collect_workflows mod_name [] l)
      × ((wf : String)
          → any (has_workflow wf) (collect_workflows mod_name [] l) ≡ any (offers mod_name wf) l)
collect_workflows-IsUnique mod_name l =
    (collect-IsUnique mod_name [] l, λ wf. ground (arith, collect-any mod_name wf [] l))
