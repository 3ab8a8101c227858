-- ===== src/Pipeline/Run/Ended.antt =====
-- What a run has recorded when it ends (`run_pipeline`, holonbridge/pipeline.py).
use holon_bridge_python.Prelude.{
  String, ℕ, suc, Bool, true, false, none, some, List, [], ◌∷◌, ◌++◌, ◌≡◌, if◌then◌else◌, arith,
  Bool-cases, Option-cases, refl, inl, inr, ◌⊎◌, ◌∙◌, In, sym, ap, length,
}
use mathlib.Core.List.{append-nil, append_assoc}
use holon_bridge_python.Pipeline.Model.{PipelineNode}
use holon_bridge_python.Pipeline.Stages.{StageError, StageRecord, is_failed, failure}
use holon_bridge_python.Pipeline.Kinds.{Job}
use holon_bridge_python.Pipeline.Run.{after_stage, RunState, run_from}
use holon_bridge_python.Pipeline.Run.Recorded.{Round, after_stage-Round}

none-some : {A : Type 0} {a : A} → none ≡ some a → ⊥
none-some h = cc

-- The records of a run, with the nodes they are about and where each stands.
abbrev pub Records : List PipelineNode → ℕ → List StageRecord → Type 0
Records nodes index [] = Unit {0}
Records [] index (r ∷ rs) = ⊥
Records (n ∷ nodes) index (r ∷ rs) =
    (r.name ≡ n.id) × (r.order ≡ index) × Records nodes (suc index) rs

abbrev pub NoneFailed : List StageRecord → Type 0
NoneFailed rs = (r : StageRecord) → In r rs → is_failed r.status ≡ false

-- How a run may end, from where it stood: what it appended, and its error.
pub record Ended {W : Type 0} (stop : Bool) (nodes : List PipelineNode) (index : ℕ)
    (s s' : RunState W) : Type 0 where
  pub entries : List StageRecord
  pub stages : s'.stages ≡ s.stages ++ entries
  pub records : Records nodes index entries
  -- it went through every node; or a stage failed, and nothing was recorded after it
  pub outcome :
      ((s'.error ≡ none) × (length entries ≡ length nodes) × (stop ≡ true → NoneFailed entries))
      ⊎ ((stop ≡ true)
          × ((earlier : List StageRecord) × (last : StageRecord) × (e : StageError) × (entries
                ≡ earlier ++ last ∷ [])
              × NoneFailed earlier
              × (is_failed last.status ≡ true)
              × (last.detail ≡ failure e)
              × (s'.error ≡ some (last.name, e))))

module _ {W : Type 0} (job : Job W) where
  -- When the round went on, its stage is failed only if failures do not stop the run.
  calm :
      {n : PipelineNode} {index : ℕ} {s s' : RunState W} (round : Round job n index s s')
      → s'.error ≡ none
      → job.stop_on_error ≡ true
      → is_failed round.entry.status ≡ false
  calm round more stop = elim round.error [
    | inl (fine, same) ↦ fine
    | inr (bad, (e, shown, left)) ↦ ground (arith, more, stop)
  ]

  goes_on :
      (n : PipelineNode) (nodes : List PipelineNode) (index : ℕ) (s s' s'' : RunState W)
      → Round job n index s s'
      → s'.error ≡ none
      → Ended job.stop_on_error nodes (suc index) s' s''
      → Ended job.stop_on_error (n ∷ nodes) index s s''
  goes_on n nodes index s s' s'' round more rest = record {
    entries = round.entry ∷ rest.entries;
    stages =
        rest.stages
        ∙ ap (λ l. l ++ rest.entries) round.stages
        ∙ append_assoc s.stages (round.entry ∷ []) rest.entries;
    records = (round.name, round.order, rest.records);
    outcome = elim rest.outcome [
      | inl (clear, all, fine) ↦ inl (
        clear,
        ap suc all,
        λ stop r m. elim m [
          | inl e ↦ ap (λ (x : StageRecord). is_failed x.status) e ∙ calm round more stop
          | inr m' ↦ fine stop r m'
        ],
      )
      | inr (stop, (earlier, last, e, split, fine, bad, shown, left)) ↦ inr (
        stop,
        (
          round.entry ∷ earlier,
          last,
          e,
          ap (λ l. round.entry ∷ l) split,
          λ r m. elim m [
            | inl e ↦ ap (λ (x : StageRecord). is_failed x.status) e ∙ calm round more stop
            | inr m' ↦ fine r m'
          ],
          bad,
          shown,
          left,
        ),
      )
    ];
  }

  stops :
      (n : PipelineNode) (nodes : List PipelineNode) (index : ℕ) (s s' : RunState W)
      → Round job n index s s'
      → s.error ≡ none
      → (e : String × StageError) → s'.error ≡ some e
      → Ended job.stop_on_error (n ∷ nodes) index s s'
  stops n nodes index s s' round clear e stopped = record {
    entries = round.entry ∷ [];
    stages = round.stages;
    records = (round.name, round.order, tt);
    outcome = elim round.error [
      | inl (fine, same) ↦ absurd (none-some (sym clear ∙ sym same ∙ stopped))
      | inr (bad, (e', shown, left)) ↦ elim (Bool-cases job.stop_on_error) [
        | inl stop ↦ inr (
          stop,
          (
            [],
            round.entry,
            e',
            refl,
            λ r m. absurd m,
            bad,
            shown,
            left
                ∙ ap (λ b. if b then some (n.id, e') else s.error) stop
                ∙ ap (λ x. some (x, e')) (sym round.name),
          ),
        )
        | inr go ↦ absurd (
            none-some (
              sym clear
              ∙ sym (left ∙ ap (λ b. if b then some (n.id, e') else s.error) go)
              ∙ stopped))
      ]
    ];
  }

  pub run_from-Ended :
      (nodes : List PipelineNode) (index : ℕ) (s : RunState W)
      → s.error ≡ none
      → Ended job.stop_on_error nodes index s (run_from job nodes index s)
  unfolding run_from
  run_from-Ended [] index s clear = record {
    entries = [];
    stages = sym (append-nil s.stages);
    records = tt;
    outcome = inl (clear, refl, λ h r m. absurd m);
  }
  run_from-Ended (n ∷ nodes) index s clear =
      let round = after_stage-Round job n s index in
      let s' = after_stage job s index n in
      elim (Option-cases (after_stage job s index n).error) [
        | inl more ↦
            rw (more, run_from)
              (goes_on n nodes index s s' (run_from job nodes (suc index) s') round more
                (run_from-Ended nodes (suc index) s' more))
        | inr (e, stopped) ↦ rw (stopped, run_from) (stops n nodes index s s' round clear e stopped)
      ]
