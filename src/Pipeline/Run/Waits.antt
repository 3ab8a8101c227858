-- ===== src/Pipeline/Run/Waits.antt =====
-- What a run has recorded when it ends, in the order of the dependencies (`run_pipeline`,
-- holonbridge/pipeline.py; `_execute`, holonbridge/routes/pipeline.py).
use holon_bridge_python.Prelude.{
  true, none, some, List, [], ◌∷◌, ◌++◌, ◌≡◌, ok, ok-injective, refl, ◌⊎◌, length, >>=-eq-ok,
}
use mathlib.Core.Path.{subst}
use holon_bridge_python.Pipeline.Model.{PipelineNode, Manifest}
use holon_bridge_python.Pipeline.Order.{topological_order}
use holon_bridge_python.Pipeline.Stages.{StageError, StageRecord, is_failed, failure}
use holon_bridge_python.Pipeline.Kinds.{Job}
use holon_bridge_python.Pipeline.Run.{RunState, run_pipeline, fresh_state}
use holon_bridge_python.Pipeline.Run.Ended.{Records, NoneFailed, Ended, run_from-Ended}

module _ {W : Type 0} (job : Job W) (w : W) (m : Manifest) (s : RunState W) where
  ran_in_order :
      run_pipeline job w m ≡ ok s
      → (sorted : List PipelineNode) × (topological_order m ≡ ok sorted)
        × Ended job.stop_on_error sorted 0 (fresh_state w) s
  unfolding run_pipeline fresh_state
  ran_in_order went =
      let (sorted, order, rest) = >>=-eq-ok (topological_order m) _ went in
      (
        sorted,
        order,
        subst (Ended job.stop_on_error sorted 0 (fresh_state w)) (ok-injective rest)
            (run_from-Ended job sorted 0 (fresh_state w) refl),
      )

  -- The message held no stage when the run began.
  own_stages :
      (sorted : List PipelineNode) (ended : Ended job.stop_on_error sorted 0 (fresh_state w) s)
      → s.stages ≡ ended.entries
  unfolding fresh_state
  own_stages sorted ended = ended.stages

-- A run that is not refused records the sorted nodes in their order. It ends without an error and with
-- a record for each of them, none of them failed if failures stop the run; or failures stop it, its
-- last record and no other is failed, and the error names that record's stage and what was raised.
pub run_pipeline-ends :
    {W : Type 0} (job : Job W) (w : W) (m : Manifest) (s : RunState W)
    → run_pipeline job w m ≡ ok s
    → (sorted : List PipelineNode) × (topological_order m ≡ ok sorted)
      × Records sorted 0 s.stages
      × (((s.error ≡ none)
            × (length s.stages ≡ length sorted)
            × (job.stop_on_error ≡ true → NoneFailed s.stages))
          ⊎ ((job.stop_on_error ≡ true)
              × ((earlier : List StageRecord) × (last : StageRecord) × (e : StageError) × (s.stages
                    ≡ earlier ++ last ∷ [])
                  × NoneFailed earlier
                  × (is_failed last.status ≡ true)
                  × (last.detail ≡ failure e)
                  × (s.error ≡ some (last.name, e)))))
run_pipeline-ends job w m s went =
    let (sorted, order, ended) = ran_in_order job w m s went in
    let own = own_stages job w m s sorted ended in
    (sorted, order, rw own ended.records, rw own ended.outcome)
