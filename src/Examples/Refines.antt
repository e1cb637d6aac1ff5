-- ===== src/Examples/Refines.antt =====
-- A completion in the sample queue, as a step of the queue its callers see.
use matri_xpost.Prelude.{[], ◌∷◌, All, refl, arith, none}
use matri_xpost.Examples.{sample_external, waiting, db_with, connect}
use matri_xpost.Text.{codes}
use matri_xpost.Types.Enums.{failed}
use matri_xpost.Storage.Schema.{Db}
use matri_xpost.Storage.Sql.{Connection}
use matri_xpost.Storage.Jobs.Moves.{RevisionFits}
use matri_xpost.Storage.Jobs.Refines.{
  QueueStep, Call, view, complete, succeeds, after_call, call-QueueStep,
}

abbrev start : Connection Db
start = connect (db_with (waiting ∷ []))

fits : All RevisionFits start.db.jobs
fits = (ground arith, tt)

abbrev call : Call
call = complete (codes "job-1") 0 failed 7 none

call-QueueStep_example :
    QueueStep sample_external
      (view sample_external start.db)
      (view sample_external (after_call sample_external call start).db)
      (succeeds sample_external call start)
      call
call-QueueStep_example = call-QueueStep sample_external start fits call refl
