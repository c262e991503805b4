-- ===== src/Tests/Paths.antt =====
-- A path of one wrap, whose transaction is in flight and is then confirmed.
use privadex.Prelude.{Bool, true, some, inr}
use privadex.Plan.Types.{ExecutionPath, submitted}
use privadex.Exec.Status.{StepForwardResult}
use privadex.Exec.Path.{execute_step_forward}
use privadex.Exec.Path.Order.{InOrder}
use privadex.Exec.Path.Keeps.{execute_step_forward-InOrder}
use privadex.Tests.Mock.{mock, mock_meta, mock_keys, path_with}

abbrev wrapping : ExecutionPath Bool
wrapping = path_with (submitted (record { txn_hash = 77; end_block_num = 1064 }))

wrapping-InOrder : InOrder wrapping.steps
wrapping-InOrder = inr tt

abbrev wrapped : ExecutionPath Bool
wrapped = (execute_step_forward mock mock_meta mock_keys wrapping 0).1

abbrev wraps : StepForwardResult
wraps = record { did_status_change = true; amount_out = some 500 }

execute_step_forward-InOrder_example : InOrder wrapped.steps
execute_step_forward-InOrder_example =
    execute_step_forward-InOrder mock mock_meta mock_keys wrapping 0 wrapping-InOrder
