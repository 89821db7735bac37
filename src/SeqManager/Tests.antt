-- ===== src/SeqManager/Tests.antt =====
-- The manager at concrete inputs.
use bifrost_sdk.Base.{◌≡◌, refl, true, none, arith}
use bifrost_sdk.Seq.{is_seq_lower_than, is_seq_higher_than}
use bifrost_sdk.OrderedSet.{emplace, find}
use bifrost_sdk.SeqManager.Defs.{
  SeqManager, create, clear_loop, clear_dropped, drop, prepare, input_prepared, input,
}
use bifrost_sdk.SeqManager.Behind.{max16, following}
use bifrost_sdk.SeqManager.Drops.{drop_all, input-drop_all}

-- A manager that has seen 65534 last, and given it the number 10.
abbrev used : SeqManager
used = record (create 0) { started = true; base = 12; max_output = 10; max_input = 65534 }

dropped_input : (input max16 (drop max16 used 65535) 65535).1 ≡ none
unfolding input input_prepared prepare drop clear_dropped clear_loop emplace find is_seq_lower_than
    is_seq_higher_than
dropped_input = refl

input-drop_all_example :
    (input max16 (drop_all used (following 65534 3)) 2).1 ≡ (input max16 used 65535).1
input-drop_all_example = input-drop_all used 3 refl refl (omega arith) (omega arith) (omega arith)
