-- ===== src/Counter/Tests.antt =====
-- A counter through a few operations.
use v2bx_outbound.Base.{List, [], ◌∷◌, ◌≡◌}
use v2bx_outbound.Base.Map.{lookup, string_key}
use v2bx_outbound.Counter.{get_up_count, get_down_count}
use v2bx_outbound.Counter.Counts.{
  Operation, received, sent, zeroed, run_all, counts, run_all-counts,
}

abbrev operations : List Operation
operations = sent "a" 5 ∷ received "b" 9 ∷ zeroed "b" ∷ received "a" 2 ∷ sent "a" 1 ∷ []

run_all-counts_example : counts "a" (run_all operations []) ≡ (6, 2)
unfolding get_up_count get_down_count lookup
run_all-counts_example = run_all-counts "a" operations []
