-- ===== src/Go/Runtime/Config.antt =====
-- The options that `load` checks, and the `oc_options` that it makes of them.
use onnxcraft.Common.{ℕ, ℤ, pos, negsuc, leb, if◌then◌else◌}
use onnxcraft.Bridge.Types.{OcOptions}
use onnxcraft.Go.Result.{Result, good, bad, ◌>>=◌}
use onnxcraft.Go.Runtime.Types.{GoError, SessionOptions}

-- A number of threads, from 0 to `math.MaxInt32`.
unfoldable pub thread_count : ℤ → Result GoError ℤ
thread_count (negsuc n) = bad GoError.invalid_options
thread_count (pos n) = if leb n 2147483647 then good (pos n) else bad GoError.invalid_options

-- At most `OptimizeExtended`.
unfoldable pub graph_level : ℕ → Result GoError ℕ
graph_level n = if leb n 3 then good n else bad GoError.invalid_options

unfoldable pub oc_options_of : SessionOptions → Result GoError OcOptions
unfolding thread_count graph_level
oc_options_of o = do
  intra ← thread_count o.intra_op_threads
  inter ← thread_count o.inter_op_threads
  level ← graph_level o.optimization
  good (record {
    intra_threads = intra;
    inter_threads = inter;
    parallel = (if o.parallel then pos 1 else pos 0);
    optimization = pos level;
  })
