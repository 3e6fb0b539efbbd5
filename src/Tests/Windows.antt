-- ===== src/Tests/Windows.antt =====
-- The theorems on the Windows branches of the bridge, and on the bridge, at concrete inputs.
use onnxcraft.Tests.Fixture.{Stage, api_failing, libc_windows, windows_os}
use onnxcraft.Common.{ℕ, ◌++◌, [], true}
use onnxcraft.Native.Ledger.{Kind}
use onnxcraft.Native.Rules.{Ensures, Holds, opt_owned}
use onnxcraft.Bridge.Wide.{wide_path}
use onnxcraft.Bridge.Wide.Correct.{wide_path-Holds}
use onnxcraft.Bridge.Open.Correct.{CodeOf}
use onnxcraft.Bridge.Interface.Laws.{IsBridge}
use onnxcraft.Bridge.Interface.Implementation.{bridge, bridge-IsBridge}
use onnxcraft.Tests.{empty_world, empty-Holds}

wide_path-Holds_example :
    Ensures
      (λ r w. Holds [] (opt_owned Kind.heap_block r ++ []) w)
      (wide_path (libc_windows true) (windows_os true) "C:\\model.onnx" empty_world)
wide_path-Holds_example =
    wide_path-Holds (libc_windows true) (windows_os true) "C:\\model.onnx" empty-Holds

bridge-IsBridge_example :
    IsBridge ℕ
      (bridge (api_failing Stage.nowhere) (libc_windows true) 0)
      (CodeOf (api_failing Stage.nowhere))
bridge-IsBridge_example = bridge-IsBridge (api_failing Stage.nowhere) (libc_windows true) 0
