-- ===== src/Steps/Js.antt =====
-- engine/internal/steps/native.go: the entry to the JavaScript runtime. The runtime itself (goja),
-- its time limit and its cancellation are the parameter `vm`.
use oarlock.Prelude.{Text, codes, ◌++◌}
use oarlock.Json.{Value}

-- What the runtime gives: the exported value, or an exception's message.
pub data JsResult : Type 0 where
  value : Value → JsResult
  thrown : Text → JsResult

-- `vm script globals`.
module _ (vm : Text → Value → JsResult) where
  unfoldable pub run_js : Text → Value → JsResult
  run_js script context = vm (codes "(function(){\n" ++ (script ++ codes "\n})()")) context

  unfoldable pub eval_expression : Text → Value → JsResult
  unfolding run_js
  eval_expression expr context = run_js (codes "return (" ++ (expr ++ codes ")")) context
