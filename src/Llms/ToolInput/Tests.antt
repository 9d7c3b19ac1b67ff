-- ===== src/Llms/ToolInput/Tests.antt =====
-- Runs of the assembler.
use swain.Common.{some, [], ◌∷◌, ◌≡◌}
use swain.Llms.ToolInput.{start, finish, finish_entry}
use swain.Llms.ToolInput.Laws.{append_all, finish_assembled}

finish_assembled_example :
    (finish
      (λ s. some s)
      "a"
      (append_all (("a", "{\"x\":") ∷ ("b", "zz") ∷ ("a", "1}") ∷ []) (start "a" "Read" []).1)).0
    ≡ finish_entry (λ s. some s) (record { tool_call_id = "a"; name = "Read"; args = "{\"x\":1}" })
finish_assembled_example =
    finish_assembled (λ s. some s) "a" "Read" (("a", "{\"x\":") ∷ ("b", "zz") ∷ ("a", "1}") ∷ []) []
