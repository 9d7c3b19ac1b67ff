-- ===== src/Agent/Storage.antt =====
-- packages/core/src/context/tool-result-storage.ts: oversized results of tools are saved to a file.
--
-- The file system, the clock and `NodePath.join` are parameters; `pretty` is
-- `JSON.stringify(value, null, 2)`. No tool's output is undefined, on which the source would throw.
pub mod Laws
mod Tests
use Prim.Native.Char.{code}
use Prim.Native.String.{[], ◌∷◌}
use mathlib.Core.List as L
use swain.Common.{
  ℕ, String, Bool, true, false, ◌&&◌, ◌||◌, Option, none, some, List, if◌then◌else◌, str_eq, leb,
  nat_eq, text_length, take_units,
}
use swain.Llms.Messages.{Json, ToolResult, ToolResultValue, text, json, ◌&◌, decimal}
use swain.Session.{ToolResultReplacement}

abbrev pub tool_result_threshold : ℕ
tool_result_threshold = 50000

abbrev pub tool_result_preview_chars : ℕ
tool_result_preview_chars = 2000

pub record Body : Type 0 where
  pub content : String
  pub ext : String

abbrev pub body_of : (Json → String) → ToolResult → Body
body_of pretty r = elim r.result [
  | text value ↦ record { content = value; ext = "txt" }
  | json value ↦ record { content = pretty value; ext = "json" }
]

is_safe : ℕ → Bool
is_safe c =
    (leb b'a' c && leb c b'z')
    || (leb b'A' c && leb c b'Z')
    || (leb b'0' c && leb c b'9')
    || nat_eq c b'.'
    || nat_eq c b'_'
    || nat_eq c b'-'

-- Each other UTF-16 unit becomes an underscore.
unfoldable pub safe_stem : String → String
unfolding is_safe
safe_stem [] = []
safe_stem (c ∷ s) =
    (if is_safe (code c) then c ∷ [] else if leb 0x10000 (code c) then "__" else "_") & safe_stem s

unfoldable pub wrap : ℕ → String → String → String
wrap original_chars path preview =
    "<persisted-tool-result>\nOutput too large ("
    & decimal original_chars
    & " chars). Full output saved to: "
    & path
    & "\n\nPreview:\n"
    & preview
    & "\n...\n</persisted-tool-result>"

unfoldable pub find_replacement : String → List ToolResultReplacement → Option ToolResultReplacement
find_replacement id L.[] = none
find_replacement id (L.◌∷◌ r rs) =
    if str_eq r.tool_call_id id then some r else find_replacement id rs

abbrev pub replaced : ToolResult → String → String → ToolResult
replaced r content path = record {
  tool_call_id = r.tool_call_id;
  name = r.name;
  result =
      ToolResultValue.text
        (wrap (text_length content) path (take_units tool_result_preview_chars content));
  is_error = r.is_error;
  duration_ms = r.duration_ms;
}

-- The file system: whether a call succeeds, and the world behind it.
pub record Files (W : Type 0) : Type 0 where
  pub make_directory : String → W → Bool × W
  pub write_file : (path content : String) → W → Bool × W
  pub join : String → String → String
  pub clock : W → String

module _ {W : Type 0} (files : Files W) (pretty : Json → String) (dir : String) where
  abbrev pub Persisted : Type 0
  Persisted = (ToolResult × List ToolResultReplacement) × W

  abbrev pub path_for : ToolResult → Body → String
  path_for r body = files.join dir (safe_stem r.tool_call_id & "." & body.ext)

  -- The end of a first save, by whether the file could be written. A failure gives the original.
  recorded : List ToolResultReplacement → ToolResult → Body → Bool × W → Persisted
  recorded rs r body (false, w) = ((r, rs), w)
  recorded rs r body (true, w) =
      let path = path_for r body in
      let entry : ToolResultReplacement = record {
        tool_call_id = r.tool_call_id;
        name = r.name;
        path = path;
        original_chars = text_length body.content;
        preview_chars = text_length (take_units tool_result_preview_chars body.content);
        created_at = files.clock w;
      } in
      ((replaced r body.content path, L.◌++◌ rs (L.◌∷◌ entry L.[])), w)

  save : List ToolResultReplacement → ToolResult → Body → Bool × W → Persisted
  unfolding recorded
  save rs r body (false, w) = ((r, rs), w)
  save rs r body (true, w) = recorded rs r body (files.write_file (path_for r body) body.content w)

  -- A body that was saved keeps its file.
  stored :
      List ToolResultReplacement → ToolResult → Body → Option ToolResultReplacement → W → Persisted
  unfolding save
  stored rs r body (some old) w = ((replaced r body.content old.path, rs), w)
  stored rs r body none w = save rs r body (files.make_directory dir w)

  unfoldable pub persist : List ToolResultReplacement → ToolResult → W → Persisted
  unfolding stored
  persist rs r w =
      let body = body_of pretty r in
      if leb (text_length body.content) tool_result_threshold
      then ((r, rs), w)
      else stored rs r body (find_replacement r.tool_call_id rs) w
