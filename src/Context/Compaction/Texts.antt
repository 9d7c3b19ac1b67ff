-- ===== src/Context/Compaction/Texts.antt =====
-- The system prompt of packages/core/src/context/compaction.ts.
use swain.Common.{String}
use swain.Llms.Messages.{◌&◌}

pub summary_system : String
summary_system =
    "You are compacting a long coding-assistant conversation into a compact, self-contained summary so a future model can resume the task without the original transcript.\n"
    & "\n"
    & "Read the entire conversation above (which may already begin with an earlier summary) and produce EXACTLY these Markdown sections, in this order, with these headings:\n"
    & "\n" & "## Goal\n" & "\n" & "## Decisions and constraints\n" & "\n"
    & "## Key Context (files, code references, etc)\n" & "\n" & "## Progress so far\n" & "\n"
    & "## Remaining work\n" & "\n" & "## All user messages\n" & "\n" & "Rules:\n"
    & "- Respond with text only. Do not call any tools.\n"
    & "- Output only the requested Markdown sections in the requested order. Do not wrap the summary in extra XML tags, prefaces, or explanations.\n"
    & "- Keep it self-contained for a future model resuming the task.\n"
    & "- Preserve every user instruction in \"All user messages\".\n"
    & "- Preserve exact file paths, commands, error strings, identifiers, and model/tool names.\n"
    & "- Preserve active tasks, blockers, approvals, and pending user questions.\n"
    & "- \"Remaining work\" must be specific enough to continue without asking what to do next.\n"
    & "- If an earlier summary is present, update it: keep still-true facts, drop stale facts, merge new facts.\n"
    & "- Do not mention the compaction process itself."
