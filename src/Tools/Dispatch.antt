-- ===== src/Tools/Dispatch.antt =====
-- tools/__init__.py, `ToolRegistry.execute`: a call of a tool always comes back as a text.
use lucyd.Base.{
  ℕ, Text, String, ◌≡◌, Bool, true, false, ◌&&◌, Option, none, some, List, [], ◌∷◌, ◌++◌, length,
  ◌⊎◌, inl, inr, lit, join, starts_with, ltb, ◌==◌, if◌then◌else◌, min, max, str_eq, eq_refl,
}
use lucyd.Base.Dict.{Dict, lookup, lookup-insert}
use lucyd.Message.{Json, Fields}
use lucyd.Tools.{Result, Outcome, ToolSpec, ToolRegistry, register, coerce_arguments}
use lucyd.Tools.Truncate.{smart_truncate}

-- `{"text": …, "attachments": …}`
pub record Reply : Type 0 where
  pub text : Text
  pub attachments : List String

-- `a <= b` on strings
unfoldable pub text_le : Text → Text → Bool
text_le [] b = true
text_le (c ∷ cs) [] = false
text_le (c ∷ cs) (d ∷ ds) =
    let rest = text_le cs ds in if ltb c d then true else if c == d then rest else false

unfoldable pub insert_text : Text → List Text → List Text
unfolding text_le
insert_text t [] = t ∷ []
insert_text t (u ∷ us) = let rest = insert_text t us in if text_le t u then t ∷ u ∷ us else u ∷ rest

-- the registered names, sorted
unfoldable pub sorted_names : Dict ToolSpec → List Text
unfolding insert_text
sorted_names [] = []
sorted_names ((k, t) ∷ rest) = insert_text (lit k) (sorted_names rest)

unfoldable pub failure : Text → Reply
failure text = record { text = lit "Error: " ++ text; attachments = [] }

unfoldable pub not_available : String → Dict ToolSpec → Reply
unfolding failure sorted_names
not_available name tools = failure (
    lit "Tool '"
    ++ (lit name
        ++ (lit "' is not available. Available tools: "
            ++ (join (lit ", ") (sorted_names tools)
                ++ lit ". Check your available tools and try a different approach."))))

unfoldable pub invalid_arguments : String → Text → Reply
unfolding failure
invalid_arguments name e = failure (lit "Invalid arguments for '" ++ (lit name ++ (lit "': " ++ e)))

unfoldable pub text_of : Result → Text
text_of (Result.structured text attachments) = text
text_of (Result.string text) = text
text_of (Result.other printed) = printed

unfoldable pub attachments_of : Result → List String
attachments_of (Result.structured text attachments) = attachments
attachments_of _ = []

-- Python's `int`, `float`, `repr` and `lower` as in the coercion, `json` and the floats as in the
-- truncation, `_estimate_tokens` of the tokenizer, and `int(n * (most / max(est, 1)))`.
module _ (int float : Text → Option Text) (repr lowered : Text → Text) (loads : Text → Option Json)
    (dumps : Json → Text) (head_share : ℕ → ℕ) (near_end : ℕ → ℕ → Bool)
    (estimate_tokens : Text → ℕ) (scaled : ℕ → ℕ → ℕ → ℕ) where
  -- the limit for one result
  unfoldable pub limit_for : ToolRegistry → ToolSpec → Text → ℕ
  limit_for r spec text =
      let own = if spec.max_output == 0 then r.truncation_limit else spec.max_output in
      let est = estimate_tokens text in
      if ltb 0 r.max_result_tokens && ltb r.max_result_tokens est
      then min own (scaled (length text) r.max_result_tokens (max est 1))
      else own

  unfoldable pub reply_of : String → ToolRegistry → ToolSpec → Outcome → Reply
  unfolding limit_for text_of attachments_of failure invalid_arguments
  reply_of name r spec (Outcome.returned result) = record {
    text =
        smart_truncate loads dumps head_share near_end (text_of result)
          (limit_for r spec (text_of result));
    attachments = attachments_of result;
  }
  reply_of name r spec (Outcome.plugin_error user_safe message) =
      if user_safe
      then failure message
      else failure (lit "Tool '" ++ (lit name ++ lit "' is unavailable right now."))
  reply_of name r spec (Outcome.type_error message) = invalid_arguments name message
  reply_of name r spec (Outcome.raised type_name) = failure (
      lit "Tool '"
      ++ (lit name
          ++ (lit "' failed ("
              ++ (type_name ++ lit "). Try a different approach or check your arguments."))))

  -- a call of a registered tool
  unfoldable pub call_tool : String → ToolRegistry → ToolSpec → Fields → Reply
  unfolding reply_of invalid_arguments
  call_tool name r spec arguments =
      elim (coerce_arguments int float repr lowered arguments spec.input_schema) [
        | inl e ↦ invalid_arguments name e
        | inr coerced ↦ reply_of name r spec (spec.function coerced)
      ]

  -- `execute`
  unfoldable pub execute : String → Fields → ToolRegistry → Reply
  unfolding call_tool not_available
  execute name arguments r = elim (lookup name r.tools) [
    | none ↦ not_available name r.tools
    | some spec ↦ call_tool name r spec arguments
  ]

  -- How a call ends: with the tool's result, cut to its limit and with the result's attachments, or with
  -- a text that starts with "Error: " and no attachment.
  abbrev pub Ends : ToolRegistry → ToolSpec → Fields → Reply → Type 0
  Ends r spec arguments reply =
      ((coerced : Fields) × (result : Result) × (coerce_arguments int float repr lowered arguments
            spec.input_schema
          ≡ inr coerced)
        × (spec.function coerced ≡ Outcome.returned result)
        × (reply.text
            ≡ smart_truncate loads dumps head_share near_end (text_of result)
                (limit_for r spec (text_of result)))
        × (reply.attachments ≡ attachments_of result))
      ⊎ ((starts_with reply.text (lit "Error: ") ≡ true) × (reply.attachments ≡ []))

  execute_found :
      (name : String) (arguments : Fields) (r : ToolRegistry) (spec : ToolSpec)
      → lookup name r.tools ≡ some spec
      → execute name arguments r ≡ call_tool name r spec arguments
  unfolding execute
  execute_found name arguments r spec h = rw (h, execute)

  -- Registering a tool makes its name run that tool, whatever the name ran before, and leaves the
  -- calls of another name that is registered as they were.
  pub execute-register :
      (spec other : ToolSpec) (name : String) (arguments : Fields) (r : ToolRegistry)
      → lookup name r.tools ≡ some other
      → str_eq spec.name name ≡ false
      → (execute spec.name arguments (register spec r) ≡ call_tool spec.name r spec arguments)
        × (execute name arguments (register spec r) ≡ execute name arguments r)
  unfolding register call_tool reply_of limit_for
  execute-register spec other name arguments r h ne = (
    execute_found spec.name arguments (register spec r) spec
        (rw (lookup-insert spec.name spec.name spec r.tools, eq_refl spec.name)),
    rw (execute_found name arguments r other h) (
        execute_found name arguments (register spec r) other
          (rw (lookup-insert spec.name name spec r.tools, ne, h))),
  )
