-- ===== src/Core/Errors.antt =====
-- errors.go: the sentinel errors, wrapping, and the summary of arguments; plugin.go: Op.
use rainbowsquirrel.Base.{
  ℕ, ◌≡◌, refl, List, [], ◌∷◌, ◌++◌, map, Option, none, some, length, Bytes, codes,
}
use mathlib.Core.Option
use rainbowsquirrel.Bind.Rebind.{decimal}

pub data Op : Type 0 where
  op_exec op_query op_get op_select : Op

unfoldable pub op_string : Op → Bytes
op_string op_exec = codes "Exec"
op_string op_query = codes "Query"
op_string op_get = codes "Get"
op_string op_select = codes "Select"

-- An error value: the sentinels that the package declares, errors of other packages by a number,
-- and the wrappers that `%w` builds, with what else stands in their text.
pub data GoError : Type 0 where
  unsupported_type placeholder_not_found column_not_found tag_invalid : GoError
  slice_expansion plugin_registered_too_late null_not_allowed : GoError
  tx_done no_rows : GoError
  foreign : ℕ → GoError
  op_error : Op → Bytes → Bytes → GoError → GoError
  plugin_error : Op → Bytes → GoError → GoError
  panic_error : GoError → GoError
  context_error : Bytes → GoError → GoError

-- What `errors.Is` compares in the end: the error under all wrappers. A recovered panic is
-- printed, not wrapped.
unfoldable pub cause : GoError → GoError
cause (op_error o q a e) = cause e
cause (plugin_error o n e) = cause e
cause (context_error t e) = cause e
cause e = e

-- `strings.Join(parts, ", ")`
unfoldable pub join : List Bytes → Bytes
join [] = []
join (p ∷ []) = p
join (p ∷ q ∷ parts) = p ++ (codes ", " ++ join (q ∷ parts))

module _ {Any : Type 0} (type_name : Any → Option Bytes) where
  -- One part of the summary; `none` is the nil interface value.
  unfoldable pub summary_part : Any → Bytes
  summary_part a = elim (type_name a) [ none ↦ codes "nil" | some t ↦ t ]

  unfoldable pub summarize_args : List Any → Bytes
  summarize_args [] = codes "0 args"
  summarize_args (a ∷ args) =
      decimal (length (a ∷ args)) ++ (codes " args: " ++ join (map summary_part (a ∷ args)))

  unfoldable pub wrap_op_err : Op → Bytes → List Any → Option GoError → Option GoError
  wrap_op_err op query args none = none
  wrap_op_err op query args (some e) = some (op_error op query (summarize_args args) e)

  -- `errors.Is` sees through the wrapping: it adds text and keeps the cause, and nil stays nil.
  pub wrap_op_err-cause :
      (op : Op) (query : Bytes) (args : List Any) (e : Option GoError)
      → Option.map cause (wrap_op_err op query args e) ≡ Option.map cause e
  unfolding wrap_op_err cause
  wrap_op_err-cause op query args none = refl
  wrap_op_err-cause op query args (some e) = refl
