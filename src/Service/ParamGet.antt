-- ===== src/Service/ParamGet.antt =====
-- `handle_param_get` (src/runtime_control.c:419-453): what a query answers.
use cerebri_cubs.Prelude.{ℕ, ◌≡◌, ap, ◌∙◌, String, Option, some}
use cerebri_cubs.Prelude.Int.{pos}
use cerebri_cubs.AtomicDouble.{Double}
use cerebri_cubs.AtomicDouble.RoundTrip.{value_of, try_load_idle, IsIdle}
use cerebri_cubs.Params.{find_value}
use cerebri_cubs.Flatcc.{Bytes, accepted, Flatcc}
use cerebri_cubs.Reply.{build_param_get_reply}
use cerebri_cubs.Runtime.{RuntimeControl}
use cerebri_cubs.Service.{
  read_param_get, answer_loaded, get_value, answer_param_get, handle_param_get,
}

module _ (f : Flatcc) where
  -- A complete request for a value of the table, read from an idle slot, is answered with that
  -- slot's value and changes nothing.
  pub param_get_lem :
      (r : RuntimeControl) (request : Option Bytes) (capacity : ℕ) (name : String) (index : ℕ)
      → read_param_get f request ≡ some name
      → find_value name ≡ some index
      → IsIdle (r.live_values index)
      → handle_param_get f r request capacity ≡ (
        r,
        build_param_get_reply f capacity accepted name (value_of (r.live_values index)) (pos 0),
      )
  unfolding handle_param_get answer_param_get
  param_get_lem r request capacity name index reads finds idle =
      ap (λ (read : Option String). (r, answer_param_get f r capacity read)) reads
      ∙ ap (λ (found : Option ℕ). (r, get_value f r capacity name found)) finds
      ∙ ap (λ (loaded : Option Double). (r, answer_loaded f capacity name loaded))
          (try_load_idle (r.live_values index) idle)
