-- ===== src/Tests/Queries.antt =====
-- The services on concrete requests (src/runtime_control.c:359-574).
use cerebri_cubs.Prelude.{◌≡◌, ◌⊎◌, ◌↔◌, refl, true, none, some, []}
use cerebri_cubs.Flatcc.{BuilderCall}
use cerebri_cubs.Reply.{build_reply}
use cerebri_cubs.Reply.Release.{build_reply_leaks}
use cerebri_cubs.Params.{find_value}
use cerebri_cubs.Service.{read_param_set, read_param_get, handle_param_set}
use cerebri_cubs.Service.ParamSet.{Settable, SetAccepted, param_set_effect}
use cerebri_cubs.Session.{Answers, after_set, set_apply_get}
use cerebri_cubs.Tests.{
  speed, at_start, at_start-Inv, test_flatcc, refusing_flatcc, doubles_fit, cruise_request,
  setpoint_request,
}

set_apply_get_example :
    Answers test_flatcc
      (after_set test_flatcc at_start cruise_request 100)
      setpoint_request
      100
      "velocity.setpoint"
      0
      speed
unfolding read_param_set read_param_get find_value
set_apply_get_example =
    set_apply_get test_flatcc doubles_fit at_start cruise_request setpoint_request 100
      "route_cruiseSpeed" "velocity.setpoint" speed 0 at_start-Inv refl refl refl refl refl

param_set_effect_example :
    (((handle_param_set test_flatcc at_start.runtime cruise_request 100).0 ≡ at_start.runtime)
      × ¬ Settable test_flatcc at_start.runtime (read_param_set test_flatcc cruise_request))
    ⊎ SetAccepted test_flatcc at_start.runtime
        (read_param_set test_flatcc cruise_request)
        100
        (handle_param_set test_flatcc at_start.runtime cruise_request 100)
param_set_effect_example = param_set_effect test_flatcc at_start.runtime cruise_request 100

build_reply_leaks_example :
    ((build_reply refusing_flatcc (some []) BuilderCall.param_set_reply_start [] 100).leaked ≡ true)
    ↔ (refusing_flatcc.emit [] BuilderCall.param_set_reply_start ≡ none)
build_reply_leaks_example =
    build_reply_leaks refusing_flatcc [] BuilderCall.param_set_reply_start [] 100
