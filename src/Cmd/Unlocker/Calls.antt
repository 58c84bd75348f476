-- ===== src/Cmd/Unlocker/Calls.antt =====
-- The calls of cmd/unlocker leave both databases as they are.
use eth_custodial.Prelude.{refl, ℕ, String, Option, none, some, List, [], ◌∷◌}
use eth_custodial.Jobs.{Bytes}
use eth_custodial.World.{M}
use eth_custodial.World.Hoare.{Still, Still-bind, Still-pure, Still-raise, Still-if}
use eth_custodial.Runtime.{Env, CallResult, done, call_errors, failed}
use eth_custodial.Chain.{log_sent}
use eth_custodial.Worker.DispatchError.{is_network_error}
use eth_custodial.Worker.Safety.Steps.{Still-tick}
use eth_custodial.Worker.Safety.Unlocker.{}
use eth_custodial.Worker.Unlocker.Refusal.{}
use eth_custodial.Cmd.Unlocker.Nodes.{
  Node, first_answer, answer_or, get_gas_price, refused_or, send_from,
}
use eth_custodial.Cmd.Unlocker.Resign.{submitted}
use eth_custodial.Cmd.Unlocker.{}

Still-answer_or : {A : Type 0} (r : Option A) (m : M A) → Still m → Still (answer_or r m)
Still-answer_or none m h = h
Still-answer_or (some a) m h = Still-pure a

pub Still-first_answer :
    {A : Type 0} (call : Node → ℕ → Option A) (nodes : List Node) → Still (first_answer call nodes)
unfolding first_answer
Still-first_answer call [] = Still-raise _
Still-first_answer call (n ∷ ns) =
    Still-bind Still-tick λ t. Still-answer_or (call n t) _ (Still-first_answer call ns)

pub Still-get_gas_price : (nodes : List Node) → Still (get_gas_price nodes)
unfolding get_gas_price
Still-get_gas_price nodes = Still-bind (Still-first_answer _ nodes) λ f. Still-pure _

Still-log_sent : (raw : Bytes) → Still (log_sent raw)
unfolding log_sent
Still-log_sent raw = record { kept_committed = λ w. refl; kept_working = λ w. refl }

Still-refused_or :
    (r : CallResult) (next : String → M (Option String))
    → ((last : String) → Still (next last))
    → Still (refused_or r next)
Still-refused_or done next h = Still-pure _
Still-refused_or (call_errors e) next h = Still-pure _
Still-refused_or (failed e) next h = Still-if (is_network_error e) (h e.message) (Still-pure _)

pub Still-send_from :
    (nodes : List Node) (raw : Bytes) (last : String) → Still (send_from nodes raw last)
unfolding send_from
Still-send_from [] raw last = Still-pure _
Still-send_from (n ∷ ns) raw last = Still-bind Still-tick λ t.
    Still-bind (Still-log_sent raw)
      λ _. Still-refused_or (n.take_raw_tx t raw) _ (Still-send_from ns raw)

pub Still-submitted :
    (env : Env) (new : String × String) (r : Option String) → Still (submitted env new r)
Still-submitted env new none = Still-pure _
Still-submitted env new (some msg) = Still-raise _
