-- ===== src/Tests/Cycles.antt =====
-- Control cycles of internal/agent/agent.go with an authentic pair and with a forged policy.
use m_waf.Common.{[], if◌then◌else◌, inl, none, ok_inj, refl, some, sym, true, ◌==◌, ◌∷◌}
use m_waf.Agent.Spool.{fails, unanswered, works}
use m_waf.Agent.Cycle.{Control, Desired, Server, handle_policy, is_new}
use m_waf.Agent.Cycle.Backed.{IsBacked, run_policies, run_policies-IsBacked}
use m_waf.Agent.Cycle.Refused.{handle_policy-IsUntouched}
use m_waf.Tests.Servers.{applier, crypto, desired, digest, forged, host}
use m_waf.Agent.Policy.Split.{Pair, references}
use m_waf.Agent.Verify.{IsAuthentic}
use m_waf.Bundle.Types.{format_base}
use m_waf.Agent.Cycle.Forged.{IsUntouched, IsVouched, crypto_in_force}
use mathlib.Core.Path.{subst}

abbrev server : Server
server = record {
  applier = applier;
  policy_key = 1 ∷ [];
  web_server = "nginx";
  integration_ready = true;
  config_test_ok = true;
  served = λ path. if path == "/agent/v1/artifacts/o" then 2 ∷ [] else 1 ∷ [];
  text_of = λ e. "error";
}

abbrev pair : Desired
pair = record {
  policy = desired;
  artifact_url = "";
  base_url = "/agent/v1/base-artifacts/b";
  override_url = "/agent/v1/artifacts/o";
  agent_package_id = "";
  module_package_id = "";
  package_deployment = none;
}

abbrev forged_policy : Desired
forged_policy = record {
  policy = forged;
  artifact_url = "/agent/v1/artifacts/f";
  base_url = "";
  override_url = "";
  agent_package_id = "a2";
  module_package_id = "m3";
  package_deployment = none;
}

-- There is no key file yet. The first result does not get through, the second one does and its answer is
-- lost.
abbrev control : Control
control = record {
  host = host;
  key_file = none;
  saved = none;
  results = [];
  faults = works ∷ works ∷ works ∷ works ∷ works ∷ fails ∷ works ∷ works ∷ unanswered ∷ [];
}

run_policies-IsBacked_example :
    IsBacked (run_policies ((server, pair) ∷ (server, forged_policy) ∷ (server, pair) ∷ []) control)
run_policies-IsBacked_example =
    run_policies-IsBacked ((server, pair) ∷ (server, forged_policy) ∷ (server, pair) ∷ []) control
      (inl refl)

-- a pair whose base is not signed
abbrev unsigned_pair : Desired
unsigned_pair = record pair {
  policy = record desired {
    base_policy =
        some (record { id = "b1"; format = format_base; sha256 = digest; signature = "bad" });
  };
}

unsigned-unvouched : ¬ IsVouched true (crypto_in_force server none) server unsigned_pair
unfolding references
unsigned-unvouched (r, named, base_signed, override_signed) =
    elim (unsigned (
      subst (λ (r : Pair). IsAuthentic crypto (1 ∷ []) r.base.sha256 r.base.signature)
        (sym (ok_inj named)) base_signed)) [ ]
  where
    unsigned : ¬ (IsAuthentic crypto (1 ∷ []) digest "bad")
    unsigned h = cc

handle_policy-IsUntouched_example :
    IsUntouched server control (handle_policy server unsigned_pair control).1
unfolding is_new
handle_policy-IsUntouched_example =
    handle_policy-IsUntouched server unsigned_pair control unsigned-unvouched refl
