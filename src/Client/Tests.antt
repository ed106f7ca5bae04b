-- ===== src/Client/Tests.antt =====
-- A call that the server denies, for src/mcp_behaviour_guard/client.py.
use mcp_behaviour_guard.Prelude.{◌≡◌, refl, true, [], ◌∷◌, some, none}
use mcp_behaviour_guard.Json.{text, null, end}
use mcp_behaviour_guard.SavedRun.Value.{has_visible}
use mcp_behaviour_guard.Models.{deny}
use mcp_behaviour_guard.Client.{Folding, ClientCall, Exchange, answered, invoke}

abbrev folding : Folding
folding = record { dumps = λ v. "access denied"; casefold = λ s. s }

abbrev call : ClientCall
call = record {
  test_id = "AUTH-1";
  tool = "delete";
  identity_name = "bob";
  arguments = end;
  denial_error_markers = "denied" ∷ [];
  meta = none;
}

abbrev refusal : Exchange
refusal = answered (some "s-1") (record {
  is_error = true;
  structured_content = some (text "access denied");
  content = [];
  dump = null;
})

refused : (invoke folding call refusal).authorization ≡ deny
unfolding invoke has_visible
refused = refl
